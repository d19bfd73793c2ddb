-- ===== src/CheckpointCodec/Outcomes.antt =====
-- How a call of include/checkpoint_codec.h ends: with a value, which the code stores in its output
-- argument as it returns `success`, or with another state, the argument left alone.
use l_w.Base.{◌≡◌, refl, Bool, true, false, Option, none, some, if◌then◌else◌}

-- `success` is `answer`.
pub data States : Type 0 where
  invalid_checkpoint malformed_data unsupported_version checksum_mismatch : States
  too_large : States

pub data Answer {ℓ} (A : Type ℓ) : Type ℓ where
  refuse : States → Answer A
  answer : A → Answer A

-- A failed append, and a failed read.
abbrev pub large {ℓ} : {A : Type ℓ} → Option A → Answer A
large none = refuse too_large
large (some a) = answer a

abbrev pub need {ℓ} : {A : Type ℓ} → Option A → Answer A
need none = refuse malformed_data
need (some a) = answer a

-- `if (!test) return e;`
abbrev pub ensure : Bool → States → Answer (Unit {0})
ensure test e = if test then answer tt else refuse e

infixl 5 ◌>>◌ ◌>>=◌
abbrev pub ◌>>◌ {ℓ} : {B : Type ℓ} → Answer (Unit {0}) → Answer B → Answer B
refuse e >> rest = refuse e
answer a >> rest = rest

abbrev pub ◌>>=◌ {ℓ κ} : {A : Type ℓ} {B : Type κ} → Answer A → (A → Answer B) → Answer B
refuse e >>= rest = refuse e
answer a >>= rest = rest a

-- A chain that succeeds, taken apart.
pub bind-eq-answer {κ ℓ} :
    {B : Type κ} {A : Type ℓ} (call : Answer A) (rest : A → Answer B) {last : B}
    → (call >>= rest) ≡ answer last
    → (first : A) × (call ≡ answer first) × (rest first ≡ answer last)
bind-eq-answer (refuse e) rest h = cc
bind-eq-answer (answer first) rest h = (first, refl, h)

pub large-eq-answer {ℓ} : {A : Type ℓ} (o : Option A) {a : A} → large o ≡ answer a → o ≡ some a
large-eq-answer none h = cc
large-eq-answer (some b) h = cc

pub ensure-eq-answer {ℓ} :
    {B : Type ℓ} (test : Bool) (e : States) (rest : Answer B) {last : B}
    → (ensure test e >> rest) ≡ answer last
    → (test ≡ true) × (rest ≡ answer last)
ensure-eq-answer true e rest h = (refl, h)
ensure-eq-answer false e rest h = cc
