-- ===== src/Codec/Stream.antt =====
-- What the decoder of src/codec.cpp means on a stream of bytes, with no buffer: the reference for
-- the refinement, and its law for streams that arrive in pieces.
use l_w.Base.{
  ℕ, zero, suc, ◌+◌, ◌-◌, ◌≤◌, ◌<◌, ◌≡◌, refl, sym, ap, ◌∙◌, ◌⊎◌, inl, inr, Bool, true, false, ◌||◌,
  List, [], ◌∷◌, ◌++◌, arith, ltb, if◌then◌else◌, length, get_or, take, drop, length-append,
  length-drop, take-append-le, drop-append-le, Bool-cases, lt→ltb, ltb→lt, ltb_false→le,
  le→ltb_false,
}
use l_w.Bytes.{u16_at, u32_at}
use l_w.Codec.{
  Outcome, returned, aborted, out_of_fuel, Turn, stop, again, Callback, deliver, rounds,
}

module _ {S : Type 0} where
  unfoldable pub stream_round : Callback S → List ℕ → S → Turn (List ℕ) S
  stream_round callback xs s =
      if ltb (length xs) 4
      then stop (returned true xs s)
      else if ltb (u32_at xs 0) 2 || ltb 65536 (u32_at xs 0)
      then stop (returned false xs s)
      else if ltb (length xs) (u32_at xs 0 + 4)
      then stop (returned true xs s)
      else deliver callback (u16_at xs 4) (take (u32_at xs 0 - 2) (drop 6 xs))
          (drop (u32_at xs 0 + 4) xs) s

  unfoldable pub stream_decode : Callback S → List ℕ → S → Outcome (List ℕ) S
  stream_decode callback xs s = rounds (suc (length xs)) (stream_round callback) xs s

module _ {B S : Type 0} where
  pub Turn-cases :
      (t : Turn B S) → ((o : Outcome B S) × (t ≡ stop o)) ⊎ ((b : B) × (s : S) × (t ≡ again b s))
  Turn-cases (stop o) = inl (o, refl)
  Turn-cases (again b s) = inr (b, s, refl)

  pub rounds-stop :
      (f : ℕ) (body : B → S → Turn B S) (b : B) (s : S) {o : Outcome B S}
      → body b s ≡ stop o
      → rounds (suc f) body b s ≡ o
  unfolding rounds
  rounds-stop f body b s e = rw (e, rounds)

  pub rounds-again :
      (f : ℕ) (body : B → S → Turn B S) (b : B) (s : S) {c : B} {t : S}
      → body b s ≡ again c t
      → rounds (suc f) body b s ≡ rounds f body c t
  unfolding rounds
  rounds-again f body b s e = rw (e, rounds)

module _ {S : Type 0} (callback : Callback S) where
  -- A round that goes on has taken a whole frame off.
  pub stream_round-shorter :
      (xs : List ℕ) (s : S) (ys : List ℕ) (t : S)
      → stream_round callback xs s ≡ again ys t
      → length ys < length xs
  unfolding stream_round deliver
  stream_round-shorter xs s ys t h = ground (arith, length-drop (u32_at xs 0 + 4) xs)

  -- More fuel than bytes changes nothing.
  pub rounds-fuel :
      (f g : ℕ) (xs : List ℕ) (s : S)
      → length xs < f
      → length xs < g
      → rounds f (stream_round callback) xs s ≡ rounds g (stream_round callback) xs s
  rounds-fuel zero g xs s h k = absurd (omega arith)
  rounds-fuel (suc f) zero xs s h k = absurd (omega arith)
  rounds-fuel (suc f) (suc g) xs s h k = elim (Turn-cases (stream_round callback xs s)) [
    | inl (o, e) ↦ rounds-stop f _ xs s e ∙ sym (rounds-stop g _ xs s e)
    | inr (ys, t, e) ↦
        rounds-again f _ xs s e
        ∙ rounds-fuel f g ys t (omega (arith, stream_round-shorter xs s ys t e))
            (omega (arith, stream_round-shorter xs s ys t e))
        ∙ sym (rounds-again g _ xs s e)
  ]

  -- One round at the head of the stream.
  pub stream_decode-again :
      (xs : List ℕ) (s : S) (ys : List ℕ) (t : S)
      → stream_round callback xs s ≡ again ys t
      → stream_decode callback xs s ≡ stream_decode callback ys t
  unfolding stream_decode
  stream_decode-again xs s ys t e =
      rounds-again (length xs) _ xs s e
      ∙ rounds-fuel (length xs) (suc (length ys)) ys t (stream_round-shorter xs s ys t e)
          (omega arith)

  pub stream_decode-stop :
      (xs : List ℕ) (s : S) {o : Outcome (List ℕ) S}
      → stream_round callback xs s ≡ stop o
      → stream_decode callback xs s ≡ o
  unfolding stream_decode
  stream_decode-stop xs s e = rounds-stop (length xs) _ xs s e

get_or-append-lt : (xs ys : List ℕ) (i : ℕ) → i < length xs → get_or (xs ++ ys) i 0 ≡ get_or xs i 0
get_or-append-lt [] ys i h = absurd (omega arith)
get_or-append-lt (x ∷ xs) ys zero h = refl
get_or-append-lt (x ∷ xs) ys (suc i) h = get_or-append-lt xs ys i (omega arith)

-- The header of a frame does not change when bytes are added behind it.
u32_at-append-lt : (xs ys : List ℕ) → 4 ≤ length xs → u32_at (xs ++ ys) 0 ≡ u32_at xs 0
u32_at-append-lt xs ys h = omega (
  arith,
  get_or-append-lt xs ys 0 (omega arith),
  get_or-append-lt xs ys 1 (omega arith),
  get_or-append-lt xs ys 2 (omega arith),
  get_or-append-lt xs ys 3 (omega arith),
)

u16_at-append-lt : (xs ys : List ℕ) → 6 ≤ length xs → u16_at (xs ++ ys) 4 ≡ u16_at xs 4
u16_at-append-lt xs ys h =
    omega (arith, get_or-append-lt xs ys 4 (omega arith), get_or-append-lt xs ys 5 (omega arith))

payload-append :
    (n : ℕ) (xs ys : List ℕ)
    → 2 ≤ n
    → n + 4 ≤ length xs
    → take (n - 2) (drop 6 (xs ++ ys)) ≡ take (n - 2) (drop 6 xs)
payload-append n xs ys h k =
    ap (take (n - 2)) (drop-append-le 6 xs ys (omega arith))
    ∙ take-append-le (n - 2) (drop 6 xs) ys (omega (arith, length-drop 6 xs))

-- What remains to be done when more bytes arrive after a call of the decoder.
unfoldable pub resume : {S : Type 0} → Callback S → List ℕ → Outcome (List ℕ) S → Outcome (List ℕ) S
resume callback ys (returned true rest s) = stream_decode callback (rest ++ ys) s
resume callback ys (returned false rest s) = returned false (rest ++ ys) s
resume callback ys aborted = aborted
resume callback ys out_of_fuel = out_of_fuel

pub resume_more :
    {S : Type 0} (callback : Callback S) (ys rest : List ℕ) (s : S)
    → resume callback ys (returned true rest s) ≡ stream_decode callback (rest ++ ys) s
unfolding resume
resume_more callback ys rest s = refl

abbrev pub is_malformed : ℕ → Bool
is_malformed n = ltb n 2 || ltb 65536 n

module _ {S : Type 0} (callback : Callback S) (xs : List ℕ) (s : S) where
  pub stream_round-short : length xs < 4 → stream_round callback xs s ≡ stop (returned true xs s)
  unfolding stream_round
  stream_round-short h = rw (lt→ltb _ _ h)

  pub stream_round-malformed :
      (n : ℕ)
      → u32_at xs 0 ≡ n
      → 4 ≤ length xs
      → is_malformed n ≡ true
      → stream_round callback xs s ≡ stop (returned false xs s)
  unfolding stream_round
  stream_round-malformed n e h bad = rw (le→ltb_false _ _ h, e, bad)

  pub stream_round-partial :
      (n : ℕ)
      → u32_at xs 0 ≡ n
      → 4 ≤ length xs
      → is_malformed n ≡ false
      → length xs < n + 4
      → stream_round callback xs s ≡ stop (returned true xs s)
  unfolding stream_round
  stream_round-partial n e h good m = rw (le→ltb_false _ _ h, e, good, lt→ltb _ _ m)

  pub stream_round-whole :
      (n : ℕ)
      → u32_at xs 0 ≡ n
      → 4 ≤ length xs
      → is_malformed n ≡ false
      → n + 4 ≤ length xs
      → stream_round callback xs s
        ≡ deliver callback (u16_at xs 4) (take (n - 2) (drop 6 xs)) (drop (n + 4) xs) s
  unfolding stream_round
  stream_round-whole n e h good m = rw (le→ltb_false _ _ h, e, good, le→ltb_false _ _ m)

module _ {S : Type 0} (callback : Callback S) (xs ys : List ℕ) (s : S) where
  -- What a round does to a stream, and to the same stream with more bytes behind it.
  abbrev Extends : Type 0
  Extends =
      (stream_round callback xs s ≡ stop (returned true xs s))
      ⊎ (((rest : List ℕ) × (s' : S) × (stream_round callback xs s ≡ stop (returned false rest s'))
            × (stream_round callback (xs ++ ys) s ≡ stop (returned false (rest ++ ys) s')))
          ⊎ ((rest : List ℕ) × (s' : S) × (stream_round callback xs s ≡ again rest s')
              × (stream_round callback (xs ++ ys) s ≡ again (rest ++ ys) s')))

  deliver-Extends :
      (type : ℕ) (payload rest : List ℕ)
      → stream_round callback xs s ≡ deliver callback type payload rest s
      → stream_round callback (xs ++ ys) s ≡ deliver callback type payload (rest ++ ys) s
      → Extends
  unfolding deliver
  deliver-Extends type payload rest e e' = elim (Bool-cases (callback s type payload).1) [
    | inl goes_on ↦
        inr (inr (rest, (callback s type payload).0, e ∙ (rw goes_on), e' ∙ (rw goes_on)))
    | inr rejects ↦
        inr (inl (rest, (callback s type payload).0, e ∙ (rw rejects), e' ∙ (rw rejects)))
  ]

  longer : length xs ≤ length (xs ++ ys)
  longer = omega (arith, length-append xs ys)

  header_Extends : 4 ≤ length xs → Extends
  header_Extends h = elim (Bool-cases (is_malformed (u32_at xs 0))) [
    | inl bad ↦ inr (
        inl (
          xs,
          s,
          stream_round-malformed callback xs s _ refl h bad,
          stream_round-malformed callback (xs ++ ys) s _ (u32_at-append-lt xs ys h)
              (omega (arith, longer)) bad,
        ))
    | inr good ↦ elim (Bool-cases (ltb (length xs) (u32_at xs 0 + 4))) [
      | inl m ↦ inl (stream_round-partial callback xs s _ refl h good (ltb→lt _ _ m))
      | inr m ↦ whole (u32_at xs 0) refl good (ltb_false→le _ _ m)
    ]
  ]
    where
      whole : (n : ℕ) → u32_at xs 0 ≡ n → is_malformed n ≡ false → n + 4 ≤ length xs → Extends
      whole n e good m =
          deliver-Extends (u16_at xs 4) (take (n - 2) (drop 6 xs)) (drop (n + 4) xs)
            (stream_round-whole callback xs s n e h good m)
            (stream_round-whole callback (xs ++ ys) s n (u32_at-append-lt xs ys h ∙ e)
                (omega (arith, longer)) good (omega (arith, longer))
              ∙ (rw (
                u16_at-append-lt xs ys (ground arith),
                payload-append n xs ys (ground arith) m,
                drop-append-le (n + 4) xs ys m,
              )))

  round-Extends : Extends
  round-Extends = elim (Bool-cases (ltb (length xs) 4)) [
    | inl h ↦ inl (stream_round-short callback xs s (ltb→lt _ _ h))
    | inr h ↦ header_Extends (ltb_false→le _ _ h)
  ]

module _ {S : Type 0} (callback : Callback S) (ys : List ℕ) where
  resume_within :
      (f : ℕ) (xs : List ℕ) (s : S)
      → length xs < f
      → stream_decode callback (xs ++ ys) s ≡ resume callback ys (stream_decode callback xs s)
  unfolding resume
  resume_within zero xs s h = absurd (omega arith)
  resume_within (suc f) xs s h = elim (round-Extends callback xs ys s) [
    | inl waits ↦ rw (stream_decode-stop callback xs s waits)
    | inr (inl (rest, s', ends, ends')) ↦
        rw (stream_decode-stop callback xs s ends, stream_decode-stop callback (xs ++ ys) s ends')
    | inr (inr (rest, s', goes_on, goes_on')) ↦
        rw
          (
            stream_decode-again callback xs s rest s' goes_on,
            stream_decode-again callback (xs ++ ys) s (rest ++ ys) s' goes_on',
          )
          (resume_within f rest s'
            (omega (arith, stream_round-shorter callback xs s rest s' goes_on)))
  ]

  -- A stream that arrives in two pieces is decoded as if it had arrived at once: the decoder keeps
  -- the bytes of an unfinished frame, and goes on from there with the callback's state.
  pub stream_decode-append :
      (xs : List ℕ) (s : S)
      → stream_decode callback (xs ++ ys) s ≡ resume callback ys (stream_decode callback xs s)
  stream_decode-append xs s = resume_within (suc (length xs)) xs s (omega arith)

module _ {S : Type 0} (callback : Callback S) where
  -- The decoder always returns: its fuel is enough.
  returns_within :
      (f : ℕ) (xs : List ℕ) (s : S)
      → length xs < f
      → (ok : Bool) × (rest : List ℕ) × (t : S) × (stream_decode callback xs s ≡ returned ok rest t)
  returns_within zero xs s h = absurd (omega arith)
  returns_within (suc f) xs s h = elim (round-Extends callback xs [] s) [
    | inl waits ↦ (true, xs, s, stream_decode-stop callback xs s waits)
    | inr (inl (rest, s', ends, _)) ↦ (false, rest, s', stream_decode-stop callback xs s ends)
    | inr (inr (rest, s', goes_on, _)) ↦
        let (ok, left, t, e) =
          returns_within f rest s'
            (omega (arith, stream_round-shorter callback xs s rest s' goes_on)) in
        (ok, left, t, stream_decode-again callback xs s rest s' goes_on ∙ e)
  ]

  pub stream_decode_returns :
      (xs : List ℕ) (s : S)
      → (ok : Bool) × (rest : List ℕ) × (t : S) × (stream_decode callback xs s ≡ returned ok rest t)
  stream_decode_returns xs s = returns_within (suc (length xs)) xs s (omega arith)
