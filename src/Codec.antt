-- ===== src/Codec.antt =====
-- src/codec.cpp: frames of a 4-byte length, a 2-byte type and a payload, in a byte stream.
-- The callback is a function on a state `S` of its owner, which returns false to stop. The loop
-- `while (1)` runs on fuel; running out is an outcome of its own.
pub mod Stream
pub mod Refine
pub mod RoundTrip
pub mod Kept
mod Tests
use l_w.Base.{
  ℕ, zero, suc, ◌+◌, ◌-◌, Bool, true, false, ◌||◌, List, [], ◌++◌, Option, none, some, ltb,
  if◌then◌else◌, length, take, drop,
}
use l_w.Bytes.{be16, be32, u16_at, u32_at}
use l_w.Buffer.{Buffer, readable_bytes, peek, retrieve}

abbrev pub length_field_size : ℕ
length_field_size = 4

abbrev pub type_field_size : ℕ
type_field_size = 2

abbrev pub min_frame_length : ℕ
min_frame_length = 2

abbrev pub max_frame_length : ℕ
max_frame_length = 65536

-- `none`: false is returned, and the frame is left empty.
unfoldable pub encode : ℕ → List ℕ → Option (List ℕ)
encode type payload =
    if ltb (max_frame_length - type_field_size) (length payload)
    then none
    else some (be32 (type_field_size + length payload) ++ be16 type ++ payload)

-- How a call of `decode` ends, with the buffer and the callback's state that it leaves.
pub data Outcome (B S : Type 0) : Type 0 where
  returned : Bool → B → S → Outcome B S
  aborted : Outcome B S
  out_of_fuel : Outcome B S

-- One round of the loop: the call ends, or the loop goes on.
pub data Turn (B S : Type 0) : Type 0 where
  stop : Outcome B S → Turn B S
  again : B → S → Turn B S

abbrev pub Callback : Type 0 → Type 0
Callback S = S → ℕ → List ℕ → S × Bool

module _ {B S : Type 0} where
  unfoldable pub deliver : Callback S → ℕ → List ℕ → B → S → Turn B S
  deliver callback type payload rest s =
      let (s', go_on) = callback s type payload in
      if go_on then again rest s' else stop (returned false rest s')

  unfoldable pub rounds : ℕ → (B → S → Turn B S) → B → S → Outcome B S
  rounds zero body b s = out_of_fuel
  rounds (suc fuel) body b s = elim (body b s) [ stop o ↦ o | again b' s' ↦ rounds fuel body b' s' ]

module _ {S : Type 0} where
  unfoldable pub decode_round : Callback S → Buffer → S → Turn Buffer S
  decode_round callback b s =
      if ltb (readable_bytes b) length_field_size
      then stop (returned true b s)
      else (let frame_len = u32_at (peek b) 0 in
          if ltb frame_len min_frame_length || ltb max_frame_length frame_len
          then stop (returned false b s)
          else if ltb (readable_bytes b) (frame_len + length_field_size)
          then stop (returned true b s)
          else (let net_type = u16_at (peek b) length_field_size in
              let net_payload = take (frame_len - type_field_size) (drop 6 (peek b)) in
              elim (retrieve b (frame_len + length_field_size)) [
                | none ↦ stop aborted
                | some rest ↦ deliver callback net_type net_payload rest s
              ]))

  -- An empty `std::function` is `none`. Each round takes bytes off, so as many rounds as there are
  -- bytes, and one more, are enough.
  unfoldable pub decode : Option (Callback S) → Buffer → S → Outcome Buffer S
  unfolding decode_round rounds
  decode none b s = returned false b s
  decode (some callback) b s = rounds (suc (readable_bytes b)) (decode_round callback) b s
