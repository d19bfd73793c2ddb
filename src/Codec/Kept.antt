-- ===== src/Codec/Kept.antt =====
-- What every call of the callback of src/codec.cpp keeps, decoding keeps.
use l_w.Base.{
  ℕ, zero, suc, ◌+◌, ◌-◌, ◌||◌, List, some, ltb, take, drop, inl, inr, Bool-cases, Option-cases,
}
use l_w.Bytes.{u16_at, u32_at}
use l_w.Buffer.{Buffer, readable_bytes, peek, retrieve}
use l_w.Codec.{
  Outcome, returned, aborted, out_of_fuel, Turn, stop, again, Callback, deliver, rounds,
  decode_round, decode, length_field_size, type_field_size, min_frame_length, max_frame_length,
}
use l_w.Codec.Stream.{Turn-cases}

module _ {B S : Type 0} (P : S → Type 0) where
  abbrev pub OutcomeKeeps : Outcome B S → Type 0
  OutcomeKeeps (returned done b s) = P s
  OutcomeKeeps aborted = Unit
  OutcomeKeeps out_of_fuel = Unit

  abbrev TurnKeeps : Turn B S → Type 0
  TurnKeeps (stop o) = OutcomeKeeps o
  TurnKeeps (again b s) = P s

  rounds-Keeps :
      (fuel : ℕ) (body : B → S → Turn B S) (b : B) (s : S)
      → ((b' : B) (s' : S) → P s' → TurnKeeps (body b' s'))
      → P s
      → OutcomeKeeps (rounds fuel body b s)
  unfolding rounds
  rounds-Keeps zero body b s h p = tt
  rounds-Keeps (suc fuel) body b s h p =
      let rest : (b' : B) (s' : S) → P s' → OutcomeKeeps (rounds fuel body b' s') =
        λ b' s' p'. rounds-Keeps fuel body b' s' h p' in
      let now : TurnKeeps (body b s) = h b s p in
      elim (Turn-cases (body b s)) [
        | inl (o, e) ↦ rw (e, rounds) (rw e at now)
        | inr (b', s', e) ↦ rw (e, rounds) (rest b' s' (rw e at now))
      ]

  deliver-Keeps :
      (callback : Callback S) (type : ℕ) (payload : List ℕ) (rest : B) (s : S)
      → P (callback s type payload).0
      → TurnKeeps (deliver callback type payload rest s)
  unfolding deliver
  deliver-Keeps callback type payload rest s p = elim (Bool-cases (callback s type payload).1) [
    | inl more ↦ rw more p
    | inr enough ↦ rw enough p
  ]

module _ {S : Type 0} (P : S → Type 0) (callback : Callback S)
    (keeps : (s : S) (type : ℕ) (payload : List ℕ) → P s → P (callback s type payload).0) where
  decode_round-Keeps : (b : Buffer) (s : S) → P s → TurnKeeps P (decode_round callback b s)
  unfolding decode_round
  decode_round-Keeps b s p =
      let frame_len : ℕ = u32_at (peek b) 0 in
      elim (Bool-cases (ltb (readable_bytes b) length_field_size)) [
        | inl short ↦ rw short p
        | inr enough ↦
            elim (Bool-cases (ltb frame_len min_frame_length || ltb max_frame_length frame_len)) [
              | inl bad ↦ rw enough (rw bad p)
              | inr good ↦
                  elim (Bool-cases (ltb (readable_bytes b) (frame_len + length_field_size))) [
                    | inl part ↦ rw enough (rw good (rw part p))
                    | inr whole ↦ elim (Option-cases (retrieve b (frame_len + length_field_size))) [
                      | inl failed ↦ rw enough (rw good (rw whole (rw failed tt)))
                      | inr (rest, e) ↦ rw enough (
                          rw good (
                            rw whole (
                              rw e (
                                deliver-Keeps P callback (u16_at (peek b) length_field_size)
                                  (take (frame_len - type_field_size) (drop 6 (peek b))) rest s
                                  (keeps s (u16_at (peek b) length_field_size)
                                    (take (frame_len - type_field_size) (drop 6 (peek b))) p)))))
                    ]
                  ]
            ]
      ]

  -- However the bytes are framed, decoding keeps what each call of the callback keeps.
  pub decode-Keeps : (b : Buffer) (s : S) → P s → OutcomeKeeps P (decode (some callback) b s)
  unfolding decode
  decode-Keeps b s p =
      rounds-Keeps P (suc (readable_bytes b)) (decode_round callback) b s decode_round-Keeps p
