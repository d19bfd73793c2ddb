-- ===== src/Codec/Refine.antt =====
-- The decoder of src/codec.cpp, on the buffer of src/buffer.cpp, does on the waiting bytes what the
-- reference of `Stream` does.
use l_w.Base.{
  ℕ, zero, suc, ◌+◌, ◌-◌, ◌≤◌, ◌<◌, ◌≡◌, refl, ap, ◌∙◌, inl, inr, Bool, true, false, List, [], ◌∷◌,
  some, arith, ltb, length, get_or, take, drop, Bool-cases, lt→ltb, ltb→lt, ltb_false→le,
  le→ltb_false,
}
use l_w.Bytes.{u16_at, u32_at}
use l_w.Buffer.{Buffer, readable_bytes, peek, retrieve}
use l_w.Buffer.Queue.{IsValid, contents, length-contents, retrieve-contents}
use l_w.Codec.{
  Outcome, returned, Turn, stop, again, Callback, deliver, rounds, decode_round, decode,
}
use l_w.Codec.Stream.{
  stream_round, stream_decode, is_malformed, stream_round-short, stream_round-malformed,
  stream_round-partial, stream_round-whole, rounds-stop, rounds-again, stream_round-shorter,
}

-- The buffer's outcome and the stream's are the same, and the buffer is left valid.
pub data Refines {S : Type 0} (o : Outcome Buffer S) (p : Outcome (List ℕ) S) : Type 0 where
  returns :
      (ok : Bool) (b : Buffer) (s : S)
      → IsValid b
      → o ≡ returned ok b s
      → p ≡ returned ok (contents b) s
      → Refines o p

-- The same of one round.
data RoundRefines {S : Type 0} (t : Turn Buffer S) (u : Turn (List ℕ) S) : Type 0 where
  stops :
      (ok : Bool) (b : Buffer) (s : S)
      → IsValid b
      → t ≡ stop (returned ok b s)
      → u ≡ stop (returned ok (contents b) s)
      → RoundRefines t u
  goes_on :
      (b : Buffer) (s : S) → IsValid b → t ≡ again b s → u ≡ again (contents b) s → RoundRefines t u

get_or-take : (n i : ℕ) (xs : List ℕ) → i < n → get_or (take n xs) i 0 ≡ get_or xs i 0
get_or-take zero i xs h = absurd (omega arith)
get_or-take (suc n) i [] h = refl
get_or-take (suc n) zero (x ∷ xs) h = refl
get_or-take (suc n) (suc i) (x ∷ xs) h = get_or-take n i xs (omega arith)

take-drop-take :
    (k d n : ℕ) (xs : List ℕ) → d + k ≤ n → take k (drop d (take n xs)) ≡ take k (drop d xs)
take-drop-take zero zero n xs h = refl
take-drop-take (suc k) zero zero xs h = absurd (omega arith)
take-drop-take (suc k) zero (suc n) [] h = refl
take-drop-take (suc k) zero (suc n) (x ∷ xs) h =
    ap (◌∷◌ x) (take-drop-take k zero n xs (omega arith))
take-drop-take k (suc d) zero xs h = absurd (omega arith)
take-drop-take zero (suc d) (suc n) [] h = refl
take-drop-take (suc k) (suc d) (suc n) [] h = refl
take-drop-take k (suc d) (suc n) (x ∷ xs) h = take-drop-take k d n xs (omega arith)

module _ (b : Buffer) where
  -- The header is read behind the pointer that `peek` gives, inside the waiting bytes.
  header : 4 ≤ readable_bytes b → u32_at (contents b) 0 ≡ u32_at (peek b) 0
  unfolding readable_bytes peek
  header h = omega (
    arith,
    get_or-take (b.write_pos - b.read_pos) 0 (drop b.read_pos b.buffer) (omega arith),
    get_or-take (b.write_pos - b.read_pos) 1 (drop b.read_pos b.buffer) (omega arith),
    get_or-take (b.write_pos - b.read_pos) 2 (drop b.read_pos b.buffer) (omega arith),
    get_or-take (b.write_pos - b.read_pos) 3 (drop b.read_pos b.buffer) (omega arith),
  )

  type_field : 6 ≤ readable_bytes b → u16_at (contents b) 4 ≡ u16_at (peek b) 4
  unfolding readable_bytes peek
  type_field h = omega (
    arith,
    get_or-take (b.write_pos - b.read_pos) 4 (drop b.read_pos b.buffer) (omega arith),
    get_or-take (b.write_pos - b.read_pos) 5 (drop b.read_pos b.buffer) (omega arith),
  )

  payload_field :
      (n : ℕ)
      → 2 ≤ n
      → n + 4 ≤ readable_bytes b
      → take (n - 2) (drop 6 (contents b)) ≡ take (n - 2) (drop 6 (peek b))
  unfolding readable_bytes peek
  payload_field n h k =
      take-drop-take (n - 2) 6 (b.write_pos - b.read_pos) (drop b.read_pos b.buffer) (omega arith)

module _ {S : Type 0} (callback : Callback S) (b : Buffer) (v : IsValid b) (s : S) where
  deliver-RoundRefines :
      (type : ℕ) (payload : List ℕ) (rest : Buffer)
      → IsValid rest
      → RoundRefines
          (deliver callback type payload rest s)
          (deliver callback type payload (contents rest) s)
  unfolding deliver
  deliver-RoundRefines type payload rest w = elim (Bool-cases (callback s type payload).1) [
    | inl yes_more ↦ goes_on rest (callback s type payload).0 w (rw yes_more) (rw yes_more)
    | inr rejects ↦ stops false rest (callback s type payload).0 w (rw rejects) (rw rejects)
  ]

  decode_round-waits :
      (n : ℕ)
      → u32_at (peek b) 0 ≡ n
      → 4 ≤ readable_bytes b
      → is_malformed n ≡ false
      → readable_bytes b < n + 4
      → decode_round callback b s ≡ stop (returned true b s)
  unfolding decode_round
  decode_round-waits n e h good m = rw (le→ltb_false _ _ h, e, good, lt→ltb _ _ m)

  decode_round-whole :
      (n : ℕ) (rest : Buffer)
      → u32_at (peek b) 0 ≡ n
      → 4 ≤ readable_bytes b
      → is_malformed n ≡ false
      → n + 4 ≤ readable_bytes b
      → retrieve b (n + 4) ≡ some rest
      → decode_round callback b s
        ≡ deliver callback (u16_at (peek b) 4) (take (n - 2) (drop 6 (peek b))) rest s
  unfolding decode_round
  decode_round-whole n rest e h good m r =
      rw (le→ltb_false _ _ h, e, good, le→ltb_false _ _ m, r) (rw e)

  decode_round-malformed :
      (n : ℕ)
      → u32_at (peek b) 0 ≡ n
      → 4 ≤ readable_bytes b
      → is_malformed n ≡ true
      → decode_round callback b s ≡ stop (returned false b s)
  unfolding decode_round
  decode_round-malformed n e h bad = rw (le→ltb_false _ _ h, e, bad)

  decode_round-short : readable_bytes b < 4 → decode_round callback b s ≡ stop (returned true b s)
  unfolding decode_round
  decode_round-short h = rw (lt→ltb _ _ h)

module _ {S : Type 0} (callback : Callback S) (b : Buffer) (v : IsValid b) (s : S) where
  carry :
      {t t' : Turn Buffer S} {u u' : Turn (List ℕ) S}
      → t ≡ t'
      → u ≡ u'
      → RoundRefines t' u'
      → RoundRefines t u
  carry p q (stops ok c z w e e') = stops ok c z w (p ∙ e) (q ∙ e')
  carry p q (goes_on c z w e e') = goes_on c z w (p ∙ e) (q ∙ e')

  whole-RoundRefines :
      (n : ℕ)
      → u32_at (peek b) 0 ≡ n
      → 4 ≤ readable_bytes b
      → is_malformed n ≡ false
      → n + 4 ≤ readable_bytes b
      → RoundRefines (decode_round callback b s) (stream_round callback (contents b) s)
  whole-RoundRefines n e h good m =
      let l : length (contents b) ≡ readable_bytes b = length-contents v in
      let (rest, r, w, c) = retrieve-contents v (n + 4) (omega arith) in
      carry (decode_round-whole callback b v s n rest e h good m r)
        (stream_round-whole callback (contents b) s n (header b h ∙ e) (omega arith) good
            (omega arith)
          ∙ (rw (type_field b (ground arith), payload_field b n (ground arith) m, ← c)))
        (deliver-RoundRefines callback b v s (u16_at (peek b) 4) (take (n - 2) (drop 6 (peek b)))
          rest w)

  header-RoundRefines :
      4 ≤ readable_bytes b
      → RoundRefines (decode_round callback b s) (stream_round callback (contents b) s)
  header-RoundRefines h = split (u32_at (peek b) 0) refl
    where
      l : length (contents b) ≡ readable_bytes b
      l = length-contents v

      split :
          (n : ℕ)
          → u32_at (peek b) 0 ≡ n
          → RoundRefines (decode_round callback b s) (stream_round callback (contents b) s)
      split n e = elim (Bool-cases (is_malformed n)) [
        | inl bad ↦ stops false b s v (decode_round-malformed callback b v s n e h bad) (
            stream_round-malformed callback (contents b) s n (header b h ∙ e) (omega (arith, l))
              bad)
        | inr good ↦ elim (Bool-cases (ltb (readable_bytes b) (n + 4))) [
          | inl m ↦ stops true b s v (decode_round-waits callback b v s n e h good (ltb→lt _ _ m)) (
              stream_round-partial callback (contents b) s n (header b h ∙ e) (omega (arith, l))
                good (omega (arith, l, ltb→lt _ _ m)))
          | inr m ↦ whole-RoundRefines n e h good (ltb_false→le _ _ m)
        ]
      ]

  decode_round-RoundRefines :
      RoundRefines (decode_round callback b s) (stream_round callback (contents b) s)
  decode_round-RoundRefines = elim (Bool-cases (ltb (readable_bytes b) 4)) [
    | inl h ↦ stops true b s v (decode_round-short callback b v s (ltb→lt _ _ h)) (
        stream_round-short callback (contents b) s (omega (arith, length-contents v, ltb→lt _ _ h)))
    | inr h ↦ header-RoundRefines (ltb_false→le _ _ h)
  ]

module _ {S : Type 0} (callback : Callback S) where
  rounds-Refines :
      (f : ℕ) (b : Buffer) (s : S)
      → IsValid b
      → length (contents b) < f
      → Refines
          (rounds f (decode_round callback) b s)
          (rounds f (stream_round callback) (contents b) s)
  rounds-Refines zero b s v h = absurd (omega arith)
  rounds-Refines (suc f) b s v h =
      go (decode_round-RoundRefines callback b v s) (λ c t w lt. rounds-Refines f c t w lt)
    where
      go :
          RoundRefines (decode_round callback b s) (stream_round callback (contents b) s)
          → ((c : Buffer) (t : S)
              → IsValid c
              → length (contents c) < f
              → Refines
                  (rounds f (decode_round callback) c t)
                  (rounds f (stream_round callback) (contents c) t))
          → Refines
              (rounds (suc f) (decode_round callback) b s)
              (rounds (suc f) (stream_round callback) (contents b) s)
      go (stops ok c t w e e') ih =
          returns ok c t w (rounds-stop f _ b s e) (rounds-stop f _ (contents b) s e')
      go (goes_on c t w e e') ih =
          rw
            (
              rounds-again f (decode_round callback) b s e,
              rounds-again f (stream_round callback) (contents b) s e',
            )
            (ih c t w
              (omega (arith, stream_round-shorter callback (contents b) s (contents c) t e')))

  -- On a valid buffer the decoder always returns, with the result, the waiting bytes and the
  -- callback's state of the reference on the bytes that waited, and leaves the buffer valid.
  pub decode-Refines :
      (b : Buffer) (s : S)
      → IsValid b
      → Refines (decode (some callback) b s) (stream_decode callback (contents b) s)
  unfolding decode stream_decode
  decode-Refines b s v =
      rw (← length-contents v) (rounds-Refines (suc (length (contents b))) b s v (omega arith))
