-- ===== src/Codec/RoundTrip.antt =====
-- Frames written by `Codec::encode` and read by `Codec::decode` of src/codec.cpp.
use l_w.Base.{
  ℕ, ◌+◌, ◌-◌, ◌≤◌, ◌<◌, ◌≡◌, refl, sym, ap, subst, ◌∙◌, ◌⊎◌, inl, inr, Bool, true, false, List, [],
  ◌∷◌, ◌++◌, Option, none, some, arith, if◌then◌else◌, length, length-append, Bool-cases, lt→ltb,
  le→ltb_false, append_assoc, append-nil, take-append, drop-append, All, ◌>>=◌, bind-eq-some,
}
use l_w.Bytes.{be16, be32, u32_at, u16_mod}
use l_w.Buffer.{Buffer, append}
use l_w.Buffer.Queue.{IsValid, contents, append-contents}
use l_w.Codec.{Outcome, returned, Callback, deliver, decode, encode}
use l_w.Codec.Stream.{
  stream_round, stream_decode, resume, is_malformed, stream_round-whole, stream_decode-stop,
  stream_decode-again, stream_decode-append, resume_more, stream_round-short, stream_round-partial,
}
use l_w.Codec.Refine.{Refines, returns, decode-Refines}

-- Exactly the payloads that leave room for the type field within a frame are encoded.
pub encode_total :
    (type : ℕ) (payload : List ℕ)
    → length payload ≤ 65534
    → encode type payload ≡ some (be32 (2 + length payload) ++ be16 type ++ payload)
unfolding encode
encode_total type payload h = rw (le→ltb_false _ _ h)

pub encode_too_large :
    (type : ℕ) (payload : List ℕ) → 65534 < length payload → encode type payload ≡ none
unfolding encode
encode_too_large type payload h = rw (lt→ltb _ _ h)

encode_inv :
    (type : ℕ) (payload : List ℕ) {frame : List ℕ}
    → encode type payload ≡ some frame
    → (length payload ≤ 65534) × (be32 (2 + length payload) ++ be16 type ++ payload ≡ frame)
unfolding encode
encode_inv type payload e = ground arith

deliver-cong :
    {S : Type 0} (callback : Callback S) (s : S) {t t' : ℕ} {p p' r r' : List ℕ}
    → t ≡ t'
    → p ≡ p'
    → r ≡ r'
    → deliver callback t p r s ≡ deliver callback t' p' r' s
deliver-cong callback s a b c = rw (a, b, c)

module _ {S : Type 0} (callback : Callback S) (type : ℕ) (payload rest : List ℕ) (s : S) where
  frame_round :
      type < u16_mod
      → length payload ≤ 65534
      → stream_round callback ((be32 (2 + length payload) ++ be16 type ++ payload) ++ rest) s
        ≡ deliver callback type payload rest s
  frame_round h l =
      stream_round-whole callback _ s (2 + length payload) (omega arith) (omega arith)
        (ground arith) (omega (arith, length-append payload rest))
      ∙ deliver-cong callback s (omega arith)
          (take-append (2 + length payload - 2) payload rest (omega arith))
          (drop-append (2 + length payload + 4) (be32 (2 + length payload) ++ be16 type ++ payload)
            rest (omega arith))

  -- A frame at the head of the stream is handed to the callback with the type and the payload that
  -- were encoded; if the callback agrees the bytes behind it are decoded next.
  pub stream_decode-encode :
      {frame : List ℕ}
      → type < u16_mod
      → encode type payload ≡ some frame
      → stream_decode callback (frame ++ rest) s ≡ (
          if (callback s type payload).1
          then stream_decode callback rest (callback s type payload).0
          else returned false rest (callback s type payload).0)
  unfolding deliver
  stream_decode-encode h e =
      let (l, shape) = encode_inv type payload e in
      rw (← shape) (elim (Bool-cases (callback s type payload).1) [
        | inl goes_on ↦ rw goes_on (
            stream_decode-again callback _ s rest (callback s type payload).0
              (frame_round h l ∙ (rw goes_on)))
        | inr rejects ↦
            rw rejects (stream_decode-stop callback _ s (frame_round h l ∙ (rw rejects)))
      ])

-- Several frames, one behind the other.
abbrev pub Frame : Type 0
Frame = ℕ × List ℕ

unfoldable pub encode_all : List Frame → Option (List ℕ)
encode_all [] = some []
encode_all ((type, payload) ∷ frames) = do
  frame ← encode type payload
  others ← encode_all frames
  some (frame ++ others)

-- A callback that keeps what it is given.
abbrev pub collect : Callback (List Frame)
collect seen type payload = (seen ++ (type, payload) ∷ [], true)

abbrev pub HasType : Frame → Type 0
HasType f = f.0 < u16_mod

-- The beginning of a frame, which lacks more bytes.
abbrev pub IsPartial : List ℕ → Type 0
IsPartial xs =
    (length xs < 4)
    ⊎ ((4 ≤ length xs) × (is_malformed (u32_at xs 0) ≡ false) × (length xs < u32_at xs 0 + 4))

partial_waits :
    {S : Type 0} (callback : Callback S) (s : S) (xs : List ℕ)
    → IsPartial xs
    → stream_decode callback xs s ≡ returned true xs s
partial_waits callback s xs (inl h) =
    stream_decode-stop callback xs s (stream_round-short callback xs s h)
partial_waits callback s xs (inr (h, good, m)) =
    stream_decode-stop callback xs s (stream_round-partial callback xs s _ refl h good m)

stream_decode-encode_all :
    (frames seen : List Frame) (tail : List ℕ) {wire : List ℕ}
    → All HasType frames
    → encode_all frames ≡ some wire
    → IsPartial tail
    → stream_decode collect (wire ++ tail) seen ≡ returned true tail (seen ++ frames)
unfolding encode_all
stream_decode-encode_all [] seen tail {wire} h e t =
    let none_left : [] ≡ wire = cc in
    rw (← none_left, append-nil) (partial_waits collect seen tail t)
stream_decode-encode_all ((type, payload) ∷ frames) seen tail {wire} h e t =
    let (frame, ef, e') = bind-eq-some (encode type payload) _ e in
    let (others, eo, e'') = bind-eq-some (encode_all frames) _ e' in
    let joined : frame ++ others ≡ wire = cc in
    rw (← joined, append_assoc)
      (stream_decode-encode collect type payload (others ++ tail) seen h.0 ef
        ∙ stream_decode-encode_all frames (seen ++ (type, payload) ∷ []) tail h.1 eo t
        ∙ (rw append_assoc))

module _ (b : Buffer) (v : IsValid b) (empty : contents b ≡ []) where
  -- Frames that were encoded one behind the other, followed by a part of a next one, arrive through
  -- the buffer as they were sent: the decoder returns true, has handed over exactly these frames in
  -- their order, and keeps the unfinished part.
  pub decode-encode_all :
      (frames : List Frame) (tail : List ℕ) {wire : List ℕ}
      → All HasType frames
      → encode_all frames ≡ some wire
      → IsPartial tail
      → (c : Buffer) × (decode (some collect) (append b (wire ++ tail)) [] ≡ returned true c frames)
        × IsValid c
        × (contents c ≡ tail)
  decode-encode_all frames tail {wire} h e t =
      result
        (decode-Refines collect (append b (wire ++ tail)) [] (append-contents v (wire ++ tail)).0)
    where
      stream :
          stream_decode collect (contents (append b (wire ++ tail))) [] ≡ returned true tail frames
      stream =
          rw ((append-contents v (wire ++ tail)).1, empty)
            (stream_decode-encode_all frames [] tail h e t)

      result :
          Refines
            (decode (some collect) (append b (wire ++ tail)) [])
            (stream_decode collect (contents (append b (wire ++ tail))) [])
          → (c : Buffer) × (decode (some collect) (append b (wire ++ tail)) []
              ≡ returned true c frames)
            × IsValid c
            × (contents c ≡ tail)
      result (returns ok c s w o p) =
          let same : returned ok (contents c) s ≡ returned true tail frames = sym p ∙ stream in
          (c, ground arith, w, ground arith)

module _ {S : Type 0} where
  Refines-known :
      {o : Outcome Buffer S} {p : Outcome (List ℕ) S} (ok : Bool) (c : Buffer) (t : S)
      → Refines o p
      → o ≡ returned ok c t
      → IsValid c × (p ≡ returned ok (contents c) t)
  Refines-known ok c t (returns ok' c' t' w e e') known =
      let same : returned ok' c' t' ≡ returned ok c t = sym e ∙ known in
      let same_buffer : c' ≡ c = ground arith in (subst IsValid same_buffer w, ground arith)

  Refines-agree :
      {o o' : Outcome Buffer S} {p p' : Outcome (List ℕ) S}
      → Refines o p
      → Refines o' p'
      → p ≡ p'
      → (ok : Bool) × (d e : Buffer) × (u : S) × (o ≡ returned ok d u)
        × (o' ≡ returned ok e u)
        × (contents d ≡ contents e)
  Refines-agree (returns ok d u w e e') (returns ok' d' u' w' f f') same =
      let both : returned ok (contents d) u ≡ returned ok' (contents d') u' = sym e' ∙ same ∙ f' in
      (ok, d, d', u, e, ground arith, ground arith)

module _ {S : Type 0} (callback : Callback S) (b : Buffer) (v : IsValid b) (ys : List ℕ)
    (s : S) where
  -- Bytes that arrive in two pieces: after a call that asks for more, the bytes are appended and the
  -- decoder is called again. The result, the callback's state and the bytes left waiting are those of
  -- one call on all the bytes.
  pub decode-append :
      (c : Buffer) (t : S)
      → decode (some callback) b s ≡ returned true c t
      → (ok : Bool) × (d e : Buffer) × (u : S) × (decode (some callback) (append c ys) t
          ≡ returned ok d u)
        × (decode (some callback) (append b ys) s ≡ returned ok e u)
        × (contents d ≡ contents e)
  decode-append c t first =
      let (w, before) = Refines-known true c t (decode-Refines callback b s v) first in
      Refines-agree (decode-Refines callback (append c ys) t (append-contents w ys).0)
        (decode-Refines callback (append b ys) s (append-contents v ys).0)
        (rw ((append-contents w ys).1, (append-contents v ys).1)
          (sym (
            stream_decode-append callback ys (contents b) s
            ∙ ap (resume callback ys) before
            ∙ resume_more callback ys (contents c) t)))
