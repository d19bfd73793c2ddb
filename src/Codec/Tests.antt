-- ===== src/Codec/Tests.antt =====
-- The theorems about src/codec.cpp at concrete streams.
use l_w.Base.{ℕ, ◌≡◌, refl, inl, Bool, true, List, [], ◌∷◌, ◌++◌, some, arith}
use l_w.Buffer.{Buffer, new, append, readable_bytes, ensure_writable_bytes, writeable_bytes}
use l_w.Buffer.Queue.{IsValid, contents, new-IsValid, append-contents}
use l_w.Codec.{returned, decode, decode_round, rounds, encode}
use l_w.Codec.Stream.{stream_decode}
use l_w.Codec.Refine.{Refines, decode-Refines}
use l_w.Codec.RoundTrip.{Frame, encode_all, collect, decode-encode_all, decode-append}

abbrev fresh : Buffer
fresh = new 8

fresh_empty : contents fresh ≡ []
unfolding new
fresh_empty = refl

abbrev sent : List Frame
sent = (1, 7 ∷ []) ∷ (3, []) ∷ []

abbrev sent_bytes : List ℕ
sent_bytes = 0 ∷ 0 ∷ 0 ∷ 3 ∷ 0 ∷ 1 ∷ 7 ∷ 0 ∷ 0 ∷ 0 ∷ 2 ∷ 0 ∷ 3 ∷ []

abbrev half : List ℕ
half = 0 ∷ 0 ∷ []

decode-encode_all_example :
    (c : Buffer) × (decode (some collect) (append fresh (sent_bytes ++ half)) []
      ≡ returned true c sent)
    × IsValid c
    × (contents c ≡ half)
unfolding encode_all encode
decode-encode_all_example =
    decode-encode_all fresh (new-IsValid 8) fresh_empty sent half (omega arith) refl
      (inl (omega arith))

decode-Refines_example :
    Refines (decode (some collect) fresh []) (stream_decode collect (contents fresh) [])
decode-Refines_example = decode-Refines collect fresh [] (new-IsValid 8)

decode-append_example :
    (ok : Bool) × (d e : Buffer) × (u : List Frame) × (decode
        (some collect)
        (append (append fresh half) (0 ∷ 2 ∷ 0 ∷ 3 ∷ []))
        []
      ≡ returned ok d u)
    × (decode (some collect) (append (append fresh half) (0 ∷ 2 ∷ 0 ∷ 3 ∷ [])) [] ≡ returned ok e u)
    × (contents d ≡ contents e)
unfolding new decode decode_round rounds readable_bytes append ensure_writable_bytes writeable_bytes
decode-append_example =
    decode-append collect (append fresh half) (append-contents (new-IsValid 8) half).0
      (0 ∷ 2 ∷ 0 ∷ 3 ∷ []) [] (append fresh half) [] refl
