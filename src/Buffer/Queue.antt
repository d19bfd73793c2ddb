-- ===== src/Buffer/Queue.antt =====
-- The buffer of src/buffer.cpp as a first-in first-out queue of bytes.
use l_w.Base.{
  ℕ, zero, suc, ◌+◌, ◌-◌, ◌≤◌, ◌<◌, ◌≡◌, refl, sym, ap, ◌∙◌, inl, inr, true, List, [], ◌∷◌, ◌++◌,
  none, some, append_assoc, arith, ltb, length, take, drop, replicate, length-append, length-take,
  length-drop, length-replicate, take-append, take-append-le, drop-append-le, drop-drop, Bool-cases,
}
use l_w.Buffer.{
  Buffer, new, resize, copy_to, readable_bytes, retrieve, retrieve_all_as_string,
  ensure_writable_bytes, append,
}

-- The positions are in order and inside the vector.
pub record IsValid (b : Buffer) : Type 0 where
  pub ordered : b.read_pos ≤ b.write_pos
  pub inside : b.write_pos ≤ length b.buffer

-- The bytes that wait to be read.
abbrev pub contents : Buffer → List ℕ
contents b = take (b.write_pos - b.read_pos) (drop b.read_pos b.buffer)

module _ {b : Buffer} (v : IsValid b) where
  pub length-contents : length (contents b) ≡ readable_bytes b
  unfolding readable_bytes
  length-contents =
      length-take (b.write_pos - b.read_pos) (drop b.read_pos b.buffer)
        (omega (arith, v, length-drop b.read_pos b.buffer))

pub new-IsValid : (n : ℕ) → IsValid (new n)
unfolding new
new-IsValid n = omega arith

-- The two ways to make room keep the waiting bytes, the positions and enough room.
record Roomy (b c : Buffer) (len : ℕ) : Type 0 where
  valid : IsValid c
  same : contents c ≡ contents b
  room : c.write_pos + len ≤ length c.buffer

length-copy_to :
    (bytes : List ℕ) (pos : ℕ) (xs : List ℕ)
    → pos + length bytes ≤ length xs
    → length (copy_to bytes pos xs) ≡ length xs
length-copy_to bytes pos xs h = omega (
  arith,
  length-append (take pos xs) (bytes ++ drop (pos + length bytes) xs),
  length-append bytes (drop (pos + length bytes) xs),
  length-take pos xs,
  length-drop (pos + length bytes) xs,
)

-- Growing leaves what is before the write position.
contents-resize :
    (r w n : ℕ) (xs : List ℕ)
    → r ≤ w
    → w ≤ length xs
    → take (w - r) (drop r (xs ++ replicate n 0)) ≡ take (w - r) (drop r xs)
contents-resize r w n xs h k =
    ap (take (w - r)) (drop-append-le r xs (replicate n 0) (omega arith))
    ∙ take-append-le (w - r) (drop r xs) (replicate n 0) (omega (arith, length-drop r xs))

grow-Roomy :
    (b : Buffer) (len : ℕ)
    → IsValid b
    → length b.buffer < b.write_pos + len
    → Roomy b (record b { buffer = resize b.buffer (b.write_pos + len) }) len
grow-Roomy b len v h = rw grown (record {
  valid = record { ordered = v.ordered; inside = omega (arith, longer) };
  same = contents-resize b.read_pos b.write_pos _ b.buffer v.ordered v.inside;
  room = omega (arith, longer);
})
  where
    more : ℕ
    more = b.write_pos + len - length b.buffer

    grown : resize b.buffer (b.write_pos + len) ≡ b.buffer ++ replicate more 0
    grown = ground arith

    longer : length (b.buffer ++ replicate more 0) ≡ b.write_pos + len
    longer =
        omega (arith, length-append b.buffer (replicate more 0), length-replicate {A = ℕ} more 0)

-- Moving the waiting bytes to the front.
shift-Roomy :
    (b : Buffer) (len : ℕ)
    → IsValid b
    → len ≤ (length b.buffer - b.write_pos) + b.read_pos
    → Roomy b
        (record b {
          buffer = copy_to (contents b) 0 b.buffer;
          read_pos = 0;
          write_pos = b.write_pos - b.read_pos;
        })
        len
unfolding readable_bytes
shift-Roomy b len v h = record {
  valid = record { ordered = omega arith; inside = omega (arith, kept) };
  same =
      take-append (b.write_pos - b.read_pos - 0) (contents b) _ (omega (arith, length-contents v));
  room = omega (arith, kept);
}
  where
    kept : length (copy_to (contents b) 0 b.buffer) ≡ length b.buffer
    kept = length-copy_to (contents b) 0 b.buffer (omega (arith, v, length-contents v))

ensure_writable_bytes-Roomy :
    (b : Buffer) (len : ℕ) → IsValid b → Roomy b (ensure_writable_bytes b len) len
unfolding ensure_writable_bytes
ensure_writable_bytes-Roomy b len v =
    ground (arith, grow-Roomy b len v, shift-Roomy b len v, already)
  where
    already : len ≤ length b.buffer - b.write_pos → Roomy b b len
    already h = record { valid = v; same = refl; room = omega (arith, v) }

drop-take :
    (r w : ℕ) (xs : List ℕ) → r ≤ w → w ≤ length xs → drop r (take w xs) ≡ take (w - r) (drop r xs)
drop-take zero w xs h k = let e : w - 0 ≡ w = omega arith in rw e
drop-take (suc r) zero xs h k = absurd (omega arith)
drop-take (suc r) (suc w) [] h k = absurd (omega arith)
drop-take (suc r) (suc w) (x ∷ xs) h k =
    let e : suc w - suc r ≡ w - r = omega arith in
    drop-take r w xs (omega arith) (omega arith) ∙ ap (λ n. take n (drop r xs)) (sym e)

drop-all : (n : ℕ) (xs : List ℕ) → length xs ≤ n → drop n xs ≡ []
drop-all zero [] h = refl
drop-all zero (x ∷ xs) h = absurd (omega arith)
drop-all (suc n) [] h = refl
drop-all (suc n) (x ∷ xs) h = drop-all n xs (omega arith)

-- Writing behind the waiting bytes adds to them.
write-contents :
    (bytes : List ℕ) (r w : ℕ) (xs : List ℕ)
    → r ≤ w
    → w + length bytes ≤ length xs
    → take (w + length bytes - r) (drop r (copy_to bytes w xs)) ≡ take (w - r) (drop r xs) ++ bytes
write-contents bytes r w xs h k =
    rw
      (
        drop-append-le r (take w xs) (bytes ++ drop (w + length bytes) xs) (omega (arith, full)),
        drop-take r w xs h (omega arith),
        ← append_assoc,
      )
      (take-append (w + length bytes - r) (take (w - r) (drop r xs) ++ bytes) _ (
        omega (
          arith,
          length-append (take (w - r) (drop r xs)) bytes,
          length-take (w - r) (drop r xs),
          length-drop r xs,
        )))
  where
    full : length (take w xs) ≡ w
    full = length-take w xs (omega arith)

module _ {b : Buffer} (v : IsValid b) (bytes : List ℕ) where
  -- Appending to a valid buffer puts the bytes behind those that wait, and leaves it valid.
  pub append-contents : IsValid (append b bytes) × (contents (append b bytes) ≡ contents b ++ bytes)
  unfolding append
  append-contents = (
    record { ordered = omega (arith, r.valid); inside = omega (arith, r.room, written) },
    write-contents bytes c.read_pos c.write_pos c.buffer r.valid.ordered r.room
        ∙ ap (λ xs. xs ++ bytes) r.same,
  )
    where
      c : Buffer
      c = ensure_writable_bytes b (length bytes)

      r : Roomy b c (length bytes)
      r = ensure_writable_bytes-Roomy b (length bytes) v

      written : length (copy_to bytes c.write_pos c.buffer) ≡ length c.buffer
      written = length-copy_to bytes c.write_pos c.buffer r.room

module _ {b : Buffer} (v : IsValid b) where
  -- Consuming at most what waits drops that many bytes from the front; asking for more fails.
  pub retrieve-contents :
      (len : ℕ)
      → len ≤ length (contents b)
      → (c : Buffer) × (retrieve b len ≡ some c) × IsValid c × (contents c ≡ drop len (contents b))
  unfolding retrieve readable_bytes
  retrieve-contents len h = elim (Bool-cases (ltb len (b.write_pos - b.read_pos))) [
    | inl some_left ↦ (
      record b { read_pos = b.read_pos + len },
      ground (arith, length-contents v),
      ground (arith, length-contents v),
      kept some_left,
    )
    | inr all_taken ↦ (
      record b { read_pos = 0; write_pos = 0 },
      ground (arith, length-contents v),
      omega arith,
      sym (drop-all len (contents b) (ground (arith, length-contents v))),
    )
  ]
    where
      kept :
          ltb len (b.write_pos - b.read_pos) ≡ true
          → contents (record b { read_pos = b.read_pos + len }) ≡ drop len (contents b)
      kept t =
          let e : b.write_pos - (b.read_pos + len) ≡ b.write_pos - b.read_pos - len = omega arith in
          rw (e, ← drop-drop len b.read_pos (b.read_pos + len) b.buffer refl)
            (sym (
              drop-take len (b.write_pos - b.read_pos) (drop b.read_pos b.buffer)
                (ground (arith, length-contents v))
                (omega (arith, v, length-drop b.read_pos b.buffer))))

  pub retrieve_over : (len : ℕ) → length (contents b) < len → retrieve b len ≡ none
  unfolding retrieve readable_bytes
  retrieve_over len h = ground (arith, length-contents v)

  pub retrieve_all_as_string_lem :
      ((retrieve_all_as_string b).0 ≡ contents b)
      × IsValid (retrieve_all_as_string b).1
      × (contents (retrieve_all_as_string b).1 ≡ [])
  unfolding retrieve_all_as_string
  retrieve_all_as_string_lem = (refl, omega arith, refl)
