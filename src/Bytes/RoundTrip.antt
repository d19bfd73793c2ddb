-- ===== src/Bytes/RoundTrip.antt =====
-- Reading back what the append helpers of src/protocol.cpp wrote.
use l_w.Base.{
  ℕ, zero, suc, ◌+◌, ◌/◌, ◌%◌, ◌<◌, ◌≡◌, ap, append_assoc, List, [], ◌∷◌, ◌++◌, some, arith, length,
  get_or, length-append,
}
use l_w.Int.{ℤ, pos, negsuc, ◌≤ℤ◌}
use l_w.Bytes.{
  u16_mod, u32_mod, u64_mod, be16, be32, u16_at, u32_at, to_i32, from_i32, read_u16, read_u32,
  read_i32, read_u64, append_u16, append_u32, append_u64, append_i32,
}

unfoldable pub IsInt32 : ℤ → Type 0
IsInt32 v = (negsuc 0x7fff_ffff ≤ℤ v) × (v ≤ℤ pos 0x7fff_ffff)

-- The bytes after a prefix are read at its length.
get_or-append :
    (xs ys : List ℕ) (i k : ℕ) → k ≡ length xs + i → get_or (xs ++ ys) k 0 ≡ get_or ys i 0
get_or-append [] ys i k h = let e : k ≡ i = omega arith in ap (λ j. get_or ys j 0) e
get_or-append (x ∷ xs) ys i zero h = absurd (omega arith)
get_or-append (x ∷ xs) ys i (suc k) h = get_or-append xs ys i k (omega arith)

pub to_i32-from_i32 : (v : ℤ) → IsInt32 v → to_i32 (from_i32 v) ≡ v
unfolding IsInt32
to_i32-from_i32 v h = ground arith

be16-digits : (v : ℕ) → v < u16_mod → u16_at (be16 v) 0 ≡ v
be16-digits v h = omega arith

pub be32-digits : (v : ℕ) → v < u32_mod → u32_at (be32 v) 0 ≡ v
be32-digits v h = omega arith

pub from_i32-lt : (v : ℤ) → from_i32 v < u32_mod
from_i32-lt v = ground arith

module _ (xs ys : List ℕ) where
  pub u16_at-append : (v : ℕ) → v < u16_mod → u16_at (xs ++ be16 v ++ ys) (length xs) ≡ v
  u16_at-append v h = rw append_assoc (
      omega (
        arith,
        get_or-append xs (be16 v ++ ys) 0 (length xs) (omega arith),
        get_or-append xs (be16 v ++ ys) 1 (suc (length xs)) (omega arith),
        be16-digits v h,
      ))

  pub u32_at-append : (v : ℕ) → v < u32_mod → u32_at (xs ++ be32 v ++ ys) (length xs) ≡ v
  u32_at-append v h = rw append_assoc (
      omega (
        arith,
        get_or-append xs (be32 v ++ ys) 0 (length xs) (omega arith),
        get_or-append xs (be32 v ++ ys) 1 (suc (length xs)) (omega arith),
        get_or-append xs (be32 v ++ ys) 2 (suc (suc (length xs))) (omega arith),
        get_or-append xs (be32 v ++ ys) 3 (suc (suc (suc (length xs)))) (omega arith),
        be32-digits v h,
      ))

  -- A 16-bit value is read back at the place where it was appended, whatever follows.
  pub read_u16-append_u16 :
      (v : ℕ) → v < u16_mod → read_u16 (append_u16 xs v ++ ys) (length xs) ≡ some v
  unfolding read_u16 append_u16
  read_u16-append_u16 v h =
      ground (arith, u16_at-append v h, length-append (xs ++ be16 v) ys, length-append xs (be16 v))

  pub read_u32-append_u32 :
      (v : ℕ) → v < u32_mod → read_u32 (append_u32 xs v ++ ys) (length xs) ≡ some v
  unfolding read_u32 append_u32
  read_u32-append_u32 v h =
      ground (arith, u32_at-append v h, length-append (xs ++ be32 v) ys, length-append xs (be32 v))

  -- A signed 32-bit value is read back at the place where it was appended, whatever follows.
  pub read_i32-append_i32 :
      (v : ℤ) → IsInt32 v → read_i32 (append_i32 xs v ++ ys) (length xs) ≡ some v
  unfolding read_i32 append_i32 append_u32
  read_i32-append_i32 v h =
      rw (read_u32-append_u32 (from_i32 v) (from_i32-lt v)) (ap some (to_i32-from_i32 v h))

module _ (xs ys : List ℕ) (v : ℕ) (h : v < u64_mod) where
  high_read : read_u32 (append_u64 xs v ++ ys) (length xs) ≡ some (v / u32_mod % u32_mod)
  unfolding append_u64 append_u32
  high_read = rw append_assoc (read_u32-append_u32 xs (be32 (v % u32_mod) ++ ys) _ (omega arith))

  low_read : read_u32 (append_u64 xs v ++ ys) (length xs + 4) ≡ some (v % u32_mod)
  unfolding append_u64 append_u32
  low_read =
      rw (← length-append xs (be32 (v / u32_mod % u32_mod)))
        (read_u32-append_u32 (xs ++ be32 (v / u32_mod % u32_mod)) ys (v % u32_mod) (omega arith))

  length-append_u64 : length (append_u64 xs v ++ ys) ≡ length xs + 8 + length ys
  unfolding append_u64 append_u32
  length-append_u64 = omega (
    arith,
    length-append ((xs ++ be32 (v / u32_mod % u32_mod)) ++ be32 (v % u32_mod)) ys,
    length-append (xs ++ be32 (v / u32_mod % u32_mod)) (be32 (v % u32_mod)),
    length-append xs (be32 (v / u32_mod % u32_mod)),
  )

  -- A 64-bit value is read back at the place where it was appended, whatever follows.
  pub read_u64-append_u64 : read_u64 (append_u64 xs v ++ ys) (length xs) ≡ some v
  unfolding read_u64
  read_u64-append_u64 = ground (arith, high_read, low_read, length-append_u64)
