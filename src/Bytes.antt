-- ===== src/Bytes.antt =====
-- The byte helpers at the top of src/protocol.cpp: fixed-width integers in network byte order.
-- A `std::string` is the list of its bytes, each a number below 256. A reader that fails leaves
-- its output argument alone and returns false, here `none`.
pub mod RoundTrip
use l_w.Base.{
  ℕ, suc, ◌+◌, ◌-◌, ◌*◌, ◌/◌, ◌%◌, ◌<◌, Bool, ◌||◌, List, [], ◌∷◌, ◌++◌, Option, none, some, ltb,
  leb, if◌then◌else◌, length, get_or, All, ◌>>=◌,
}
use l_w.Int.{ℤ, pos, negsuc}

abbrev pub IsBytes : List ℕ → Type 0
IsBytes = All (λ b. b < 256)

abbrev pub u16_mod : ℕ
u16_mod = 0x1_0000

abbrev pub u32_mod : ℕ
u32_mod = 0x1_0000_0000

abbrev pub u64_mod : ℕ
u64_mod = 0x1_0000_0000_0000_0000

-- `htons` and `htonl` followed by a copy of the value's bytes.
abbrev pub be16 : ℕ → List ℕ
be16 v = (v / 0x100 % 256) ∷ (v % 256) ∷ []

abbrev pub be32 : ℕ → List ℕ
be32 v = (v / 0x100_0000 % 256) ∷ (v / 0x1_0000 % 256) ∷ (v / 0x100 % 256) ∷ (v % 256) ∷ []

-- A copy out of a byte sequence followed by `ntohs` or `ntohl`.
abbrev pub u16_at : List ℕ → ℕ → ℕ
u16_at xs i = get_or xs i 0 * 0x100 + get_or xs (suc i) 0

abbrev pub u32_at : List ℕ → ℕ → ℕ
u32_at xs i =
    get_or xs i 0 * 0x100_0000
    + get_or xs (suc i) 0 * 0x1_0000
    + get_or xs (suc (suc i)) 0 * 0x100
    + get_or xs (suc (suc (suc i))) 0

unfoldable pub read_u16 : List ℕ → ℕ → Option ℕ
read_u16 xs offset =
    if ltb (length xs) offset || ltb (length xs - offset) 2 then none else some (u16_at xs offset)

unfoldable pub read_u32 : List ℕ → ℕ → Option ℕ
read_u32 xs offset =
    if ltb (length xs) offset || ltb (length xs - offset) 4 then none else some (u32_at xs offset)

-- The signed value of a 32-bit pattern, computed as the source does.
abbrev pub to_i32 : ℕ → ℤ
to_i32 raw = if leb raw 0x7fff_ffff then pos raw else negsuc (0xffff_ffff - raw)

unfoldable pub read_i32 : List ℕ → ℕ → Option ℤ
read_i32 xs offset = do raw ← read_u32 xs offset; some (to_i32 raw)

unfoldable pub read_u64 : List ℕ → ℕ → Option ℕ
read_u64 xs offset =
    if ltb (length xs) offset || ltb (length xs - offset) 8
    then none
    else (do high ← read_u32 xs offset; low ← read_u32 xs (offset + 4); some (high * u32_mod + low))

unfoldable pub append_u16 : List ℕ → ℕ → List ℕ
append_u16 out v = out ++ be16 v

unfoldable pub append_u32 : List ℕ → ℕ → List ℕ
append_u32 out v = out ++ be32 v

unfoldable pub append_u64 : List ℕ → ℕ → List ℕ
append_u64 out v = append_u32 (append_u32 out (v / u32_mod % u32_mod)) (v % u32_mod)

-- `static_cast<std::uint32_t>` of a signed value.
abbrev pub from_i32 : ℤ → ℕ
from_i32 (pos n) = n % u32_mod
from_i32 (negsuc n) = u32_mod - 1 - n % u32_mod

unfoldable pub append_i32 : List ℕ → ℤ → List ℕ
append_i32 out v = out ++ be32 (from_i32 v)
