-- ===== src/Protocol/Wire.antt =====
-- The exact layouts that the request decoders of src/protocol.cpp accept.
use l_w.Base.{
  ℕ, zero, suc, ◌+◌, ◌*◌, ◌/◌, ◌%◌, ◌≤◌, ◌<◌, ◌≡◌, ◌↔◌, refl, sym, ap, subst, ◌∙◌, List, [], ◌∷◌,
  ◌++◌, none, some, arith, length, take, ltb, ◌==◌, if◌then◌else◌,
}
use l_w.Int.{ℤ}
use l_w.Bytes.{
  IsBytes, be16, be32, u16_mod, u32_mod, read_u16, read_u32, read_i32, from_i32, to_i32,
}
use l_w.Bytes.RoundTrip.{IsInt32, to_i32-from_i32, be32-digits, from_i32-lt}
use l_w.Protocol.{
  decode_join_request, decode_chat_request, decode_move_request, decode_resume_request, MoveRequest,
}

take-all : (n : ℕ) (xs : List ℕ) → n ≡ length xs → take n xs ≡ xs
take-all zero [] h = refl
take-all zero (x ∷ xs) h = absurd (omega arith)
take-all (suc n) [] h = refl
take-all (suc n) (x ∷ xs) h = ap (λ t. x ∷ t) (take-all n xs (omega arith))

abbrev pub join_wire : ℕ → List ℕ → List ℕ
join_wire room_id name = be32 room_id ++ be16 (length name) ++ name

abbrev pub text_wire : List ℕ → List ℕ
text_wire text = be16 (length text) ++ text

-- Four bytes, or two, are those of the number that they denote.
be32_of :
    (c0 c1 c2 c3 v : ℕ) (xs : List ℕ)
    → IsBytes (c0 ∷ c1 ∷ c2 ∷ c3 ∷ [])
    → c0 * 0x100_0000 + c1 * 0x1_0000 + c2 * 0x100 + c3 ≡ v
    → c0 ∷ c1 ∷ c2 ∷ c3 ∷ xs ≡ be32 v ++ xs
be32_of c0 c1 c2 c3 v xs b e =
    let e0 : c0 ≡ v / 0x100_0000 % 256 = omega arith in
    let e1 : c1 ≡ v / 0x1_0000 % 256 = omega arith in
    let e2 : c2 ≡ v / 0x100 % 256 = omega arith in let e3 : c3 ≡ v % 256 = omega arith in cc

be16_of :
    (c0 c1 v : ℕ) (xs : List ℕ)
    → IsBytes (c0 ∷ c1 ∷ [])
    → c0 * 0x100 + c1 ≡ v
    → c0 ∷ c1 ∷ xs ≡ be16 v ++ xs
be16_of c0 c1 v xs b e =
    let e0 : c0 ≡ v / 0x100 % 256 = omega arith in let e1 : c1 ≡ v % 256 = omega arith in cc

join-step :
    (c0 c1 c2 c3 c4 c5 : ℕ) (rest : List ℕ)
    → decode_join_request (c0 ∷ c1 ∷ c2 ∷ c3 ∷ c4 ∷ c5 ∷ rest) ≡ (
        if length rest == c4 * 0x100 + c5
        then some (record {
          room_id = c0 * 0x100_0000 + c1 * 0x1_0000 + c2 * 0x100 + c3;
          player_name = take (c4 * 0x100 + c5) rest;
        })
        else none)
unfolding decode_join_request read_u32 read_u16
join-step c0 c1 c2 c3 c4 c5 rest = ground arith

join-accepted :
    (payload : List ℕ) (room_id : ℕ) (name : List ℕ)
    → IsBytes payload
    → decode_join_request payload ≡ some (record { room_id = room_id; player_name = name })
    → (room_id < u32_mod) × (length name < u16_mod) × (payload ≡ join_wire room_id name)
unfolding decode_join_request read_u32 read_u16
join-accepted (c0 ∷ c1 ∷ c2 ∷ c3 ∷ c4 ∷ c5 ∷ rest) room_id name b h = ground (
  arith,
  join-step c0 c1 c2 c3 c4 c5 rest,
  take-all (c4 * 0x100 + c5) rest,
  be16_of c4 c5 (length name) name,
  be32_of c0 c1 c2 c3 room_id (be16 (length name) ++ name),
)
join-accepted payload room_id name b h = ground arith

join-read :
    (room_id : ℕ) (name : List ℕ)
    → room_id < u32_mod
    → length name < u16_mod
    → decode_join_request (join_wire room_id name)
      ≡ some (record { room_id = room_id; player_name = name })
join-read room_id name h k =
    join-step _ _ _ _ _ _ name ∙ ground (arith, take-all (length name) name)

-- A join request is accepted exactly in the layout of a 32-bit room number, the 16-bit length of
-- the name and the name, with nothing behind, and yields that number and that name.
pub decode_join_request_iff :
    (payload : List ℕ) (room_id : ℕ) (name : List ℕ)
    → IsBytes payload
    → (decode_join_request payload ≡ some (record { room_id = room_id; player_name = name }))
      ↔ ((room_id < u32_mod) × (length name < u16_mod) × (payload ≡ join_wire room_id name))
decode_join_request_iff payload room_id name b = (
  join-accepted payload room_id name b,
  λ (h, k, shape). ap decode_join_request shape ∙ join-read room_id name h k,
)

text-step :
    (c0 c1 : ℕ) (rest : List ℕ)
    → decode_chat_request (c0 ∷ c1 ∷ rest) ≡ (
        if length rest == c0 * 0x100 + c1
        then some (record { message = take (c0 * 0x100 + c1) rest })
        else none)
unfolding decode_chat_request read_u16
text-step c0 c1 rest = ground arith

chat-accepted :
    (payload message : List ℕ)
    → IsBytes payload
    → decode_chat_request payload ≡ some (record { message = message })
    → (length message < u16_mod) × (payload ≡ text_wire message)
unfolding decode_chat_request read_u16
chat-accepted (c0 ∷ c1 ∷ rest) message b h = ground (
  arith,
  text-step c0 c1 rest,
  take-all (c0 * 0x100 + c1) rest,
  be16_of c0 c1 (length message) message,
)
chat-accepted payload message b h = ground arith

-- A chat request is accepted exactly in the layout of the 16-bit length of the message and the
-- message, with nothing behind, and yields that message.
pub decode_chat_request_iff :
    (payload message : List ℕ)
    → IsBytes payload
    → (decode_chat_request payload ≡ some (record { message = message }))
      ↔ ((length message < u16_mod) × (payload ≡ text_wire message))
decode_chat_request_iff payload message b = (
  chat-accepted payload message b,
  λ (k, shape).
      ap decode_chat_request shape
      ∙ text-step _ _ message
      ∙ ground (arith, take-all (length message) message),
)

token-step :
    (c0 c1 : ℕ) (rest : List ℕ)
    → decode_resume_request (c0 ∷ c1 ∷ rest) ≡ (
        if c0 * 0x100 + c1 == 0
        then none
        else if ltb 128 (c0 * 0x100 + c1)
        then none
        else if length rest == c0 * 0x100 + c1
        then some (record { token = take (c0 * 0x100 + c1) rest })
        else none)
unfolding decode_resume_request read_u16
token-step c0 c1 rest = ground arith

resume-accepted :
    (payload token : List ℕ)
    → IsBytes payload
    → decode_resume_request payload ≡ some (record { token = token })
    → (1 ≤ length token) × (length token ≤ 128) × (payload ≡ text_wire token)
unfolding decode_resume_request read_u16
resume-accepted (c0 ∷ c1 ∷ rest) token b h = ground (
  arith,
  token-step c0 c1 rest,
  take-all (c0 * 0x100 + c1) rest,
  be16_of c0 c1 (length token) token,
)
resume-accepted payload token b h = ground arith

-- A resume request is accepted exactly in the layout of the 16-bit length of a token of 1 to 128
-- bytes and the token, with nothing behind, and yields that token.
pub decode_resume_request_iff :
    (payload token : List ℕ)
    → IsBytes payload
    → (decode_resume_request payload ≡ some (record { token = token }))
      ↔ ((1 ≤ length token) × (length token ≤ 128) × (payload ≡ text_wire token))
decode_resume_request_iff payload token b = (
  resume-accepted payload token b,
  λ (h, k, shape).
      ap decode_resume_request shape
      ∙ token-step _ _ token
      ∙ ground (arith, take-all (length token) token),
)

move-step :
    (c0 c1 c2 c3 c4 c5 c6 c7 : ℕ)
    → decode_move_request (c0 ∷ c1 ∷ c2 ∷ c3 ∷ c4 ∷ c5 ∷ c6 ∷ c7 ∷ [])
      ≡ some (record {
        dx = to_i32 (c0 * 0x100_0000 + c1 * 0x1_0000 + c2 * 0x100 + c3);
        dy = to_i32 (c4 * 0x100_0000 + c5 * 0x1_0000 + c6 * 0x100 + c7);
      })
unfolding decode_move_request read_i32 read_u32
move-step c0 c1 c2 c3 c4 c5 c6 c7 = ground arith

-- A pattern of 32 bits is the one of its signed value, which is in range.
from_i32-to_i32 : (n : ℕ) → n < u32_mod → (from_i32 (to_i32 n) ≡ n) × IsInt32 (to_i32 n)
unfolding IsInt32
from_i32-to_i32 n h = ground arith

move-fields : {r s : MoveRequest} → some r ≡ some s → (r.dx ≡ s.dx) × (r.dy ≡ s.dy)
move-fields {r} {s} e =
    let same : r ≡ s = ground arith in (ap (λ t. t.dx) same, ap (λ t. t.dy) same)

move-read :
    (p q : ℕ)
    → p < u32_mod
    → q < u32_mod
    → decode_move_request (be32 p ++ be32 q) ≡ some (record { dx = to_i32 p; dy = to_i32 q })
move-read p q h k = move-step _ _ _ _ _ _ _ _ ∙ (rw (be32-digits p h, be32-digits q k) refl)

move-accepted :
    (payload : List ℕ) (dx dy : ℤ)
    → IsBytes payload
    → decode_move_request payload ≡ some (record { dx = dx; dy = dy })
    → IsInt32 dx × IsInt32 dy × (payload ≡ be32 (from_i32 dx) ++ be32 (from_i32 dy))
unfolding decode_move_request
move-accepted (c0 ∷ c1 ∷ c2 ∷ c3 ∷ c4 ∷ c5 ∷ c6 ∷ c7 ∷ []) dx dy b h =
    let raw_x : ℕ = c0 * 0x100_0000 + c1 * 0x1_0000 + c2 * 0x100 + c3 in
    let raw_y : ℕ = c4 * 0x100_0000 + c5 * 0x1_0000 + c6 * 0x100 + c7 in
    let (ex, in_x) = from_i32-to_i32 raw_x (omega arith) in
    let (ey, in_y) = from_i32-to_i32 raw_y (omega arith) in
    let same : some (record { dx = to_i32 raw_x; dy = to_i32 raw_y })
        ≡ some (record { dx = dx; dy = dy }) =
      sym (move-step c0 c1 c2 c3 c4 c5 c6 c7) ∙ h in
    let (same_x, same_y) = move-fields same in
    (
      subst IsInt32 same_x in_x,
      subst IsInt32 same_y in_y,
      be32_of c0 c1 c2 c3 (from_i32 dx) _ (omega arith) (sym ex ∙ ap from_i32 same_x)
          ∙ ap (λ t. be32 (from_i32 dx) ++ t)
              (be32_of c4 c5 c6 c7 (from_i32 dy) [] (omega arith) (sym ey ∙ ap from_i32 same_y)),
    )
move-accepted payload dx dy b h = ground arith

-- A move request is accepted exactly as the eight bytes of two signed 32-bit numbers, each in two's
-- complement and in network byte order, and yields these numbers.
pub decode_move_request_iff :
    (payload : List ℕ) (dx dy : ℤ)
    → IsBytes payload
    → (decode_move_request payload ≡ some (record { dx = dx; dy = dy }))
      ↔ (IsInt32 dx × IsInt32 dy × (payload ≡ be32 (from_i32 dx) ++ be32 (from_i32 dy)))
decode_move_request_iff payload dx dy b = (
  move-accepted payload dx dy b,
  λ (h, k, shape).
      ap decode_move_request shape
      ∙ move-read (from_i32 dx) (from_i32 dy) (from_i32-lt dx) (from_i32-lt dy)
      ∙ (rw (to_i32-from_i32 dx h, to_i32-from_i32 dy k) refl),
)
