-- ===== src/CheckpointCodec/Writing.antt =====
-- src/checkpoint_codec.cpp: the appending of fields below a size limit (`none`: false is returned),
-- the checksum, and the tests of a checkpoint's keys.
use Prim.Native.Nat.{bit_xor}
use l_w.Base.{
  ℕ, ◌-◌, ◌*◌, ◌/◌, ◌%◌, Bool, true, false, ◌&&◌, ◌||◌, not, List, [], ◌∷◌, ◌++◌, Option, none,
  some, leb, ◌==◌, if◌then◌else◌, length,
}
use l_w.Int.{ℤ}
use l_w.Bytes.{be32, from_i32, u64_mod}
use l_w.StateMachine.{States, waiting, running, finished}
use l_w.Game.{PlayerGameState}
use l_w.SessionManager.{all_lower_hex, same_text, token_size}
use l_w.Checkpoint.{
  CheckpointMember, RoomCheckpoint, SessionCheckpoint, ServerCheckpoint, Identity, occurs,
}
use l_w.CheckpointCodec.Outcomes.{Answer, answer, ◌>>=◌, ◌>>◌, ensure, large, too_large}

abbrev pub checkpoint_header_size : ℕ
checkpoint_header_size = 40

abbrev pub max_checkpoint_file_size : ℕ
max_checkpoint_file_size = 0x400_0000

abbrev pub max_payload_size : ℕ
max_payload_size = max_checkpoint_file_size - checkpoint_header_size

abbrev pub fnv_offset_basis : ℕ
fnv_offset_basis = 14695981039346656037

abbrev pub fnv_prime : ℕ
fnv_prime = 1099511628211

unfoldable pub can_append : List ℕ → ℕ → ℕ → Bool
can_append out size limit = leb size limit && leb (length out) (limit - size)

unfoldable pub append_bytes : List ℕ → List ℕ → ℕ → Option (List ℕ)
append_bytes out source limit =
    if can_append out (length source) limit then some (out ++ source) else none

unfoldable pub append_u8 : List ℕ → ℕ → ℕ → Option (List ℕ)
append_u8 out v limit = if can_append out 1 limit then some (out ++ v ∷ []) else none

-- The loop over the shifts of `append_u32` and `append_u64`, with the bytes that they select.
unfoldable pub append_each : List ℕ → List ℕ → ℕ → Option (List ℕ)
append_each out [] limit = some out
append_each out (b ∷ bs) limit = elim (append_u8 out b limit) [
  | none ↦ none
  | some more ↦ append_each more bs limit
]

abbrev pub be64 : ℕ → List ℕ
be64 v =
    (v / 0x100_0000_0000_0000 % 256)
    ∷ (v / 0x1_0000_0000_0000 % 256)
    ∷ (v / 0x100_0000_0000 % 256)
    ∷ (v / 0x1_0000_0000 % 256)
    ∷ be32 v

unfoldable pub append_u32 : List ℕ → ℕ → ℕ → Option (List ℕ)
append_u32 out v limit = append_each out (be32 v) limit

unfoldable pub append_u64 : List ℕ → ℕ → ℕ → Option (List ℕ)
append_u64 out v limit = append_each out (be64 v) limit

abbrev pub fits_u32 : ℕ → Bool
fits_u32 v = leb v 0xffff_ffff

abbrev pub room_state_to_byte : States → ℕ
room_state_to_byte waiting = 0
room_state_to_byte running = 1
room_state_to_byte finished = 2

-- `int32_to_bits` copies the two's complement pattern.
abbrev pub int32_to_bits : ℤ → ℕ
int32_to_bits = from_i32

-- FNV-1a, from a hash on.
unfoldable pub hash_from : ℕ → List ℕ → ℕ
hash_from hash [] = hash
hash_from hash (byte ∷ bytes) = hash_from (bit_xor hash byte * fnv_prime % u64_mod) bytes

unfoldable pub checksum : List ℕ → ℕ
checksum bytes = hash_from fnv_offset_basis bytes

unfoldable pub append_member : List ℕ → CheckpointMember → Answer (List ℕ)
append_member out m = do
  ensure (fits_u32 (length m.player_name)) too_large
  r0 ← large (append_u64 out m.player_id max_payload_size)
  r1 ← large (append_u32 r0 (length m.player_name) max_payload_size)
  large (append_bytes r1 m.player_name max_payload_size)

unfoldable pub append_players : List ℕ → List PlayerGameState → Answer (List ℕ)
append_players out [] = answer out
append_players out (p ∷ ps) = do
  r0 ← large (append_u64 out p.player_id max_payload_size)
  r1 ← large (append_u32 r0 (int32_to_bits p.x) max_payload_size)
  r2 ← large (append_u32 r1 (int32_to_bits p.y) max_payload_size)
  r3 ← large (append_u32 r2 (int32_to_bits p.hp) max_payload_size)
  append_players r3 ps

unfoldable pub append_stored : List ℕ → List CheckpointMember → Answer (List ℕ)
append_stored out [] = answer out
append_stored out (m ∷ ms) = do r ← append_member out m; append_stored r ms

unfoldable pub append_room : List ℕ → RoomCheckpoint → Answer (List ℕ)
append_room out room = do
  ensure (fits_u32 (length room.members)) too_large
  ensure (fits_u32 (length room.game_states)) too_large
  r0 ← large (append_u32 out room.room_id max_payload_size)
  r1 ← large (append_u64 r0 room.capacity max_payload_size)
  r2 ← large (append_u64 r1 room.next_player_id max_payload_size)
  r3 ← large (append_u8 r2 (room_state_to_byte room.state) max_payload_size)
  r4 ← large (append_u64 r3 room.tick_id max_payload_size)
  r5 ← large (append_u32 r4 (length room.members) max_payload_size)
  r6 ← append_stored r5 room.members
  r7 ← large (append_u32 r6 (length room.game_states) max_payload_size)
  append_players r7 room.game_states

unfoldable pub append_rooms : List ℕ → List RoomCheckpoint → Answer (List ℕ)
append_rooms out [] = answer out
append_rooms out (room ∷ rooms) = do r ← append_room out room; append_rooms r rooms

unfoldable pub append_sessions : List ℕ → List SessionCheckpoint → Answer (List ℕ)
append_sessions out [] = answer out
append_sessions out (s ∷ ss) = do
  ensure (fits_u32 (length s.token)) too_large
  r0 ← large (append_u32 out (length s.token) max_payload_size)
  r1 ← large (append_bytes r0 s.token max_payload_size)
  r2 ← large (append_u32 r1 s.room_id max_payload_size)
  r3 ← large (append_u64 r2 s.player_id max_payload_size)
  append_sessions r3 ss

abbrev pub valid_session_token : List ℕ → Bool
valid_session_token token = length token == token_size && all_lower_hex token

-- The sets of numbers and of tokens that have been inserted.
abbrev pub inserted : ℕ → List ℕ → Bool
inserted k [] = false
inserted k (j ∷ js) = j == k || inserted k js

abbrev pub inserted_token : List ℕ → List (List ℕ) → Bool
inserted_token t [] = false
inserted_token t (u ∷ us) = same_text u t || inserted_token t us

unfoldable pub valid_rooms : List RoomCheckpoint → List ℕ → Bool
valid_rooms [] room_ids = true
valid_rooms (room ∷ rooms) room_ids =
    not (inserted room.room_id room_ids) && valid_rooms rooms (room.room_id ∷ room_ids)

unfoldable pub valid_sessions : List SessionCheckpoint → List (List ℕ) → List Identity → Bool
valid_sessions [] tokens identities = true
valid_sessions (s ∷ ss) tokens identities =
    valid_session_token s.token
    && not (inserted_token s.token tokens)
    && not (occurs (s.room_id, s.player_id) identities)
    && valid_sessions ss (s.token ∷ tokens) ((s.room_id, s.player_id) ∷ identities)

unfoldable pub valid_checkpoint_keys : ServerCheckpoint → Bool
valid_checkpoint_keys c = valid_rooms c.rooms [] && valid_sessions c.sessions [] []
