-- ===== src/CheckpointCodec/Reading.antt =====
-- src/checkpoint_codec.cpp: the class `Reader`, as the bytes between its position and its end; a read
-- that succeeds gives the value and the bytes behind it. A loop over a count is recursion on it.
use l_w.Base.{
  ℕ, zero, suc, ◌+◌, ◌-◌, ◌*◌, ◌/◌, Bool, List, [], ◌∷◌, Option, none, some, ltb, leb, ◌==◌,
  if◌then◌else◌, length, take, drop, get_or,
}
use l_w.Int.{ℤ}
use l_w.Bytes.{to_i32}
use l_w.StateMachine.{States, waiting, running}
use l_w.StateMachine
use l_w.Game.{PlayerGameState}
use l_w.Checkpoint.{CheckpointMember, RoomCheckpoint, SessionCheckpoint}
use l_w.CheckpointCodec.Outcomes.{Answer, answer, ◌>>=◌, ◌>>◌, ensure, need, malformed_data}

abbrev pub min_room_record_size : ℕ
min_room_record_size = 37

abbrev pub min_member_record_size : ℕ
min_member_record_size = 12

abbrev pub game_state_record_size : ℕ
game_state_record_size = 20

abbrev pub min_session_record_size : ℕ
min_session_record_size = 16

abbrev pub Read : Type 0 → Type 0
Read A = List ℕ → Option (A × List ℕ)

abbrev pub finished : List ℕ → Bool
finished unread = length unread == 0

-- The loop of `read_u32` and `read_u64`: shift by a byte and add the next.
unfoldable pub shift_in : ℕ → ℕ → List ℕ → ℕ × List ℕ
shift_in zero v unread = (v, unread)
shift_in (suc n) v unread = shift_in n (v * 256 + get_or unread 0 0) (drop 1 unread)

unfoldable pub read_u8 : Read ℕ
read_u8 unread = if ltb (length unread) 1 then none else some (get_or unread 0 0, drop 1 unread)

unfoldable pub read_u32 : Read ℕ
unfolding shift_in
read_u32 unread = if ltb (length unread) 4 then none else some (shift_in 4 0 unread)

unfoldable pub read_u64 : Read ℕ
unfolding shift_in
read_u64 unread = if ltb (length unread) 8 then none else some (shift_in 8 0 unread)

unfoldable pub read_string : ℕ → Read (List ℕ)
read_string size unread =
    if ltb (length unread) size then none else some (take size unread, drop size unread)

abbrev pub byte_to_room_state : ℕ → Option States
byte_to_room_state v =
    if v == 0
    then some waiting
    else if v == 1
    then some running
    else if v == 2
    then some StateMachine.finished
    else none

abbrev pub bits_to_int32 : ℕ → ℤ
bits_to_int32 = to_i32

unfoldable pub read_many {ℓ} :
    {A : Type ℓ} → (List ℕ → Answer (A × List ℕ)) → ℕ → List ℕ → Answer (List A × List ℕ)
read_many read zero unread = answer ([], unread)
read_many read (suc n) unread = do
  (a, r0) ← read unread
  (rest, r1) ← read_many read n r0
  answer (a ∷ rest, r1)

unfoldable pub read_member : List ℕ → Answer (CheckpointMember × List ℕ)
read_member unread = do
  (player_id, r0) ← need (read_u64 unread)
  (name_size, r1) ← need (read_u32 r0)
  (player_name, r2) ← need (read_string name_size r1)
  answer (record { player_id = player_id; player_name = player_name }, r2)

unfoldable pub read_player : List ℕ → Answer (PlayerGameState × List ℕ)
read_player unread = do
  (player_id, r0) ← need (read_u64 unread)
  (x_bits, r1) ← need (read_u32 r0)
  (y_bits, r2) ← need (read_u32 r1)
  (hp_bits, r3) ← need (read_u32 r2)
  answer (
    record {
      player_id = player_id;
      x = bits_to_int32 x_bits;
      y = bits_to_int32 y_bits;
      hp = bits_to_int32 hp_bits;
    },
    r3,
  )

unfoldable pub read_room : List ℕ → Answer (RoomCheckpoint × List ℕ)
read_room unread = do
  (room_id, r0) ← need (read_u32 unread)
  (capacity, r1) ← need (read_u64 r0)
  (next_player_id, r2) ← need (read_u64 r1)
  (state_value, r3) ← need (read_u8 r2)
  (tick_id, r4) ← need (read_u64 r3)
  (member_count, r5) ← need (read_u32 r4)
  state ← need (byte_to_room_state state_value)
  ensure (leb 4 (length r5)) malformed_data
  ensure (leb member_count ((length r5 - 4) / min_member_record_size)) malformed_data
  (members, r6) ← read_many read_member member_count r5
  (game_state_count, r7) ← need (read_u32 r6)
  ensure (leb game_state_count (length r7 / game_state_record_size)) malformed_data
  (game_states, r8) ← read_many read_player game_state_count r7
  answer (
    record {
      room_id = room_id;
      capacity = capacity;
      next_player_id = next_player_id;
      state = state;
      tick_id = tick_id;
      members = members;
      game_states = game_states;
    },
    r8,
  )

unfoldable pub read_session : List ℕ → Answer (SessionCheckpoint × List ℕ)
read_session unread = do
  (token_length, r0) ← need (read_u32 unread)
  (token, r1) ← need (read_string token_length r0)
  (room_id, r2) ← need (read_u32 r1)
  (player_id, r3) ← need (read_u64 r2)
  answer (record { token = token; room_id = room_id; player_id = player_id }, r3)
