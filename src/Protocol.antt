-- ===== src/Protocol.antt =====
-- src/protocol.cpp and include/protocol.h: the payloads of the messages. A decoder that returns
-- false is `none`; so is an encoder that returns false, which leaves the payload empty.
pub mod Wire
pub mod Frames
mod Tests
use l_w.Base.{
  ℕ, ◌+◌, ◌-◌, ◌*◌, Bool, true, false, ◌&&◌, ◌||◌, not, List, [], ◌∷◌, ◌++◌, Option, none, some,
  ltb, ◌==◌, if◌then◌else◌, length, take, drop, ◌>>=◌, guard, ◌>>◌,
}
use l_w.Int.{ℤ}
use l_w.Bytes.{
  read_u16, read_u32, read_i32, read_u64, append_u16, append_u32, append_u64, append_i32,
}
use l_w.Game.{PlayerGameState}
use l_w.StateMachine.{States, waiting, running, finished}

pub data MessageType : Type 0 where
  join leave chat move attack heartbeat resume : MessageType
  join_ok player_joined leave_ok player_left chat_event state_snapshot error : MessageType
  heartbeat_ack resume_ok : MessageType

pub data ErrorCode : Type 0 where
  room_not_found room_full already_in_room not_in_room invalid_player_name : ErrorCode
  invalid_message player_id_exhausted room_not_joinable room_not_running : ErrorCode
  already_submitted invalid_token session_online session_expired resume_failed : ErrorCode

-- The values that the enumerations give to their names.
abbrev pub message_code : MessageType → ℕ
message_code join = 1
message_code leave = 2
message_code chat = 3
message_code move = 4
message_code attack = 5
message_code heartbeat = 6
message_code resume = 7
message_code join_ok = 101
message_code player_joined = 102
message_code leave_ok = 103
message_code player_left = 104
message_code chat_event = 105
message_code state_snapshot = 106
message_code error = 107
message_code heartbeat_ack = 108
message_code resume_ok = 109

abbrev pub error_number : ErrorCode → ℕ
error_number room_not_found = 1
error_number room_full = 2
error_number already_in_room = 3
error_number not_in_room = 4
error_number invalid_player_name = 5
error_number invalid_message = 6
error_number player_id_exhausted = 7
error_number room_not_joinable = 8
error_number room_not_running = 9
error_number already_submitted = 10
error_number invalid_token = 11
error_number session_online = 12
error_number session_expired = 13
error_number resume_failed = 14

abbrev pub state_number : States → ℕ
state_number waiting = 0
state_number running = 1
state_number finished = 2

pub record JoinRequest : Type 0 where
  pub room_id : ℕ
  pub player_name : List ℕ

pub record ChatRequest : Type 0 where
  pub message : List ℕ

pub record MoveRequest : Type 0 where
  pub dx : ℤ
  pub dy : ℤ

pub record AttackRequest : Type 0 where
  pub target_player_id : ℕ

pub record HeartbeatRequest : Type 0 where
  pub seq : ℕ

pub record ResumeRequest : Type 0 where
  pub token : List ℕ

pub record MemberInfo : Type 0 where
  pub player_id : ℕ
  pub player_name : List ℕ

abbrev pub max_player_name_size : ℕ
max_player_name_size = 32

abbrev pub max_chat_message_size : ℕ
max_chat_message_size = 1024

abbrev pub max_token_size : ℕ
max_token_size = 128

-- `payload.substr(offset, size)`.
abbrev pub substr : List ℕ → ℕ → ℕ → List ℕ
substr xs offset size = take size (drop offset xs)

-- The length behind a field that has been read, so that the difference does not wrap.
abbrev pub left_from : List ℕ → ℕ → ℕ
left_from payload offset = length payload - offset

unfoldable pub decode_join_request : List ℕ → Option JoinRequest
decode_join_request payload = do
  room_id ← read_u32 payload 0
  name_size ← read_u16 payload 4
  guard (left_from payload 6 == name_size)
  some (record { room_id = room_id; player_name = substr payload 6 name_size })

unfoldable pub decode_leave_request : List ℕ → Bool
decode_leave_request payload = length payload == 0

unfoldable pub decode_chat_request : List ℕ → Option ChatRequest
decode_chat_request payload = do
  message_size ← read_u16 payload 0
  guard (left_from payload 2 == message_size)
  some (record { message = substr payload 2 message_size })

unfoldable pub decode_move_request : List ℕ → Option MoveRequest
decode_move_request payload = do
  guard (length payload == 8)
  dx ← read_i32 payload 0
  dy ← read_i32 payload 4
  some (record { dx = dx; dy = dy })

unfoldable pub decode_attack_request : List ℕ → Option AttackRequest
decode_attack_request payload = do
  guard (length payload == 8)
  target_player_id ← read_u64 payload 0
  some (record { target_player_id = target_player_id })

unfoldable pub decode_heartbeat_request : List ℕ → Option HeartbeatRequest
decode_heartbeat_request payload = do
  guard (length payload == 8)
  seq ← read_u64 payload 0
  some (record { seq = seq })

unfoldable pub decode_resume_request : List ℕ → Option ResumeRequest
decode_resume_request payload = do
  token_size ← read_u16 payload 0
  guard (not (token_size == 0) && not (ltb max_token_size token_size))
  guard (left_from payload 2 == token_size)
  some (record { token = substr payload 2 token_size })

-- A text behind its length.
abbrev pub append_text : List ℕ → List ℕ → List ℕ
append_text out text = append_u16 out (length text) ++ text

unfoldable pub name_fits : List ℕ → Bool
name_fits name = not (length name == 0 || ltb max_player_name_size (length name))

unfoldable pub names_fit : List MemberInfo → Bool
names_fit [] = true
names_fit (m ∷ ms) = name_fits m.player_name && names_fit ms

unfoldable pub ids_fit : List PlayerGameState → Bool
ids_fit [] = true
ids_fit (s ∷ ss) = not (s.player_id == 0) && ids_fit ss

unfoldable pub append_members : List ℕ → List MemberInfo → List ℕ
append_members out [] = out
append_members out (m ∷ ms) =
    append_members (append_text (append_u64 out m.player_id) m.player_name) ms

unfoldable pub append_states : List ℕ → List PlayerGameState → List ℕ
append_states out [] = out
append_states out (s ∷ ss) =
    append_states (append_i32 (append_i32 (append_i32 (append_u64 out s.player_id) s.x) s.y) s.hp)
      ss

unfoldable pub encode_join_ok : ℕ → ℕ → List ℕ → List MemberInfo → Option (List ℕ)
encode_join_ok room_id self_player_id token members = do
  guard (not (length token == 0) && not (ltb max_token_size (length token)))
  guard (not (ltb 0xffff (length members)))
  guard (names_fit members)
  some (
      append_members
        (append_u16 (append_text (append_u64 (append_u32 [] room_id) self_player_id) token)
          (length members))
        members)

unfoldable pub encode_resume_ok :
    ℕ → ℕ → States → ℕ → List MemberInfo → List PlayerGameState → Option (List ℕ)
encode_resume_ok room_id self_player_id room_state tick_id members states = do
  guard (not (ltb 0xffff (length members)) && not (ltb 0xffff (length states)))
  guard (names_fit members)
  guard (ids_fit states)
  some (
      append_states
        (append_u16
          (append_members
            (append_u16
              (append_u64
                (append_u16 (append_u64 (append_u32 [] room_id) self_player_id)
                  (state_number room_state))
                tick_id)
              (length members))
            members)
          (length states))
        states)

unfoldable pub encode_player_joined : ℕ → ℕ → List ℕ → Option (List ℕ)
encode_player_joined room_id player_id player_name = do
  guard (name_fits player_name)
  some (append_text (append_u64 (append_u32 [] room_id) player_id) player_name)

unfoldable pub encode_leave_ok : ℕ → Option (List ℕ)
encode_leave_ok room_id = some (append_u32 [] room_id)

unfoldable pub encode_player_left : ℕ → ℕ → Option (List ℕ)
encode_player_left room_id player_id = some (append_u64 (append_u32 [] room_id) player_id)

unfoldable pub encode_chat_event : ℕ → ℕ → List ℕ → Option (List ℕ)
encode_chat_event room_id player_id message = do
  guard (not (length message == 0) && not (ltb max_chat_message_size (length message)))
  some (append_text (append_u64 (append_u32 [] room_id) player_id) message)

-- The requests that have an error answer: `switch (request_type)`.
unfoldable pub has_error : MessageType → Bool
has_error join = true
has_error leave = true
has_error chat = true
has_error move = true
has_error attack = true
has_error resume = true
has_error _ = false

-- The second `switch` lets every named code pass.
unfoldable pub encode_error : MessageType → ErrorCode → Option (List ℕ)
encode_error request_type error_code = do
  guard (has_error request_type)
  some (append_u16 (append_u16 [] (message_code request_type)) (error_number error_code))

unfoldable pub encode_heartbeat_ack : ℕ → Option (List ℕ)
encode_heartbeat_ack seq = some (append_u64 [] seq)

unfoldable pub encode_state_snapshot : ℕ → ℕ → List PlayerGameState → Option (List ℕ)
encode_state_snapshot room_id tick_id states = do
  guard (not (ltb 0xffff (length states)))
  guard (ids_fit states)
  some (
      append_states (append_u16 (append_u64 (append_u32 [] room_id) tick_id) (length states))
        states)
