-- ===== src/RoomService/Sending.antt =====
-- src/room_service.cpp: frames to one connection or to several, and the codes of refusals.
use l_w.Base.{ℕ, Bool, true, false, List, [], ◌∷◌, Option, none, some, if◌then◌else◌}
use l_w.Pointers.{ConnectionPtr}
use l_w.Codec.{encode}
use l_w.Protocol.{MessageType, ErrorCode, message_code, encode_error}
use l_w.Protocol
use l_w.RoomManager
use l_w.SessionManager
use l_w.RoomService.{World, Effect, send, request_close}

-- `none`: there is no code for the state.
unfoldable pub state_to_error_code : RoomManager.States → Option ErrorCode
state_to_error_code RoomManager.room_not_found = some Protocol.room_not_found
state_to_error_code RoomManager.room_full = some Protocol.room_full
state_to_error_code RoomManager.room_not_joinable = some Protocol.room_not_joinable
state_to_error_code RoomManager.not_in_room = some Protocol.not_in_room
state_to_error_code RoomManager.invalid_player_name = some Protocol.invalid_player_name
state_to_error_code RoomManager.invalid_message = some Protocol.invalid_message
state_to_error_code RoomManager.player_id_exhausted = some Protocol.player_id_exhausted
state_to_error_code RoomManager.room_not_running = some Protocol.room_not_running
state_to_error_code RoomManager.already_submitted = some Protocol.already_submitted
state_to_error_code RoomManager.success = none
state_to_error_code RoomManager.invalid_connection = none
state_to_error_code RoomManager.internal_error = none

unfoldable pub session_state_to_error_code : SessionManager.States → Option ErrorCode
session_state_to_error_code SessionManager.invalid_token = some Protocol.invalid_token
session_state_to_error_code SessionManager.session_online = some Protocol.session_online
session_state_to_error_code SessionManager.session_expired = some Protocol.session_expired
session_state_to_error_code _ = none

module _ (w : World) where
  unfoldable pub send_frame : ConnectionPtr → MessageType → List ℕ → List Effect × Bool
  send_frame none type payload = ([], false)
  send_frame (some c) type payload = elim (encode (message_code type) payload) [
    | none ↦ ([], false)
    | some frame ↦
        if w.sends c frame
        then (send c frame ∷ [], true)
        else (send c frame ∷ request_close c ∷ [], false)
  ]

  abbrev pub is_snapshot : MessageType → Bool
  is_snapshot Protocol.state_snapshot = true
  is_snapshot _ = false

  -- The loop of `broadcast_frame` over connections, none of which is null.
  unfoldable pub broadcast_loop : Bool → List ℕ → List ℕ → List Effect × Bool
  broadcast_loop flag frame [] = ([], true)
  broadcast_loop flag frame (c ∷ cs) =
      let (effects, ans) = broadcast_loop flag frame cs in
      if flag
      then (if w.under_backpressure c then (effects, ans) else (send c frame ∷ effects, ans))
      else if w.sends c frame
      then (send c frame ∷ effects, ans)
      else (send c frame ∷ request_close c ∷ effects, false)

  unfoldable pub broadcast_frame : List ℕ → MessageType → List ℕ → List Effect × Bool
  broadcast_frame connections type payload = elim (encode (message_code type) payload) [
    | none ↦ ([], false)
    | some frame ↦ broadcast_loop (is_snapshot type) frame connections
  ]

  unfoldable pub send_error : ConnectionPtr → MessageType → ErrorCode → List Effect × Bool
  send_error connection request_type error_code = elim (encode_error request_type error_code) [
    | none ↦ ([], false)
    | some payload ↦ send_frame connection Protocol.error payload
  ]

  -- The answer to a request that a room or the sessions refused, if there is a code for it.
  abbrev pub refuse : ℕ → MessageType → Option ErrorCode → List Effect
  refuse c request_type none = []
  refuse c request_type (some code) = (send_error (some c) request_type code).0
