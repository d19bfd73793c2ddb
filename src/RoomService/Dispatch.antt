-- ===== src/RoomService/Dispatch.antt =====
-- src/room_service.cpp: the other requests, ticks, timeouts and closed connections, and how frames
-- reach their handlers.
use l_w.Base.{
  ℕ, Bool, true, false, ◌&&◌, ◌||◌, not, List, [], ◌∷◌, ◌++◌, none, some, ◌==◌, if◌then◌else◌,
  length,
}
use l_w.Pointers.{ConnectionPtr}
use l_w.Buffer.{Buffer}
use l_w.Codec.{Outcome, returned, decode}
use l_w.Checkpoint.{SessionCheckpoint}
use l_w.Protocol.{
  MessageType, message_code, decode_chat_request, decode_move_request, decode_attack_request,
  decode_heartbeat_request, encode_chat_event, encode_state_snapshot, encode_player_left,
  encode_heartbeat_ack,
}
use l_w.Protocol
use l_w.RoomManager
use l_w.RoomManager.Attach
use l_w.SessionManager
use l_w.RoomService.{
  RoomService, World, Effect, on_base, refresh_peer_activity, queue_frame, queue_closed,
}
use l_w.RoomService.Sending.{send_frame, broadcast_frame, send_error, refuse, state_to_error_code}
use l_w.RoomService.Handlers.{handle_join, handle_resume, handle_leave, lookup_identity}

module _ (w : World) where
  -- `handle_chat` for the player of a session.
  unfoldable pub say : RoomService → ℕ → ℕ → ℕ → List ℕ → List Effect
  say s c room_id player_id message =
      let result = RoomManager.chat w.alive s.room_manager room_id player_id message in
      elim result.state [
        | RoomManager.success ↦ elim (encode_chat_event room_id player_id message) [
          | none ↦ []
          | some event_payload ↦
              (broadcast_frame w result.notify_connections Protocol.chat_event event_payload).0
        ]
        | e ↦ refuse w c Protocol.chat (state_to_error_code e)
      ]

  unfoldable pub handle_chat : RoomService → ℕ → List ℕ → RoomService × List Effect
  handle_chat s c payload = elim (decode_chat_request payload) [
    | none ↦ (s, (send_error w (some c) Protocol.chat Protocol.invalid_message).0)
    | some request ↦
        let (identity, effects) = lookup_identity w s c Protocol.chat in
        elim identity [
          | none ↦ (s, effects)
          | some (room_id, player_id) ↦ (s, say s c room_id player_id request.message)
        ]
  ]

  -- The end of `handle_move` and `handle_attack`.
  abbrev pub commanded :
      RoomService
      → ℕ
      → MessageType
      → RoomManager.RoomManager × RoomManager.CommandResult
      → RoomService × List Effect
  commanded s c type (rooms, result) = (
    record s { room_manager = rooms },
    elim result.state [ RoomManager.success ↦ [] | e ↦ refuse w c type (state_to_error_code e) ],
  )

  unfoldable pub handle_move : RoomService → ℕ → List ℕ → RoomService × List Effect
  handle_move s c payload = elim (decode_move_request payload) [
    | none ↦ (s, (send_error w (some c) Protocol.move Protocol.invalid_message).0)
    | some request ↦
        let (identity, effects) = lookup_identity w s c Protocol.move in
        elim identity [
          | none ↦ (s, effects)
          | some (room_id, player_id) ↦
              commanded s c Protocol.move
                (RoomManager.move s.room_manager room_id player_id request.dx request.dy)
        ]
  ]

  unfoldable pub handle_attack : RoomService → ℕ → List ℕ → RoomService × List Effect
  handle_attack s c payload = elim (decode_attack_request payload) [
    | none ↦ (s, (send_error w (some c) Protocol.attack Protocol.invalid_message).0)
    | some request ↦
        let (identity, effects) = lookup_identity w s c Protocol.attack in
        elim identity [
          | none ↦ (s, effects)
          | some (room_id, player_id) ↦
              commanded s c Protocol.attack
                (RoomManager.attack s.room_manager room_id player_id request.target_player_id)
        ]
  ]

  unfoldable pub handle_frame_in_loop :
      RoomService → ConnectionPtr → ℕ → List ℕ → RoomService × List Effect
  handle_frame_in_loop s none type payload = (s, [])
  handle_frame_in_loop s (some c) type payload =
      if not (on_base w)
      then (s, [])
      else if type == message_code Protocol.join
      then handle_join w s c payload
      else if type == message_code Protocol.leave
      then handle_leave w s c payload
      else if type == message_code Protocol.chat
      then handle_chat s c payload
      else if type == message_code Protocol.move
      then handle_move s c payload
      else if type == message_code Protocol.attack
      then handle_attack s c payload
      else if type == message_code Protocol.resume
      then handle_resume w s c payload
      else (s, [])

  -- `EventLoop::run_in_loop` calls at once in the loop's own thread, and queues otherwise.
  unfoldable pub handle_frame : RoomService → ConnectionPtr → ℕ → List ℕ → RoomService × List Effect
  handle_frame s none type payload = (s, [])
  handle_frame s (some c) type payload =
      if not w.base_loop
      then (s, [])
      else if w.in_loop_thread
      then handle_frame_in_loop s (some c) type payload
      else (s, queue_frame c type payload ∷ [])

  unfoldable pub handle_heartbeat : ConnectionPtr → List ℕ → List Effect × Bool
  handle_heartbeat none payload = ([], false)
  handle_heartbeat (some c) payload = elim (decode_heartbeat_request payload) [
    | none ↦ ([], false)
    | some request ↦ elim (encode_heartbeat_ack request.seq) [
      | none ↦ (refresh_peer_activity c ∷ [], false)
      | some ack ↦
          let (effects, done) = send_frame w (some c) Protocol.heartbeat_ack ack in
          (refresh_peer_activity c ∷ effects, done)
    ]
  ]

  -- The types that a client may send, but for heartbeats.
  abbrev pub is_request : ℕ → Bool
  is_request type =
      type == message_code Protocol.join
      || type == message_code Protocol.leave
      || type == message_code Protocol.chat
      || type == message_code Protocol.move
      || type == message_code Protocol.attack
      || type == message_code Protocol.resume

  unfoldable pub handle_decoded_frame :
      RoomService → ConnectionPtr → ℕ → List ℕ → RoomService × List Effect × Bool
  handle_decoded_frame s none type payload = (s, [], false)
  handle_decoded_frame s (some c) type payload =
      if type == message_code Protocol.heartbeat
      then (let (effects, go_on) = handle_heartbeat (some c) payload in (s, effects, go_on))
      else if is_request type
      then (let (s', effects) = handle_frame s (some c) type payload in
          (s', refresh_peer_activity c ∷ effects, true))
      else (s, [], false)

  -- The callback of `handle_message`, with the service and the effects so far as its state.
  abbrev pub on_frame :
      ℕ → RoomService × List Effect → ℕ → List ℕ → (RoomService × List Effect) × Bool
  on_frame c (s, effects) type payload =
      let (s', more, go_on) = handle_decoded_frame s (some c) type payload in
      ((s', effects ++ more), go_on)

  unfoldable pub handle_message :
      RoomService → ConnectionPtr → Buffer → Outcome Buffer (RoomService × List Effect)
  handle_message s none buffer = returned false buffer (s, [])
  handle_message s (some c) buffer =
      if not (w.has_loop c && w.in_own_loop c)
      then returned false buffer (s, [])
      else decode (some (on_frame c)) buffer (s, [])

  -- What `handle_connection_closed` leaves to the base loop.
  unfoldable pub close_in_loop : RoomService → ℕ → RoomService
  close_in_loop s c =
      if not w.in_loop_thread
      then s
      else (let found = SessionManager.lookup s.session_manager (some c) in
          elim found.state [
            | SessionManager.success ↦
                let (rooms, result) =
                  RoomManager.Attach.detach_connection w.alive s.room_manager found.room_id
                    found.player_id (some c) in
                elim result.state [
                  | RoomManager.Attach.success ↦ record {
                    room_manager = rooms;
                    session_manager =
                        (SessionManager.detach w.alive s.session_manager (some c) w.now).0;
                  }
                  | _ ↦ record s { room_manager = rooms }
                ]
            | _ ↦ s
          ])

  unfoldable pub handle_connection_closed : RoomService → ConnectionPtr → RoomService × List Effect
  handle_connection_closed s none = (s, [])
  handle_connection_closed s (some c) =
      if not w.base_loop
      then (s, [])
      else if w.in_loop_thread
      then (close_in_loop s c, [])
      else (s, queue_closed c ∷ [])

  -- The loop of `handle_tick`.
  unfoldable pub announce_ticks : List RoomManager.TickResult → List Effect
  announce_ticks [] = []
  announce_ticks (result ∷ results) =
      let rest = announce_ticks results in
      if length result.notify_connections == 0
      then rest
      else elim (encode_state_snapshot result.room_id result.tick_id result.snapshot) [
        | none ↦ rest
        | some payload ↦
            (broadcast_frame w result.notify_connections Protocol.state_snapshot payload).0 ++ rest
      ]

  unfoldable pub handle_tick : RoomService → ℕ → RoomService × List Effect
  handle_tick s expirations =
      if not (on_base w)
      then (s, [])
      else if expirations == 0
      then (s, [])
      else (let (rooms, results) = RoomManager.tick_rooms w.alive s.room_manager in
          (record s { room_manager = rooms }, announce_ticks results))

  -- One round of the loop of `handle_session_timeouts`.
  unfoldable pub drop_expired : RoomService → SessionCheckpoint → ℕ → RoomService × List Effect
  drop_expired s item now =
      let (rooms, result) = RoomManager.leave w.alive s.room_manager item.room_id item.player_id in
      elim result.state [
        | RoomManager.success ↦
            let (sessions, erased) =
              SessionManager.erase_expired s.session_manager item.token now in
            (
              record { room_manager = rooms; session_manager = sessions },
              elim erased [
                | SessionManager.success ↦ elim (encode_player_left item.room_id item.player_id) [
                  | none ↦ []
                  | some event_payload ↦
                      (broadcast_frame w result.notify_connections Protocol.player_left
                        event_payload).0
                ]
                | _ ↦ []
              ],
            )
        | _ ↦ (record s { room_manager = rooms }, [])
      ]

  unfoldable pub drop_all : RoomService → List SessionCheckpoint → ℕ → RoomService × List Effect
  drop_all s [] now = (s, [])
  drop_all s (item ∷ items) now =
      let (s', effects) = drop_expired s item now in
      let (s'', more) = drop_all s' items now in (s'', effects ++ more)

  unfoldable pub handle_session_timeouts : RoomService → ℕ → RoomService × List Effect
  handle_session_timeouts s now =
      if not (on_base w)
      then (s, [])
      else drop_all s (SessionManager.expired_sessions s.session_manager now) now
