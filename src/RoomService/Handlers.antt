-- ===== src/RoomService/Handlers.antt =====
-- src/room_service.cpp: the handlers of requests, in the thread of the base loop and with a
-- connection that is not null, as `handle_frame_in_loop` has checked.
use l_w.Base.{ℕ, List, [], ◌++◌, Option, none, some, if◌then◌else◌, not}
use l_w.Protocol.{
  MessageType, JoinRequest, decode_join_request, decode_leave_request, decode_chat_request,
  decode_move_request, decode_attack_request, decode_resume_request, encode_join_ok,
  encode_player_joined, encode_leave_ok, encode_player_left, encode_chat_event, encode_resume_ok,
}
use l_w.Protocol
use l_w.RoomManager
use l_w.RoomManager.Attach
use l_w.SessionManager
use l_w.RoomService.{RoomService, World, Effect}
use l_w.RoomService.Sending.{
  send_frame, broadcast_frame, send_error, refuse, state_to_error_code, session_state_to_error_code,
}

module _ (w : World) where
  -- The rollback of `handle_join`: the member leaves, and with it the session.
  unfoldable pub undo_join : RoomService → ℕ → ℕ → ℕ → RoomService
  undo_join s c room_id player_id =
      let (rooms, result) = RoomManager.leave w.alive s.room_manager room_id player_id in
      elim result.state [
        | RoomManager.success ↦ record {
          room_manager = rooms;
          session_manager = (SessionManager.erase_by_connection s.session_manager (some c)).0;
        }
        | _ ↦ record s { room_manager = rooms }
      ]

  -- `handle_join` from the test of `start_if_full` on.
  unfoldable pub open_room :
      RoomService → ℕ → RoomManager.JoinResult → List ℕ → List ℕ → RoomService × List Effect
  open_room s c result response_payload event_payload =
      let (rooms, start_state) = RoomManager.start_if_full s.room_manager result.room_id in
      let opened = record s { room_manager = rooms } in
      elim start_state [
        | RoomManager.success ↦ (
          opened,
          (send_frame w (some c) Protocol.join_ok response_payload).0
              ++ (broadcast_frame w result.notify_connections Protocol.player_joined
                  event_payload).0,
        )
        | e ↦ (
          undo_join opened c result.room_id result.player_id,
          refuse w c Protocol.join (state_to_error_code e),
        )
      ]

  -- `handle_join` from the encoding of the answers on.
  unfoldable pub announce :
      RoomService → ℕ → List ℕ → RoomManager.JoinResult → List ℕ → RoomService × List Effect
  announce s c player_name result token =
      elim (encode_join_ok result.room_id result.player_id token result.members) [
        | none ↦ (undo_join s c result.room_id result.player_id, [])
        | some response_payload ↦
            elim (encode_player_joined result.room_id result.player_id player_name) [
              | none ↦ (undo_join s c result.room_id result.player_id, [])
              | some event_payload ↦ open_room s c result response_payload event_payload
            ]
      ]

  -- `handle_join` from the creation of the session on.
  unfoldable pub enroll :
      RoomService → ℕ → List ℕ → RoomManager.JoinResult → RoomService × List Effect
  enroll s c player_name result =
      let (sessions, session_result) =
        SessionManager.create s.session_manager w.random (some c) result.room_id result.player_id in
      let enrolled = record s { session_manager = sessions } in
      elim session_result.state [
        | SessionManager.success ↦ announce enrolled c player_name result session_result.token
        | _ ↦ (
          record enrolled {
            room_manager =
                (RoomManager.leave w.alive s.room_manager result.room_id result.player_id).0;
          },
          [],
        )
      ]

  -- `handle_join` for a connection without a session.
  unfoldable pub admit : RoomService → ℕ → JoinRequest → RoomService × List Effect
  admit s c request =
      let (rooms, result) =
        RoomManager.join w.alive s.room_manager (some c) request.room_id request.player_name in
      let admitted = record s { room_manager = rooms } in
      elim result.state [
        | RoomManager.success ↦ enroll admitted c request.player_name result
        | e ↦ (admitted, refuse w c Protocol.join (state_to_error_code e))
      ]

  unfoldable pub handle_join : RoomService → ℕ → List ℕ → RoomService × List Effect
  handle_join s c payload = elim (decode_join_request payload) [
    | none ↦ (s, (send_error w (some c) Protocol.join Protocol.invalid_player_name).0)
    | some request ↦ elim (SessionManager.lookup s.session_manager (some c)).state [
      | SessionManager.success ↦
          (s, (send_error w (some c) Protocol.join Protocol.already_in_room).0)
      | SessionManager.not_bound ↦ admit s c request
      | _ ↦ (s, [])
    ]
  ]

  -- `handle_resume` once the session is online.
  unfoldable pub rejoin : RoomService → ℕ → SessionManager.ResumeResult → RoomService × List Effect
  rejoin s c session_result =
      let (rooms, room_result) =
        RoomManager.Attach.bind_connection w.alive s.room_manager session_result.room_id
          session_result.player_id (some c) in
      elim room_result.state [
        | RoomManager.Attach.success ↦
            elim (encode_resume_ok room_result.room_id room_result.player_id room_result.room_state
              room_result.tick_id room_result.members room_result.snapshot) [
                | none ↦ (
                  record {
                    room_manager =
                        (RoomManager.Attach.detach_connection w.alive rooms room_result.room_id
                          room_result.player_id (some c)).0;
                    session_manager =
                        (SessionManager.rollback_resume w.alive s.session_manager (some c)).0;
                  },
                  [],
                )
                | some response_payload ↦ (
                  record s { room_manager = rooms },
                  (send_frame w (some c) Protocol.resume_ok response_payload).0,
                )
              ]
        | _ ↦ (
          record {
            room_manager = rooms;
            session_manager = (SessionManager.rollback_resume w.alive s.session_manager (some c)).0;
          },
          (send_error w (some c) Protocol.resume Protocol.resume_failed).0,
        )
      ]

  unfoldable pub handle_resume : RoomService → ℕ → List ℕ → RoomService × List Effect
  handle_resume s c payload = elim (decode_resume_request payload) [
    | none ↦ (s, (send_error w (some c) Protocol.resume Protocol.invalid_token).0)
    | some request ↦
        let (sessions, session_result) =
          SessionManager.resume s.session_manager (some c) request.token w.now in
        let resumed = record s { session_manager = sessions } in
        elim session_result.state [
          | SessionManager.success ↦ rejoin resumed c session_result
          | e ↦ (resumed, refuse w c Protocol.resume (session_state_to_error_code e))
        ]
  ]

  -- The identity of a connection's session, or the answer that it has none.
  unfoldable pub lookup_identity : RoomService → ℕ → MessageType → Option (ℕ × ℕ) × List Effect
  lookup_identity s c request_type =
      let result = SessionManager.lookup s.session_manager (some c) in
      elim result.state [
        | SessionManager.success ↦ (some (result.room_id, result.player_id), [])
        | SessionManager.not_bound ↦
            (none, (send_error w (some c) request_type Protocol.not_in_room).0)
        | _ ↦ (none, [])
      ]

  -- `handle_leave` for the player of a session.
  unfoldable pub depart : RoomService → ℕ → ℕ → ℕ → RoomService × List Effect
  depart s c room_id player_id =
      let (rooms, result) = RoomManager.leave w.alive s.room_manager room_id player_id in
      elim result.state [
        | RoomManager.success ↦ (
          record {
            room_manager = rooms;
            session_manager = (SessionManager.erase_by_connection s.session_manager (some c)).0;
          },
          elim (encode_leave_ok room_id) [
            | none ↦ []
            | some response_payload ↦
                (send_frame w (some c) Protocol.leave_ok response_payload).0
                ++ elim (encode_player_left room_id player_id) [
                  | none ↦ []
                  | some event_payload ↦
                      (broadcast_frame w result.notify_connections Protocol.player_left
                        event_payload).0
                ]
          ],
        )
        | e ↦ (record s { room_manager = rooms }, refuse w c Protocol.leave (state_to_error_code e))
      ]

  unfoldable pub handle_leave : RoomService → ℕ → List ℕ → RoomService × List Effect
  handle_leave s c payload =
      if not (decode_leave_request payload)
      then (s, (send_error w (some c) Protocol.leave Protocol.invalid_message).0)
      else (let (identity, effects) = lookup_identity s c Protocol.leave in
          elim identity [
            | none ↦ (s, effects)
            | some (room_id, player_id) ↦ depart s c room_id player_id
          ])
