-- ===== src/RoomService/Runs.antt =====
-- src/room_service.cpp under any sequence of frames, closed connections, ticks and timeouts.
use l_w.Base.{
  ℕ, ◌≡◌, inl, inr, Bool, true, false, List, [], ◌∷◌, some, nat_eq, ◌==◌, not, Bool-cases, ◌&&◌,
  if◌then◌else◌, All,
}
use l_w.Protocol.{message_code}
use l_w.Protocol
use l_w.RoomService.{RoomService, World, Effect, new, add_room, on_base}
use l_w.Buffer.{Buffer}
use l_w.Codec.{Outcome, returned, aborted, out_of_fuel}
use l_w.Codec.Kept.{OutcomeKeeps, decode-Keeps}
use l_w.RoomService.Dispatch.{
  on_frame, handle_message, handle_frame_in_loop, handle_frame, handle_decoded_frame, is_request,
  close_in_loop, handle_connection_closed, handle_tick, handle_session_timeouts,
}
use l_w.RoomService.Invariant.{IsValid, new-IsValid}
use l_w.RoomService.Admission.{handle_join-IsValid}
use l_w.RoomService.Requests.{
  handle_leave-IsValid, handle_chat-IsValid, handle_move-IsValid, handle_attack-IsValid,
  handle_tick-IsValid, add_room-IsValid,
}
use l_w.RoomService.Resumption.{handle_resume-IsValid}
use l_w.RoomService.Closing.{close_in_loop-IsValid}
use l_w.RoomService.Timeouts.{handle_session_timeouts-IsValid}

either-IsValid :
    (test : Bool) (a b : RoomService × List Effect)
    → IsValid a.0
    → IsValid b.0
    → IsValid (if test then a else b).0
either-IsValid true a b v v' = v
either-IsValid false a b v v' = v'

module _ (w : World) (s : RoomService) (v : IsValid s) (c : ℕ) where
  module _ (live : w.alive c ≡ true) (type : ℕ) (payload : List ℕ) where
    pub handle_frame_in_loop-IsValid : IsValid (handle_frame_in_loop w s (some c) type payload).0
    unfolding handle_frame_in_loop
    handle_frame_in_loop-IsValid = either-IsValid (not (on_base w)) _ _ v (
        either-IsValid (type == message_code Protocol.join) _ _
          (handle_join-IsValid w c s payload v)
          (either-IsValid (type == message_code Protocol.leave) _ _
            (handle_leave-IsValid w s c v payload)
            (either-IsValid (type == message_code Protocol.chat) _ _
              (handle_chat-IsValid w s c v payload)
              (either-IsValid (type == message_code Protocol.move) _ _
                (handle_move-IsValid w s c v payload)
                (either-IsValid (type == message_code Protocol.attack) _ _
                  (handle_attack-IsValid w s c v payload)
                  (either-IsValid (type == message_code Protocol.resume) _ _
                    (handle_resume-IsValid w s c payload live v) v))))))

    handle_frame-IsValid : IsValid (handle_frame w s (some c) type payload).0
    unfolding handle_frame
    handle_frame-IsValid =
        either-IsValid (not w.base_loop) _ _ v
          (either-IsValid w.in_loop_thread _ _ handle_frame_in_loop-IsValid v)

    handle_decoded_frame-IsValid : IsValid (handle_decoded_frame w s (some c) type payload).0
    unfolding handle_decoded_frame
    handle_decoded_frame-IsValid = elim (Bool-cases (type == message_code Protocol.heartbeat)) [
      | inl beat ↦ rw beat v
      | inr other ↦ elim (Bool-cases (is_request w type)) [
        | inl request ↦ rw other (rw request handle_frame-IsValid)
        | inr unknown ↦ rw other (rw unknown v)
      ]
    ]

  handle_connection_closed-IsValid : IsValid (handle_connection_closed w s (some c)).0
  unfolding handle_connection_closed
  handle_connection_closed-IsValid =
      either-IsValid (not w.base_loop) _ _ v
        (either-IsValid w.in_loop_thread _ _ (close_in_loop-IsValid w s c v) v)

-- All frames that the bytes of a connection hold.
handle_message-IsValid :
    (w : World) (s : RoomService) (c : ℕ) (buffer : Buffer)
    → w.alive c ≡ true
    → IsValid s
    → OutcomeKeeps (λ x. IsValid x.0) (handle_message w s (some c) buffer)
unfolding handle_message
handle_message-IsValid w s c buffer live v = elim (Bool-cases (w.has_loop c && w.in_own_loop c)) [
  | inr away ↦ rw away v
  | inl here ↦ rw here (
      decode-Keeps (λ x. IsValid x.0) (on_frame w c)
        (λ x type payload u. handle_decoded_frame-IsValid w x.0 u c live type payload) buffer
        (s, []) v)
]

-- What happens to the service. Bytes come from a connection, in the connection's thread; a frame may
-- also come from the base loop's queue, and so may the end of a connection.
pub data Event : Type 0 where
  adds : ℕ → ℕ → Event
  receives : ℕ → Buffer → Event
  takes : ℕ → ℕ → List ℕ → Event
  closes ends : ℕ → Event
  ticks expires : ℕ → Event

-- The service as a call of `handle_message` leaves it; an abort leaves nothing to go on with.
abbrev pub left_by : RoomService → Outcome Buffer (RoomService × List Effect) → RoomService
left_by s (returned go_on buffer (s', effects)) = s'
left_by s aborted = s
left_by s out_of_fuel = s

left_by-IsValid :
    (s : RoomService) (o : Outcome Buffer (RoomService × List Effect))
    → IsValid s
    → OutcomeKeeps (λ x. IsValid x.0) o
    → IsValid (left_by s o)
left_by-IsValid s (returned go_on buffer x) v u = u
left_by-IsValid s aborted v u = v
left_by-IsValid s out_of_fuel v u = v

unfoldable pub step : World → RoomService → Event → RoomService
step w s (adds room_id capacity) = (add_room w s room_id capacity).0
step w s (receives c buffer) = left_by s (handle_message w s (some c) buffer)
step w s (takes c type payload) = (handle_frame_in_loop w s (some c) type payload).0
step w s (closes c) = (handle_connection_closed w s (some c)).0
step w s (ends c) = close_in_loop w s c
step w s (ticks expirations) = (handle_tick w s expirations).0
step w s (expires now) = (handle_session_timeouts w s now).0

-- A connection whose frame is handled exists, since the handler holds it.
unfoldable pub Lives : World → Event → Type 0
Lives w (receives c buffer) = w.alive c ≡ true
Lives w (takes c type payload) = w.alive c ≡ true
Lives w event = Unit

unfoldable pub run : RoomService → List (World × Event) → RoomService
run s [] = s
run s ((w, event) ∷ events) = run (step w s event) events

step-IsValid :
    (w : World) (s : RoomService) (event : Event)
    → Lives w event
    → IsValid s
    → IsValid (step w s event)
unfolding step Lives
step-IsValid w s (adds room_id capacity) l v = add_room-IsValid w s 0 v room_id capacity
step-IsValid w s (receives c buffer) l v =
    left_by-IsValid s (handle_message w s (some c) buffer) v
      (handle_message-IsValid w s c buffer l v)
step-IsValid w s (takes c type payload) l v = handle_frame_in_loop-IsValid w s v c l type payload
step-IsValid w s (closes c) l v = handle_connection_closed-IsValid w s v c
step-IsValid w s (ends c) l v = close_in_loop-IsValid w s c v
step-IsValid w s (ticks expirations) l v = handle_tick-IsValid w s 0 v expirations
step-IsValid w s (expires now) l v = handle_session_timeouts-IsValid w s now v

run-IsValid :
    (events : List (World × Event)) (s : RoomService)
    → All (λ e. Lives e.0 e.1) events
    → IsValid s
    → IsValid (run s events)
unfolding run
run-IsValid [] s l v = v
run-IsValid ((w, event) ∷ events) s l v =
    run-IsValid events (step w s event) l.1 (step-IsValid w s event l.0 v)

-- A new service stays valid under any events, with bytes and frames of connections that exist: the rooms and the
-- sessions are valid, every seat in a room belongs to the session of exactly one token, every session
-- has its seat with its own connection, and a session that is offline has none.
pub run-new_service-IsValid :
    (timeout : ℕ) (events : List (World × Event))
    → All (λ e. Lives e.0 e.1) events
    → IsValid (run (new timeout) events)
run-new_service-IsValid timeout events l = run-IsValid events (new timeout) l (new-IsValid timeout)
