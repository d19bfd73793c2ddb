-- ===== src/RoomService.antt =====
-- src/room_service.cpp: what the server does with the frames of its clients, with closed connections,
-- ticks and timeouts. A handler takes the service's state to its next state and to the calls that it
-- makes of connections and of the event loop, in their order (`Effect`).
pub mod Sending
pub mod Handlers
pub mod Dispatch
pub mod Recovery
pub mod Linked
pub mod Invariant
pub mod Admission
pub mod Requests
pub mod Closing
pub mod Resumption
pub mod Timeouts
pub mod Runs
pub mod Identities
pub mod Stored
mod Tests
use l_w.Base.{ℕ, Bool, true, false, ◌&&◌, List, [], ◌∷◌, Option, none, some, if◌then◌else◌, not}
use l_w.RoomManager.{RoomManager}
use l_w.RoomManager
use l_w.SessionManager.{SessionManager}
use l_w.SessionManager

pub record RoomService : Type 0 where
  pub room_manager : RoomManager
  pub session_manager : SessionManager

-- What a handler finds outside: whether there is a base loop and whether this is its thread, the
-- objects that exist, the clock, the bytes that `getrandom` delivers, and what the connections
-- answer.
pub record World : Type 0 where
  pub base_loop : Bool
  pub in_loop_thread : Bool
  pub alive : ℕ → Bool
  pub now : ℕ
  pub random : Option (List ℕ)
  pub sends : ℕ → List ℕ → Bool
  pub under_backpressure : ℕ → Bool
  pub has_loop : ℕ → Bool
  pub in_own_loop : ℕ → Bool

pub data Effect : Type 0 where
  send : ℕ → List ℕ → Effect
  request_close refresh_peer_activity : ℕ → Effect
  queue_frame : ℕ → ℕ → List ℕ → Effect
  queue_closed : ℕ → Effect

-- The test of most handlers: a base loop, and its thread.
abbrev pub on_base : World → Bool
on_base w = w.base_loop && w.in_loop_thread

unfoldable pub new : ℕ → RoomService
new reconnect_timeout = record {
  room_manager = RoomManager.new;
  session_manager = SessionManager.new reconnect_timeout;
}

unfoldable pub add_room : World → RoomService → ℕ → ℕ → RoomService × Bool
add_room w s room_id capacity =
    if not (on_base w)
    then (s, false)
    else (let (rooms, done) = RoomManager.add_room s.room_manager room_id capacity in
        (record s { room_manager = rooms }, done))
