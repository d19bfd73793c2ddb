-- ===== src/RoomService/Tests.antt =====
-- The theorems about src/room_service.cpp at a short run: a room opens, a player joins it, the
-- connection closes and the session runs out.
use l_w.Base.{ℕ, ◌≡◌, refl, true, false, List, [], ◌∷◌, some, All, nat_eq, arith}
use l_w.SessionManager.{expired_sessions}
use l_w.Buffer.{Buffer}
use l_w.RoomService.{RoomService, World, new}
use l_w.RoomService.Dispatch.{handle_session_timeouts}
use l_w.RoomService.Invariant.{IsValid}
use l_w.RoomService.Runs.{Event, adds, receives, closes, ticks, Lives, run, run-new_service-IsValid}
use l_w.RoomManager
use l_w.RoomManager.Recovery
use l_w.SessionManager
use l_w.RoomService.Recovery.{make_checkpoint}
use l_w.RoomService.Stored.{make_checkpoint_lem}
use l_w.RoomService.Timeouts.{handle_session_timeouts_lem}

abbrev world : World
world = record {
  base_loop = true;
  in_loop_thread = true;
  alive = λ c. true;
  now = 100;
  random = some (1 ∷ 2 ∷ 3 ∷ 4 ∷ 5 ∷ 6 ∷ 7 ∷ 8 ∷ 9 ∷ 10 ∷ 11 ∷ 12 ∷ 13 ∷ 14 ∷ 15 ∷ 16 ∷ []);
  sends = λ c frame. true;
  under_backpressure = λ c. false;
  has_loop = λ c. true;
  in_own_loop = λ c. true;
}

-- The player `ab` asks for room 7.
abbrev join_bytes : List ℕ
join_bytes = 0 ∷ 0 ∷ 0 ∷ 7 ∷ 0 ∷ 2 ∷ 97 ∷ 98 ∷ []

-- The frame of that request, as it lies in the buffer of the connection.
abbrev join_frame : Buffer
join_frame = record { buffer = 0 ∷ 0 ∷ 0 ∷ 10 ∷ 0 ∷ 1 ∷ join_bytes; read_pos = 0; write_pos = 14 }

abbrev events : List (World × Event)
events =
    (world, adds 7 2) ∷ (world, receives 5 join_frame) ∷ (world, ticks 1) ∷ (world, closes 5) ∷ []

events-Lives : All (λ e. Lives e.0 e.1) events
unfolding Lives
events-Lives = (tt, (refl, (tt, (tt, tt))))

run-new_service-IsValid_example : IsValid (run (new 30) events)
run-new_service-IsValid_example = run-new_service-IsValid 30 events events-Lives

-- One player of room 7, offline until 130.
abbrev waiting : RoomService
waiting = run (new 30) events

waiting-IsValid : IsValid waiting
waiting-IsValid = run-new_service-IsValid 30 events events-Lives

handle_session_timeouts_lem_example :
    (expired_sessions (handle_session_timeouts world waiting 200).0.session_manager 200 ≡ [])
    × IsValid (handle_session_timeouts world waiting 200).0
handle_session_timeouts_lem_example =
    handle_session_timeouts_lem world waiting 200 waiting-IsValid refl

make_checkpoint_lem_example :
    make_checkpoint world waiting 1
    ≡ some (record {
      generation = 1;
      rooms = RoomManager.Recovery.make_checkpoint waiting.room_manager;
      sessions = SessionManager.make_checkpoint waiting.session_manager;
    })
make_checkpoint_lem_example =
    make_checkpoint_lem waiting waiting-IsValid world 1 refl (λ e. absurd (ground arith))
