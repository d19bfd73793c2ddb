-- ===== src/RoomService/Resumption.antt =====
-- Coming back with a token through src/room_service.cpp: the seat is there, and it is bound.
use l_w.Base.{
  ℕ, ◌≡◌, ◌≢◌, refl, sym, ◌∙◌, inl, inr, Bool, true, List, Option, none, some, arith, nat_eq,
  ==_refl, Option-cases,
}
use l_w.Map.{find, assign, emplace}
use l_w.Map.Laws.{find-assign, find-emplace}
use l_w.Pointers.{WeakPtr, lock}
use l_w.Protocol.{ResumeRequest, decode_resume_request, encode_resume_ok}
use l_w.RoomManager
use l_w.RoomManager.{RoomManager}
use l_w.RoomManager.Attach
use l_w.RoomManager.Changes.{Reseats}
use l_w.RoomManager.Links.{
  bind_connection-IsValid, detach_connection-IsValid, bind_connection-seats, bind_takes,
  detach_connection-seats, detach_takes,
}
use l_w.RoomManager.Seats.{seats}
use l_w.SessionManager
use l_w.SessionManager.{SessionManager, Token, text_eq, same_text_iff}
use l_w.SessionManager.Handle.{Session, offline}
use l_w.SessionManager.Resume.{went_offline, came_online}
use l_w.SessionManager.Steps.{resume-IsValid, rollback_resume-IsValid}
use l_w.SessionManager.Outcomes.{Holds, resume_outcome, rollback_resume_lem}
use l_w.RoomService.{RoomService, World}
use l_w.RoomService.Linked.{relink-Linked}
use l_w.RoomService.Handlers.{rejoin, handle_resume}
use l_w.RoomService.Invariant.{IsValid}

lock-none : (alive : ℕ → Bool) (x : WeakPtr) → x ≡ none → lock alive x ≡ none
unfolding lock
lock-none alive x e = rw e refl

lock_alive : (alive : ℕ → Bool) (c : ℕ) → alive c ≡ true → lock alive (some c) ≡ some c
unfolding lock
lock_alive alive c e = rw e refl

module _ (w : World) (s : RoomService) (c : ℕ) (result : SessionManager.ResumeResult) where
  abbrev bound : RoomManager × RoomManager.Attach.BindingResult
  bound =
      RoomManager.Attach.bind_connection w.alive s.room_manager result.room_id result.player_id
        (some c)

  abbrev answer : Option (List ℕ)
  answer =
      encode_resume_ok bound.1.room_id bound.1.player_id bound.1.room_state bound.1.tick_id
        bound.1.members bound.1.snapshot

  module _ (ok : bound.1.state ≡ RoomManager.Attach.success) where
    answered :
        {response : List ℕ}
        → answer ≡ some response
        → (rejoin w s c result).0 ≡ record s { room_manager = bound.0 }
    unfolding rejoin
    answered e = rw (ok, rejoin) (rw e refl)

    undone :
        answer ≡ none
        → (rejoin w s c result).0 ≡ record {
          room_manager =
              (RoomManager.Attach.detach_connection w.alive bound.0 bound.1.room_id
                bound.1.player_id
                (some c)).0;
          session_manager = (SessionManager.rollback_resume w.alive s.session_manager (some c)).0;
        }
    unfolding rejoin
    undone e = rw (ok, rejoin) (rw e refl)

-- A session of a valid service that has come online, before its seat is bound.
module _ (w : World) (s : RoomService) (v : IsValid s) (c : ℕ) (t : Token) (x : Session)
    (f : find t s.session_manager.sessions ≡ some x) (off : x.state ≡ offline)
    (free : find c s.session_manager.bindings ≡ none) (result : SessionManager.ResumeResult)
    (a : result.room_id ≡ x.room_id) (b : result.player_id ≡ x.player_id)
    (sessions : SessionManager)
    (now_online : sessions ≡ record s.session_manager {
      sessions = assign t (came_online x c) s.session_manager.sessions;
      bindings = emplace c t s.session_manager.bindings;
    })
    (u : SessionManager.Invariant.IsValid sessions) where
  abbrev resumed : RoomService
  resumed = record s { session_manager = sessions }

  abbrev seat : RoomManager × RoomManager.Attach.BindingResult
  seat = bound w resumed c result

  -- The seat of a session that was offline has no connection, and takes the new one.
  pub seat_binds : seat.1.state ≡ RoomManager.Attach.success
  seat_binds =
      bind_takes w.alive s.room_manager v.rooms result.room_id result.player_id c {w = x.connection}
        (rw (a, b) (v.linked.seated t x f))
        (lock-none w.alive x.connection (v.linked.idle t x f off))

  seat_changes :
      ((seat.1.room_id ≡ result.room_id) × (seat.1.player_id ≡ result.player_id))
      × Reseats s.room_manager.rooms seat.0.rooms result.room_id result.player_id (some (some c))
  seat_changes =
      elim (bind_connection-seats w.alive s.room_manager v.rooms result.room_id result.player_id
        c) [
          | inl (_, ids, _, change) ↦ (ids, change)
          | inr (refused, _) ↦ absurd (refused seat_binds)
        ]

  resumed-Holds : Holds sessions c t (came_online x c)
  resumed-Holds = rw now_online (
    find-emplace c c t s.session_manager.bindings free ∙ (rw (==_refl c) refl),
    find-assign t t _ s.session_manager.sessions ∙ (rw ((same_text_iff t t).1 refl) refl),
  )

  bound-IsValid : IsValid (record resumed { room_manager = seat.0 })
  bound-IsValid = record {
    rooms =
        bind_connection-IsValid w.alive s.room_manager v.rooms result.room_id result.player_id c;
    sessions = u;
    linked = rw now_online (
        relink-Linked v.linked t result.room_id result.player_id x f (sym a) (sym b)
          (came_online x c) (sym a, sym b, λ e. absurd (ground arith))
          (λ y. find-assign t y _ s.session_manager.sessions) (seat_changes.1));
  }

  module _ (live : w.alive c ≡ true) where
    abbrev unseated : RoomManager
    unseated =
        (RoomManager.Attach.detach_connection w.alive seat.0 result.room_id result.player_id
          (some c)).0

    abbrev rolled_back : SessionManager
    rolled_back = (SessionManager.rollback_resume w.alive sessions (some c)).0

    seat_there : seats seat.0.rooms result.room_id result.player_id ≡ some (some c)
    seat_there =
        seat_changes.1 result.room_id result.player_id
        ∙ (rw (==_refl result.room_id) (rw (==_refl result.player_id) refl))

    rolled_back-IsValid :
        IsValid (record { room_manager = unseated; session_manager = rolled_back })
    rolled_back-IsValid =
        let lets_go =
          detach_takes w.alive seat.0 bound-IsValid.rooms result.room_id result.player_id c
            {w = some c} seat_there (lock_alive w.alive c live) in
        elim (detach_connection-seats w.alive seat.0 bound-IsValid.rooms result.room_id
          result.player_id c) [
            | inr (refused, _) ↦ absurd (refused lets_go)
            | inl (_, _, change) ↦ record {
              rooms =
                  detach_connection-IsValid w.alive seat.0 bound-IsValid.rooms result.room_id
                    result.player_id c;
              sessions = rollback_resume-IsValid w.alive sessions (some c) u;
              linked =
                  rw
                    (rollback_resume_lem sessions c t (came_online x c) resumed-Holds w.alive live
                      refl refl)
                    (relink-Linked bound-IsValid.linked t result.room_id result.player_id
                      (came_online x c) (resumed-Holds.1) (sym a) (sym b)
                      (went_offline (came_online x c) x.offline_deadline) (sym a, sym b, λ e. refl)
                      (λ y. find-assign t y _ sessions.sessions) change);
            }
          ]

    pub rejoin-IsValid : IsValid (rejoin w resumed c result).0
    rejoin-IsValid = elim (Option-cases (answer w resumed c result)) [
      | inr (response, e) ↦
          rw (answered w resumed c result seat_binds {response = response} e) bound-IsValid
      | inl e ↦
          rw (undone w resumed c result seat_binds e)
            (rw (seat_changes.0.0, seat_changes.0.1) rolled_back-IsValid)
    ]

module _ (w : World) (s : RoomService) (c : ℕ) (payload : List ℕ) where
  module _ (request : ResumeRequest) (good : decode_resume_request payload ≡ some request) where
    abbrev resumption : SessionManager × SessionManager.ResumeResult
    resumption = SessionManager.resume s.session_manager (some c) request.token w.now

    comes_back :
        resumption.1.state ≡ SessionManager.success
        → handle_resume w s c payload
          ≡ rejoin w (record s { session_manager = resumption.0 }) c resumption.1
    unfolding handle_resume
    comes_back e = rw (good, handle_resume) (rw e refl)

    stays_out :
        resumption.1.state ≢ SessionManager.success
        → (handle_resume w s c payload).0 ≡ record s { session_manager = resumption.0 }
    unfolding handle_resume
    stays_out e = ground arith

  -- A request to resume, from a connection that lives, keeps rooms and sessions together.
  pub handle_resume-IsValid : w.alive c ≡ true → IsValid s → IsValid (handle_resume w s c payload).0
  unfolding handle_resume
  handle_resume-IsValid live v = elim (Option-cases (decode_resume_request payload)) [
    | inl failed ↦ rw (failed, handle_resume) v
    | inr (request, good) ↦ elim (resume_outcome s.session_manager c request.token w.now) [
      | inr (refused, same) ↦ rw (stays_out request good refused) (rw same v)
      | inl (x, free, f, off, ok, a, b, e) ↦ rw (comes_back request good ok) (
          rejoin-IsValid w s v c request.token x f off free (resumption request good).1 a b
            (resumption request good).0 e
            (resume-IsValid s.session_manager (some c) request.token w.now v.sessions) live)
    ]
  ]
