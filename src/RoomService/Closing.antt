-- ===== src/RoomService/Closing.antt =====
-- A connection that closes leaves its player offline, in src/room_service.cpp.
use l_w.Base.{
  ℕ, ◌+◌, ◌≡◌, ◌≢◌, refl, sym, inl, inr, Bool, true, none, some, arith, nat_eq, Bool-cases,
}
use l_w.Map.Laws.{find-assign}
use l_w.Pointers.{WeakPtr, lock}
use l_w.RoomManager
use l_w.RoomManager.{RoomManager}
use l_w.RoomManager.Attach
use l_w.RoomManager.Links.{detach_connection-IsValid, detach_connection-seats}
use l_w.RoomManager.Seats.{seats}
use l_w.SessionManager
use l_w.SessionManager.{SessionManager, Token, text_eq}
use l_w.SessionManager.Handle.{Session}
use l_w.SessionManager.Steps.{detach-IsValid}
use l_w.SessionManager.Outcomes.{Holds, lookup_outcome, detach_lem}
use l_w.SessionManager.Resume.{went_offline}
use l_w.RoomService.{RoomService, World}
use l_w.RoomService.Linked.{relink-Linked}
use l_w.RoomService.Dispatch.{close_in_loop}
use l_w.RoomService.Invariant.{IsValid}

pub lock-some :
    (alive : ℕ → Bool) (x : WeakPtr) (c : ℕ)
    → lock alive x ≡ some c
    → (x ≡ some c) × (alive c ≡ true)
unfolding lock
lock-some alive none c e = absurd (ground arith)
lock-some alive (some d) c e = ground arith

module _ (w : World) (s : RoomService) (c : ℕ) where
  abbrev found : SessionManager.TokenResult
  found = SessionManager.lookup s.session_manager (some c)

  abbrev detached : RoomManager × RoomManager.Attach.DetachResult
  detached =
      RoomManager.Attach.detach_connection w.alive s.room_manager found.room_id found.player_id
        (some c)

  away : w.in_loop_thread ≡ Bool.false → close_in_loop w s c ≡ s
  unfolding close_in_loop
  away e = rw (e, close_in_loop) refl

  stranger : found.state ≢ SessionManager.success → close_in_loop w s c ≡ s
  unfolding close_in_loop
  stranger e = ground arith

  module _ (thread : w.in_loop_thread ≡ true) (known : found.state ≡ SessionManager.success) where
    closes :
        detached.1.state ≡ RoomManager.Attach.success
        → close_in_loop w s c ≡ record {
          room_manager = detached.0;
          session_manager = (SessionManager.detach w.alive s.session_manager (some c) w.now).0;
        }
    unfolding close_in_loop
    closes e = rw (thread, close_in_loop) (rw known (rw e refl))

    not_closed :
        detached.1.state ≢ RoomManager.Attach.success
        → close_in_loop w s c ≡ record s { room_manager = detached.0 }
    unfolding close_in_loop
    not_closed e = ground arith

  module _ (v : IsValid s) (t : Token) (x : Session) (h : Holds s.session_manager c t x) where
    -- The seat and the session let go together.
    let_go-IsValid :
        w.in_loop_thread ≡ true
        → found.state ≡ SessionManager.success
        → found.room_id ≡ x.room_id
        → found.player_id ≡ x.player_id
        → IsValid (close_in_loop w s c)
    let_go-IsValid thread known a b =
        let rooms =
          detach_connection-IsValid w.alive s.room_manager v.rooms found.room_id found.player_id
            c in
        elim (detach_connection-seats w.alive s.room_manager v.rooms found.room_id found.player_id
          c) [
            | inr (refused, same) ↦ rw (not_closed thread known refused) (rw same v)
            | inl (ok, (y, seat, own), change) ↦
                let here : seats s.room_manager.rooms found.room_id found.player_id
                    ≡ some x.connection =
                  rw (a, b) (v.linked.seated t x (h.1)) in
                let (_, live) = lock-some w.alive y c own in
                let (r, f, on, conn) = v.sessions.bound c t (h.0) in
                let who : x ≡ r = ground (arith, h.1) in
                rw (closes thread known ok) (record {
                  rooms = rooms;
                  sessions = detach-IsValid w.alive s.session_manager (some c) w.now v.sessions;
                  linked =
                      rw
                        (detach_lem s.session_manager c t x h w.alive live (rw who on) (rw who conn)
                          w.now)
                        (relink-Linked v.linked t found.room_id found.player_id x (h.1) (sym a)
                          (sym b) (went_offline x (w.now + s.session_manager.reconnect_timeout))
                          (sym a, sym b, λ off. refl)
                          (λ u. find-assign t u _ s.session_manager.sessions) change);
                })
          ]

  -- A closed connection leaves seats and sessions together: both lose it, or neither does.
  pub close_in_loop-IsValid : IsValid s → IsValid (close_in_loop w s c)
  close_in_loop-IsValid v = elim (Bool-cases w.in_loop_thread) [
    | inr off ↦ rw (away off) v
    | inl thread ↦ elim (lookup_outcome s.session_manager c) [
      | inr unknown ↦ rw (stranger unknown) v
      | inl (t, x, h, known, a, b) ↦ let_go-IsValid v t x h thread known a b
    ]
  ]
