-- ===== src/RoomService/Invariant.antt =====
-- The rooms and the sessions of src/room_service.cpp belong together, and leaving keeps it so.
use l_w.Base.{ℕ, ◌≡◌, ◌≢◌, refl, sym, ◌∙◌, inl, inr, some, nat_eq, arith}
use l_w.Map.{find}
use l_w.Map.Laws.{find-erase}
use l_w.RoomManager
use l_w.RoomManager.{RoomManager, Rooms}
use l_w.RoomManager.Seats
use l_w.RoomManager.Seats.{seats}
use l_w.RoomManager.Games.{Keeps}
use l_w.RoomManager.Changes.{leave-IsValid, leave-seats}
use l_w.SessionManager
use l_w.SessionManager.{SessionManager, Token, text_eq}
use l_w.SessionManager.Handle.{Session}
use l_w.SessionManager.Invariant
use l_w.SessionManager.Steps.{erase_by_connection-IsValid}
use l_w.SessionManager.Outcomes.{Holds, erase_by_connection_lem}
use l_w.RoomService.{RoomService, World, new}
use l_w.RoomService.Linked.{Linked, Seating, Holders, drop-Linked}
use l_w.RoomService.Handlers.{undo_join, depart}

abbrev pub holder : SessionManager → Holders
holder m t = find t m.sessions

-- Rooms and sessions are valid, and every seat in a room belongs to a session.
pub record IsValid (s : RoomService) : Type 0 where
  pub rooms : RoomManager.Seats.IsValid s.room_manager.rooms
  pub sessions : SessionManager.Invariant.IsValid s.session_manager
  pub linked : Linked (seats s.room_manager.rooms) (holder s.session_manager)

pub Linked-same :
    {seat seat' : Seating} {h : Holders}
    → ((i j : ℕ) → seat' i j ≡ seat i j)
    → Linked seat h
    → Linked seat' h
Linked-same e l = record {
  taken = λ k p w f. l.taken k p w (sym (e k p) ∙ f);
  seated = λ t s f. e s.room_id s.player_id ∙ l.seated t s f;
  single = l.single;
  idle = l.idle;
}

pub keep_rooms :
    (s : RoomService) (rooms : RoomManager)
    → IsValid s
    → Keeps s.room_manager.rooms rooms.rooms
    → IsValid (record s { room_manager = rooms })
keep_rooms s rooms v k = record {
  rooms = k.valid;
  sessions = v.sessions;
  linked = Linked-same k.same_seats v.linked;
}

-- A service without sessions and seats.
pub new-IsValid : (timeout : ℕ) → IsValid (new timeout)
unfolding new find seats SessionManager.new
new-IsValid timeout = record {
  rooms = RoomManager.Seats.new-IsValid;
  sessions = record {
    unique_tokens = tt;
    unique_connections = tt;
    bound = λ c t e. absurd (ground arith);
    held = λ t s e. absurd (ground arith);
  };
  linked = record {
    taken = λ k p w e. absurd (ground arith);
    seated = λ t s e. absurd (ground arith);
    single = λ t u s r e. absurd (ground arith);
    idle = λ t s e. absurd (ground arith);
  };
}

module _ (w : World) (s : RoomService) (c k p : ℕ) where
  abbrev after_leave : RoomManager × RoomManager.NotifyResult
  after_leave = RoomManager.leave w.alive s.room_manager k p

  undo_left :
      after_leave.1.state ≡ RoomManager.success
      → undo_join w s c k p ≡ record {
        room_manager = after_leave.0;
        session_manager = (SessionManager.erase_by_connection s.session_manager (some c)).0;
      }
  unfolding undo_join
  undo_left e = rw (e, undo_join) refl

  undo_stayed :
      after_leave.1.state ≢ RoomManager.success
      → undo_join w s c k p ≡ record s { room_manager = after_leave.0 }
  unfolding undo_join
  undo_stayed e = ground arith

  depart-undo_join : (depart w s c k p).0 ≡ undo_join w s c k p
  unfolding undo_join depart
  depart-undo_join = ground arith

  module _ (v : IsValid s) (t : Token) (x : Session) (h : Holds s.session_manager c t x)
      (a : x.room_id ≡ k) (b : x.player_id ≡ p) where
    pub undo_join-IsValid : IsValid (undo_join w s c k p)
    undo_join-IsValid = elim (leave-seats w.alive s.room_manager v.rooms k p) [
      | inl (e, _, change) ↦ rw (undo_left e) (record {
        rooms = leave-IsValid w.alive s.room_manager v.rooms k p;
        sessions = erase_by_connection-IsValid s.session_manager (some c) v.sessions;
        linked = rw (erase_by_connection_lem s.session_manager c t x h) (
            drop-Linked v.linked t k p x (h.1) a b
              (λ u. find-erase t u s.session_manager.sessions v.sessions.unique_tokens) change);
      })
      | inr (e, _, same) ↦ rw (undo_stayed e) (rw same v)
    ]

    pub depart-IsValid : IsValid (depart w s c k p).0
    depart-IsValid = rw depart-undo_join undo_join-IsValid
