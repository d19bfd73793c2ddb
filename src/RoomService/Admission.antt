-- ===== src/RoomService/Admission.antt =====
-- Joining through src/room_service.cpp keeps rooms and sessions together, however far it comes.
use l_w.Base.{
  ℕ, ◌≡◌, ◌≢◌, refl, sym, ◌∙◌, inl, inr, List, none, some, ◌==◌, nat_eq, arith, Option-cases,
  Bool-cases, ==_iff, ==_refl,
}
use l_w.Map.{find, emplace}
use l_w.Map.Laws.{find-emplace}
use l_w.Protocol.{JoinRequest, decode_join_request, encode_join_ok, encode_player_joined}
use l_w.RoomManager
use l_w.RoomManager.{RoomManager, Rooms, States-discrete}
use l_w.RoomManager.Seats
use l_w.RoomManager.Seats.{seats}
use l_w.RoomManager.Games.{start_if_full-Keeps}
use l_w.RoomManager.Changes.{Reseats, join-IsValid, join-seats, leave-IsValid, leave-seats}
use l_w.SessionManager
use l_w.SessionManager.{SessionManager, Token, text_eq, generate_token, same_text_iff}
use l_w.SessionManager.Handle.{Session}
use l_w.SessionManager.Handle
use l_w.SessionManager.Steps.{create-IsValid}
use l_w.SessionManager.Outcomes.{Holds, create_outcome}
use l_w.RoomService.{RoomService, World}
use l_w.RoomService.Linked.{add-Linked}
use l_w.RoomService.Handlers.{undo_join, open_room, announce, enroll, admit, handle_join}
use l_w.RoomService.Invariant.{IsValid, Linked-same, keep_rooms, undo_join-IsValid}

module _ (w : World) (c : ℕ) where
  -- Once the new member has a session, the rest of joining goes through or is undone.
  module _ (s : RoomService) (v : IsValid s) (result : RoomManager.JoinResult) (t : Token)
      (x : Session) (h : Holds s.session_manager c t x) (a : x.room_id ≡ result.room_id)
      (b : x.player_id ≡ result.player_id) where
    abbrev start : RoomManager × RoomManager.States
    start = RoomManager.start_if_full s.room_manager result.room_id

    abbrev opened : RoomService
    opened = record s { room_manager = start.0 }

    opened-IsValid : IsValid opened
    opened-IsValid =
        keep_rooms s start.0 v (start_if_full-Keeps s.room_manager v.rooms result.room_id)

    module _ (response event : List ℕ) where
      opens : start.1 ≡ RoomManager.success → (open_room w s c result response event).0 ≡ opened
      unfolding open_room
      opens e = rw (e, open_room) refl

      stays_shut :
          start.1 ≢ RoomManager.success
          → (open_room w s c result response event).0
            ≡ undo_join w opened c result.room_id result.player_id
      unfolding open_room
      stays_shut e = ground arith

      open_room-IsValid : IsValid (open_room w s c result response event).0
      open_room-IsValid = elim (States-discrete start.1 RoomManager.success) [
        | yes e ↦ rw (opens e) opened-IsValid
        | no e ↦
            rw (stays_shut e) (
              undo_join-IsValid w opened c result.room_id result.player_id opened-IsValid t x h a b)
      ]

    announce-IsValid :
        (name : List ℕ) (token : Token) → IsValid (announce w s c name result token).0
    unfolding announce
    announce-IsValid name token =
        let undone = undo_join-IsValid w s c result.room_id result.player_id v t x h a b in
        elim (Option-cases (encode_join_ok result.room_id result.player_id token result.members)) [
          | inl failed ↦ rw (failed, announce) undone
          | inr (response, e) ↦
              elim (Option-cases (encode_player_joined result.room_id result.player_id name)) [
                | inl failed ↦ rw (e, announce) (rw failed undone)
                | inr (event, e') ↦ rw (e, announce) (rw e' (open_room-IsValid response event))
              ]
        ]

  module _ (s : RoomService) (v : IsValid s) (result : RoomManager.JoinResult)
      (rooms : RoomManager) where
    abbrev k : ℕ
    k = result.room_id

    abbrev p : ℕ
    p = result.player_id

    abbrev admitted : RoomService
    admitted = record s { room_manager = rooms }

    abbrev made : SessionManager × SessionManager.TokenResult
    made = SessionManager.create s.session_manager w.random (some c) k p

    abbrev enrolled : RoomService
    enrolled = record admitted { session_manager = made.0 }

    module _ (name : List ℕ) where
      enrolls :
          made.1.state ≡ SessionManager.success
          → enroll w admitted c name result ≡ announce w enrolled c name result made.1.token
      unfolding enroll
      enrolls e = rw (e, enroll) refl

      turned_away :
          made.1.state ≢ SessionManager.success
          → (enroll w admitted c name result).0
            ≡ record enrolled { room_manager = (RoomManager.leave w.alive rooms k p).0 }
      unfolding enroll
      turned_away e = ground arith

    module _ (u : RoomManager.Seats.IsValid rooms.rooms)
        (empty : seats s.room_manager.rooms k p ≡ none)
        (change : Reseats s.room_manager.rooms rooms.rooms k p (some (some c))) where
      -- The seat that was just given is taken back.
      taken_back :
          (i j : ℕ)
          → seats (RoomManager.leave w.alive rooms k p).0.rooms i j ≡ seats s.room_manager.rooms i j
      taken_back i j = elim (leave-seats w.alive rooms u k p) [
        | inr (_, gone, _) ↦ absurd (ground (arith, change k p, ==_refl k, ==_refl p))
        | inl (_, _, back) ↦ back i j ∙ elim (Bool-cases (k == i)) [
          | inr other ↦ rw other (change i j ∙ (rw other refl))
          | inl same ↦ elim (Bool-cases (p == j)) [
            | inr other ↦ rw (same, other) (change i j ∙ (rw (same, other) refl))
            | inl same' ↦
                let a : k ≡ i = (==_iff k i).0 same in
                let b : p ≡ j = (==_iff p j).0 same' in rw (same, same') (rw (← a, ← b) (sym empty))
          ]
        ]
      ]

      enrolled-IsValid :
          find (generate_token w.random) s.session_manager.sessions ≡ none
          → find c s.session_manager.bindings ≡ none
          → made.0 ≡ record s.session_manager {
            sessions =
                emplace
                  (generate_token w.random)
                  (Handle.online_session k p c)
                  s.session_manager.sessions;
            bindings = emplace c (generate_token w.random) s.session_manager.bindings;
          }
          → IsValid enrolled
      enrolled-IsValid fresh free e = record {
        rooms = u;
        sessions = create-IsValid s.session_manager w.random (some c) k p v.sessions;
        linked = rw e (
            add-Linked v.linked (generate_token w.random) k p (Handle.online_session k p c) empty
              fresh (refl, refl, λ off. absurd (ground arith))
              (λ y. find-emplace (generate_token w.random) y _ s.session_manager.sessions fresh)
              change);
      }

      made-Holds :
          find (generate_token w.random) s.session_manager.sessions ≡ none
          → find c s.session_manager.bindings ≡ none
          → made.0 ≡ record s.session_manager {
            sessions =
                emplace
                  (generate_token w.random)
                  (Handle.online_session k p c)
                  s.session_manager.sessions;
            bindings = emplace c (generate_token w.random) s.session_manager.bindings;
          }
          → Holds made.0 c (generate_token w.random) (Handle.online_session k p c)
      made-Holds fresh free e =
          let t : Token = generate_token w.random in
          rw e (
            find-emplace c c t s.session_manager.bindings free ∙ (rw (==_refl c) refl),
            find-emplace t t _ s.session_manager.sessions fresh
                ∙ (rw ((same_text_iff t t).1 refl) refl),
          )

      enroll-IsValid : (name : List ℕ) → IsValid (enroll w admitted c name result).0
      enroll-IsValid name = elim (create_outcome s.session_manager c w.random k p) [
        | inl (ok, free, fresh, e) ↦ rw (enrolls name ok) (
            announce-IsValid enrolled (enrolled-IsValid fresh free e) result
              (generate_token w.random) (Handle.online_session k p c) (made-Holds fresh free e) refl
              refl name made.1.token)
        | inr (refused, same) ↦ rw (turned_away name refused) (record {
          rooms = leave-IsValid w.alive rooms u k p;
          sessions = rw same (v.sessions);
          linked = rw same (Linked-same taken_back v.linked);
        })
      ]

  abbrev joined : RoomService → ℕ → List ℕ → RoomManager × RoomManager.JoinResult
  joined s k name = RoomManager.join w.alive s.room_manager (some c) k name

  module _ (s : RoomService) (request : JoinRequest) where
    abbrev asked : RoomManager × RoomManager.JoinResult
    asked = joined s request.room_id request.player_name

    lets_in :
        asked.1.state ≡ RoomManager.success
        → admit w s c request
          ≡ enroll w (record s { room_manager = asked.0 }) c request.player_name asked.1
    unfolding admit
    lets_in e = rw (e, admit) refl

    keeps_out :
        asked.1.state ≢ RoomManager.success
        → (admit w s c request).0 ≡ record s { room_manager = asked.0 }
    unfolding admit
    keeps_out e = ground arith

    admit-IsValid : IsValid s → IsValid (admit w s c request).0
    admit-IsValid v =
        let good =
          join-IsValid w.alive s.room_manager v.rooms request.room_id c request.player_name in
        elim (join-seats w.alive s.room_manager v.rooms request.room_id c request.player_name) [
          | inl (e, here, empty, change) ↦ rw (lets_in e) (
              enroll-IsValid s v asked.1 asked.0 good (rw here empty) (rw here change)
                request.player_name)
          | inr (e, same) ↦ rw (keeps_out e) (rw same v)
        ]

  unheard :
      (s : RoomService) (payload : List ℕ) {request : JoinRequest}
      → decode_join_request payload ≡ some request
      → (SessionManager.lookup s.session_manager (some c)).state ≢ SessionManager.not_bound
      → (handle_join w s c payload).0 ≡ s
  unfolding handle_join
  unheard s payload e f = ground arith

  -- A request to join keeps rooms and sessions together: the new member has a seat and a session, or
  -- neither.
  pub handle_join-IsValid :
      (s : RoomService) (payload : List ℕ) → IsValid s → IsValid (handle_join w s c payload).0
  unfolding handle_join
  handle_join-IsValid s payload v = elim (Option-cases (decode_join_request payload)) [
    | inl failed ↦ rw (failed, handle_join) v
    | inr (request, e) ↦
        let found = SessionManager.lookup s.session_manager (some c) in
        elim (SessionManager.States-discrete found.state SessionManager.not_bound) [
          | yes f ↦ rw (e, handle_join) (rw f (admit-IsValid s request v))
          | no f ↦ rw (unheard s payload e f) v
        ]
  ]
