-- ===== src/RoomService/Requests.antt =====
-- The other requests of src/room_service.cpp keep rooms and sessions together.
use l_w.Base.{
  ℕ, ◌≡◌, ◌≢◌, refl, ◌∙◌, ◌⊎◌, inl, inr, List, none, some, arith, nat_eq, ◌==◌, Option-cases,
  Bool-cases,
}
use l_w.Protocol.{
  MessageType, decode_leave_request, decode_chat_request, decode_move_request,
  decode_attack_request,
}
use l_w.Protocol
use l_w.RoomManager
use l_w.RoomManager.{RoomManager}
use l_w.RoomManager.Seats
use l_w.RoomManager.Games.{move-Keeps, attack-Keeps, tick_rooms-Keeps}
use l_w.SessionManager
use l_w.SessionManager.{SessionManager, Token}
use l_w.SessionManager.Handle.{Session}
use l_w.SessionManager.Outcomes.{Holds, lookup_outcome}
use l_w.RoomService.{RoomService, World, on_base, add_room}
use l_w.RoomService.Handlers.{lookup_identity, handle_leave}
use l_w.RoomService.Dispatch.{handle_chat, handle_move, handle_attack, handle_tick}
use l_w.RoomService.Invariant.{IsValid, keep_rooms, depart-IsValid}

module _ (w : World) (s : RoomService) (c : ℕ) where
  identity_some :
      (type : MessageType)
      → (SessionManager.lookup s.session_manager (some c)).state ≡ SessionManager.success
      → (lookup_identity w s c type).0
        ≡ some (
          (SessionManager.lookup s.session_manager (some c)).room_id,
          (SessionManager.lookup s.session_manager (some c)).player_id,
        )
  unfolding lookup_identity
  identity_some type e = rw (e, lookup_identity) refl

  identity_none :
      (type : MessageType)
      → (SessionManager.lookup s.session_manager (some c)).state ≢ SessionManager.success
      → (lookup_identity w s c type).0 ≡ none
  unfolding lookup_identity
  identity_none type e = ground arith

  -- The player of a connection is the one of its session.
  pub identity_outcome :
      (type : MessageType)
      → ((t : Token) × (x : Session) × Holds s.session_manager c t x
          × ((lookup_identity w s c type).0 ≡ some (x.room_id, x.player_id)))
        ⊎ ((lookup_identity w s c type).0 ≡ none)
  identity_outcome type = elim (lookup_outcome s.session_manager c) [
    | inr failed ↦ inr (identity_none type failed)
    | inl (t, x, h, ok, k, p) ↦ inl (t, x, h, identity_some type ok ∙ (rw (k, p) refl))
  ]

  module _ (v : IsValid s) where
    pub handle_leave-IsValid : (payload : List ℕ) → IsValid (handle_leave w s c payload).0
    unfolding handle_leave
    handle_leave-IsValid payload = elim (Bool-cases (decode_leave_request payload)) [
      | inr failed ↦ rw (failed, handle_leave) v
      | inl good ↦ elim (identity_outcome Protocol.leave) [
        | inr nobody ↦ rw (good, handle_leave) (rw nobody v)
        | inl (t, x, h, e) ↦
            rw (good, handle_leave)
              (rw e (depart-IsValid w s c x.room_id x.player_id v t x h refl refl))
      ]
    ]

    pub handle_chat-IsValid : (payload : List ℕ) → IsValid (handle_chat w s c payload).0
    unfolding handle_chat
    handle_chat-IsValid payload = elim (Option-cases (decode_chat_request payload)) [
      | inl failed ↦ rw (failed, handle_chat) v
      | inr (request, good) ↦ elim (identity_outcome Protocol.chat) [
        | inr nobody ↦ rw (good, handle_chat) (rw nobody v)
        | inl (t, x, h, e) ↦ rw (good, handle_chat) (rw e v)
      ]
    ]

    pub handle_move-IsValid : (payload : List ℕ) → IsValid (handle_move w s c payload).0
    unfolding handle_move
    handle_move-IsValid payload = elim (Option-cases (decode_move_request payload)) [
      | inl failed ↦ rw (failed, handle_move) v
      | inr (request, good) ↦ elim (identity_outcome Protocol.move) [
        | inr nobody ↦ rw (good, handle_move) (rw nobody v)
        | inl (t, x, h, e) ↦
            rw (good, handle_move)
              (rw e (
                keep_rooms s _ v
                  (move-Keeps s.room_manager v.rooms x.room_id x.player_id request.dx request.dy)))
      ]
    ]

    pub handle_attack-IsValid : (payload : List ℕ) → IsValid (handle_attack w s c payload).0
    unfolding handle_attack
    handle_attack-IsValid payload = elim (Option-cases (decode_attack_request payload)) [
      | inl failed ↦ rw (failed, handle_attack) v
      | inr (request, good) ↦ elim (identity_outcome Protocol.attack) [
        | inr nobody ↦ rw (good, handle_attack) (rw nobody v)
        | inl (t, x, h, e) ↦
            rw (good, handle_attack)
              (rw e (
                keep_rooms s _ v (
                  attack-Keeps s.room_manager v.rooms x.room_id x.player_id
                    request.target_player_id)))
      ]
    ]

    pub handle_tick-IsValid : (expirations : ℕ) → IsValid (handle_tick w s expirations).0
    unfolding handle_tick
    handle_tick-IsValid expirations = elim (Bool-cases (on_base w)) [
      | inr away ↦ rw (away, handle_tick) v
      | inl here ↦ elim (Bool-cases (expirations == 0)) [
        | inl early ↦ rw (here, handle_tick) (rw early v)
        | inr due ↦
            rw (here, handle_tick)
              (rw due (keep_rooms s _ v (tick_rooms-Keeps w.alive s.room_manager v.rooms)))
      ]
    ]

    pub add_room-IsValid : (k capacity : ℕ) → IsValid (add_room w s k capacity).0
    unfolding add_room
    add_room-IsValid k capacity = elim (Bool-cases (on_base w)) [
      | inr away ↦ rw (away, add_room) v
      | inl here ↦
          rw (here, add_room)
            (keep_rooms s _ v (record {
              valid = RoomManager.Seats.add_room-IsValid s.room_manager k capacity v.rooms;
              same_seats = RoomManager.Seats.add_room-seats s.room_manager k capacity;
            }))
    ]
