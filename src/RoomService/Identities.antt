-- ===== src/RoomService/Identities.antt =====
-- The identities of members and sessions that src/room_service.cpp compares as sets.
use l_w.Base.{
  ℕ, ◌≡◌, refl, ◌∙◌, inl, inr, Bool, true, ◌&&◌, ◌||◌, List, [], ◌∷◌, ◌++◌, some, arith, nat_eq,
  ◌==◌, ==_refl, map, All, Bool-cases,
}
use l_w.Map.{find, values}
use l_w.Sort.{insert, sort}
use l_w.Checkpoint.{CheckpointMember, RoomCheckpoint, SessionCheckpoint, Identity, occurs}
use l_w.Room
use l_w.Room.{Room, Member, Members}
use l_w.Room.Persist.{checkpoint_member, stored_before}
use l_w.Room.Persist
use l_w.RoomManager.{Rooms}
use l_w.RoomManager
use l_w.RoomManager.Recovery.{room_before}
use l_w.RoomManager.Recovery
use l_w.SessionManager.{
  Sessions, Token, text_eq, same_text, same_text_iff, token_before, session_checkpoint,
}
use l_w.SessionManager
use l_w.SessionManager.Handle.{Session}
use l_w.RoomService.Recovery.{all_occur, member_identities, room_identities, session_identities}

pub All-occur : (is js : List Identity) → All (λ i. occurs i js ≡ true) is → all_occur is js ≡ true
unfolding all_occur
All-occur [] js a = refl
All-occur (i ∷ is) js a = ground (arith, a.0, All-occur is js a.1)

pub All-append :
    (P : Identity → Type 0) (is js : List Identity) → All P is → All P js → All P (is ++ js)
All-append P [] js a b = b
All-append P (i ∷ is) js a b = (a.0, All-append P is js a.1 b)

occurs-append :
    (i : Identity) (is js : List Identity) → occurs i (is ++ js) ≡ (occurs i is || occurs i js)
unfolding occurs
occurs-append i [] js = refl
occurs-append i (j ∷ is) js = ground (arith, occurs-append i is js)

occurs_here : (i : Identity) (is : List Identity) → occurs i (i ∷ is) ≡ true
unfolding occurs
occurs_here (k, p) is = ground (arith, ==_refl k, ==_refl p)

-- A test for some element of a list does not mind the order.
module _ {ℓ} {A : Type ℓ} (lt : A → A → Bool) (any : List A → Bool) (this : A → Bool)
    (any_step : (x : A) (xs : List A) → any (x ∷ xs) ≡ (this x || any xs)) where
  insert_any : (x : A) (xs : List A) → any (insert lt x xs) ≡ (this x || any xs)
  unfolding insert
  insert_any x [] = any_step x []
  insert_any x (y ∷ xs) = elim (Bool-cases (lt y x)) [
    | inr behind ↦ rw behind (any_step x (y ∷ xs))
    | inl before ↦
        rw before (ground (arith, any_step y (insert lt x xs), any_step y xs, insert_any x xs))
  ]

  sort_any : (xs : List A) → any (sort lt xs) ≡ any xs
  unfolding sort
  sort_any [] = refl
  sort_any (x ∷ xs) = ground (arith, insert_any x (sort lt xs), any_step x xs, sort_any xs)

module _ (i : Identity) where
  pub sort-sessions :
      (cs : List SessionCheckpoint)
      → occurs i (session_identities (sort token_before cs)) ≡ occurs i (session_identities cs)
  unfolding session_identities occurs
  sort-sessions cs =
      sort_any token_before (λ x. occurs i (session_identities x))
        (λ c. i.0 == c.room_id && i.1 == c.player_id) (λ c x. refl) cs

  sort-members :
      (k : ℕ) (ms : List CheckpointMember)
      → occurs i (member_identities k (sort stored_before ms)) ≡ occurs i (member_identities k ms)
  unfolding member_identities occurs
  sort-members k ms =
      sort_any stored_before (λ x. occurs i (member_identities k x))
        (λ m. i.0 == k && i.1 == m.player_id) (λ m x. refl) ms

  sort-rooms :
      (cs : List RoomCheckpoint)
      → occurs i (room_identities (sort room_before cs)) ≡ occurs i (room_identities cs)
  unfolding room_identities
  sort-rooms cs =
      sort_any room_before (λ x. occurs i (room_identities x))
        (λ c. occurs i (member_identities c.room_id c.members))
        (λ c x. occurs-append i (member_identities c.room_id c.members) (room_identities x)) cs

-- Whoever has a session is among the sessions' identities.
session_occurs :
    (ss : Sessions) (t : Token) (s : Session)
    → find t ss ≡ some s
    → occurs (s.room_id, s.player_id) (session_identities (SessionManager.checkpoints_of ss)) ≡ true
unfolding find session_identities occurs
session_occurs [] t s f = cc
session_occurs ((u, r) ∷ ss) t s f = elim (Bool-cases (same_text u t)) [
  | inl same ↦
      let here : r ≡ s = ground arith in
      rw here (ground (arith, ==_refl s.room_id, ==_refl s.player_id))
  | inr other ↦ ground (arith, session_occurs ss t s (ground arith))
]

pub session_in :
    (m : SessionManager.SessionManager) (t : Token) (s : Session)
    → find t m.sessions ≡ some s
    → occurs (s.room_id, s.player_id) (session_identities (SessionManager.make_checkpoint m)) ≡ true
unfolding SessionManager.make_checkpoint
session_in m t s f =
    sort-sessions (s.room_id, s.player_id) (SessionManager.checkpoints_of m.sessions)
    ∙ session_occurs m.sessions t s f

-- Whoever is a member of a room is among the rooms' identities.
member_occurs :
    (k p : ℕ) (ms : Members) (x : Member)
    → find p ms ≡ some x
    → occurs (k, x.player_id) (member_identities k (map checkpoint_member (values ms))) ≡ true
unfolding find member_identities occurs
member_occurs k p [] x f = cc
member_occurs k p ((q, y) ∷ ms) x f = elim (Bool-cases (q == p)) [
  | inl same ↦
      let here : y ≡ x = ground arith in rw here (ground (arith, ==_refl k, ==_refl x.player_id))
  | inr other ↦ ground (arith, member_occurs k p ms x (ground arith))
]

room_occurs :
    (rooms : Rooms) (k p : ℕ) (r : Room) (x : Member)
    → find k rooms ≡ some r
    → find p r.members ≡ some x
    → occurs (r.room_id, x.player_id) (room_identities (RoomManager.Recovery.checkpoints_of rooms))
      ≡ true
unfolding find room_identities Room.Persist.make_checkpoint
room_occurs [] k p r x f g = cc
room_occurs ((j, q) ∷ rooms) k p r x f g =
    let i : Identity = (r.room_id, x.player_id) in
    let rest : List Identity = room_identities (RoomManager.Recovery.checkpoints_of rooms) in
    occurs-append i
      (member_identities q.room_id (sort stored_before (map checkpoint_member (values q.members))))
      rest
    ∙ elim (Bool-cases (j == k)) [
      | inl same ↦
          let here : q ≡ r = ground arith in
          rw here (
            ground (
              arith,
              sort-members i r.room_id (map checkpoint_member (values r.members)),
              member_occurs r.room_id p r.members x g,
            ))
      | inr other ↦ ground (arith, room_occurs rooms k p r x (ground arith) g)
    ]

pub member_in :
    (m : RoomManager.RoomManager) (k p : ℕ) (r : Room) (x : Member)
    → find k m.rooms ≡ some r
    → find p r.members ≡ some x
    → occurs (r.room_id, x.player_id) (room_identities (RoomManager.Recovery.make_checkpoint m))
      ≡ true
unfolding RoomManager.Recovery.make_checkpoint
member_in m k p r x f g =
    sort-rooms (r.room_id, x.player_id) (RoomManager.Recovery.checkpoints_of m.rooms)
    ∙ room_occurs m.rooms k p r x f g
