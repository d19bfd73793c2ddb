-- ===== src/RoomManager/Changes.antt =====
-- What the operations of src/room_manager.cpp do to the seats: who sits in which room, through which
-- connection.
use l_w.Base.{
  ℕ, ◌≡◌, ◌≢◌, refl, ap, ◌∙◌, ◌⊎◌, inl, inr, Bool, true, List, Option, none, some, ◌==◌,
  if◌then◌else◌, arith, nat_eq, Option-cases, is_some,
}
use l_w.Map.{find, contains}
use l_w.Pointers.{WeakPtr}
use l_w.Room.{Room, Member, Joinstates, Bindingstates, has_member}
use l_w.Room
use l_w.Room.Joins.{CanJoin, newcomer, join_lem}
use l_w.Room.Joins
use l_w.Room.Leaves.{leave_lem}
use l_w.Room.Leaves
use l_w.RoomManager.{
  RoomManager, Rooms, success, put_room, join, join_answer, leave, join_failed, notify_failed,
  room_not_found, not_in_room,
}
use l_w.RoomManager.Seats.{IsValid, seats, seats-update, put-IsValid, assign_found, conn_of}
use l_w.RoomManager.Kept.{join-room_id, leave-room_id}

-- A seat changes and all others stay.
abbrev pub Reseats : Rooms → Rooms → ℕ → ℕ → Option WeakPtr → Type 0
Reseats before after k p w =
    (i j : ℕ)
    → seats after i j
      ≡ (if k == i then (if p == j then w else seats before i j) else seats before i j)

pub put_same : (m : RoomManager) (k : ℕ) (r : Room) → find k m.rooms ≡ some r → put_room m k r ≡ m
put_same m k r f = ap (λ x. record { rooms = x }) (assign_found k r m.rooms f)

pub seat_found :
    (rooms : Rooms) (k p : ℕ) (r : Room)
    → find k rooms ≡ some r
    → seats rooms k p ≡ conn_of (find p r.members)
unfolding seats
seat_found rooms k p r f = rw f refl

seat_absent : (rooms : Rooms) (k p : ℕ) → find k rooms ≡ none → seats rooms k p ≡ none
unfolding seats
seat_absent rooms k p f = rw f refl

module _ (alive : ℕ → Bool) (m : RoomManager) (v : IsValid m.rooms) (k : ℕ) where
  join_found :
      (c : ℕ) (name : List ℕ) (r : Room)
      → find k m.rooms ≡ some r
      → join alive m (some c) k name ≡ (
        put_room m k (Room.join r (some c) name).0,
        join_answer alive k (Room.join r (some c) name),
      )
  unfolding join
  join_found c name r f = rw (f, join) refl

  answer_success :
      (r : Room) (result : Room.JoinResult)
      → result.state ≡ Joinstates.success
      → ((join_answer alive k (r, result)).state ≡ success)
        × ((join_answer alive k (r, result)).room_id ≡ k)
        × ((join_answer alive k (r, result)).player_id ≡ result.player_id)
  unfolding join_answer
  answer_success r result e = (rw e refl, rw e refl, rw e refl)

  answer_refused :
      (r : Room) (result : Room.JoinResult)
      → result.state ≢ Joinstates.success
      → (join_answer alive k (r, result)).state ≢ success
  unfolding join_answer
  answer_refused r result e = ground arith

  join_absent :
      (c : ℕ) (name : List ℕ)
      → find k m.rooms ≡ none
      → join alive m (some c) k name ≡ (m, join_failed room_not_found)
  unfolding join
  join_absent c name f = rw (f, join) refl

  module _ (c : ℕ) (name : List ℕ) where
    pub join-IsValid : IsValid (join alive m (some c) k name).0.rooms
    join-IsValid = elim (Option-cases (find k m.rooms)) [
      | inl absent ↦ rw (join_absent c name absent) v
      | inr (r, f) ↦
          let (w, e) = v.each k r f in
          rw (join_found c name r f) (
            put-IsValid m.rooms k _ v (Room.Joins.join-IsValid r c name w)
              (join-room_id r c name ∙ e))
    ]

    -- A connection that joins a room is given a seat that nobody had, under the id of the answer, and
    -- every other seat stays as it was; or it is refused and nothing has changed.
    pub join-seats :
        (let (m', result) = join alive m (some c) k name in
          (result.state ≡ success)
          × (result.room_id ≡ k)
          × (seats m.rooms k result.player_id ≡ none)
          × Reseats m.rooms m'.rooms k result.player_id (some (some c)))
        ⊎ (((join alive m (some c) k name).1.state ≢ success)
            × ((join alive m (some c) k name).0 ≡ m))
    join-seats = elim (Option-cases (find k m.rooms)) [
      | inl absent ↦ rw (join_absent c name absent) (inr (λ e. cc, refl))
      | inr (r, f) ↦ rw (join_found c name r f) (elim (join_lem r c name (v.each k r f).0) [
        | inl (s, can, free, who, change) ↦
            let (ok, here, id) = answer_success (Room.join r (some c) name).0 _ s in
            let pid = id ∙ who in
            inl (
              ok,
              here,
              rw pid (seat_found m.rooms k r.next_player_id r f ∙ (rw free refl)),
              rw pid
                  (seats-update m.rooms k r _ r.next_player_id (some (newcomer r c name)) f change),
            )
        | inr (s, _, same) ↦ inr (answer_refused _ _ s, rw same (put_same m k r f))
      ])
    ]

  leave_absent :
      (p : ℕ) → find k m.rooms ≡ none → leave alive m k p ≡ (m, notify_failed room_not_found)
  unfolding leave
  leave_absent p f = rw (f, leave) refl

  leave_stranger :
      (p : ℕ) (r : Room)
      → find k m.rooms ≡ some r
      → find p r.members ≡ none
      → leave alive m k p ≡ (m, notify_failed not_in_room)
  unfolding leave has_member contains
  leave_stranger p r f g = rw (f, leave) (rw (g, leave) refl)

  leave_found :
      (p : ℕ) (r : Room)
      → find k m.rooms ≡ some r
      → is_some (find p r.members) ≡ true
      → (Room.leave r p).1 ≡ true
      → ((leave alive m k p).0 ≡ put_room m k (Room.leave r p).0)
        × ((leave alive m k p).1.state ≡ success)
  unfolding leave has_member contains
  leave_found p r f g d = (rw (f, leave) (rw g refl), rw (f, leave) (rw (g, d) refl))

  module _ (p : ℕ) where
    pub leave-IsValid : IsValid (leave alive m k p).0.rooms
    leave-IsValid = elim (Option-cases (find k m.rooms)) [
      | inl absent ↦ rw (leave_absent p absent) v
      | inr (r, f) ↦
          let (w, e) = v.each k r f in
          elim (leave_lem r p w) [
            | inl (d, g, _, _) ↦ rw ((leave_found p r f g d).0) (
                put-IsValid m.rooms k _ v (Room.Leaves.leave-IsValid r p w) (leave-room_id r p ∙ e))
            | inr (_, g, _) ↦ rw (leave_stranger p r f g) v
          ]
    ]

    -- A player who leaves a room gives up the seat there and every other seat stays as it was; whoever
    -- has no seat there is refused and nothing changes.
    pub leave-seats :
        (((leave alive m k p).1.state ≡ success)
          × (is_some (seats m.rooms k p) ≡ true)
          × Reseats m.rooms (leave alive m k p).0.rooms k p none)
        ⊎ (((leave alive m k p).1.state ≢ success)
            × (seats m.rooms k p ≡ none)
            × ((leave alive m k p).0 ≡ m))
    leave-seats = elim (Option-cases (find k m.rooms)) [
      | inl absent ↦ inr (
        rw (leave_absent p absent) (λ e. cc),
        seat_absent m.rooms k p absent,
        rw (leave_absent p absent) refl,
      )
      | inr (r, f) ↦ elim (leave_lem r p (v.each k r f).0) [
        | inl (d, g, change, _) ↦
            let (there, ok) = leave_found p r f g d in
            inl (
              ok,
              rw (seat_found m.rooms k p r f) (ground (arith, g)),
              rw there (seats-update m.rooms k r _ p none f change),
            )
        | inr (_, g, _) ↦ inr (
          rw (leave_stranger p r f g) (λ e. cc),
          seat_found m.rooms k p r f ∙ (rw g refl),
          rw (leave_stranger p r f g) refl,
        )
      ]
    ]
