-- ===== src/RoomManager/Seats.antt =====
-- Which player sits in which room of src/room_manager.cpp, and through which connection.
use l_w.Base.{
  ℕ, ◌≡◌, refl, sym, ap, ◌∙◌, subst, inl, inr, List, [], ◌∷◌, Option, none, some, ◌==◌, ==_iff,
  if◌then◌else◌, arith, nat_eq, Bool-cases, Option-cases,
}
use l_w.Map.{find, contains, assign, Unique}
use l_w.Map.Laws.{find-assign, assign-Unique}
use l_w.Pointers.{WeakPtr}
use l_w.Room.{Room, Member, Members}
use l_w.Room
use l_w.Room.Invariant
use l_w.RoomManager.{RoomManager, Rooms, new, add_room, contains_room}

abbrev pub conn_of : Option Member → Option WeakPtr
conn_of none = none
conn_of (some m) = some m.connection

abbrev pub seat_in : Option Room → ℕ → Option WeakPtr
seat_in none j = none
seat_in (some r) j = conn_of (find j r.members)

-- The connection of the player `j` of room `k`, if there is such a player.
unfoldable pub seats : Rooms → ℕ → ℕ → Option WeakPtr
seats rooms k j = seat_in (find k rooms) j

-- Every room is valid and stands under its own number.
pub record IsValid (rooms : Rooms) : Type 0 where
  pub distinct : Unique rooms
  pub each : (k : ℕ) (r : Room) → find k rooms ≡ some r → Room.Invariant.IsValid r × (r.room_id ≡ k)

-- Writing back a room that has not changed changes nothing.
pub assign_found :
    {V : Type 0} (k : ℕ) (v : V) (m : List (ℕ × V)) → find k m ≡ some v → assign k v m ≡ m
unfolding find assign
assign_found k v [] h = cc
assign_found k v ((j, w) ∷ m) h = ground (arith, assign_found k v m)

module _ (rooms : Rooms) (k : ℕ) (r : Room) where
  pub put-IsValid :
      IsValid rooms → Room.Invariant.IsValid r → r.room_id ≡ k → IsValid (assign k r rooms)
  put-IsValid v w e = record {
    distinct = assign-Unique k r rooms v.distinct;
    each = λ i q f. elim (Bool-cases (k == i)) [
      | inl same ↦
          let there : some r ≡ some q = sym (find-assign k i r rooms ∙ (rw same refl)) ∙ f in
          let here : r ≡ q = ground arith in
          (subst Room.Invariant.IsValid here w, ground (arith, ap (λ x. x.room_id) here))
      | inr other ↦ v.each i q (sym (find-assign k i r rooms ∙ (rw other refl)) ∙ f)
    ];
  }

  pub seats-put :
      (i j : ℕ)
      → seats (assign k r rooms) i j
        ≡ (if k == i then conn_of (find j r.members) else seats rooms i j)
  unfolding seats
  seats-put i j = ground (arith, find-assign k i r rooms)

-- A change of a room's members at one place.
pub seats-update :
    (rooms : Rooms) (k : ℕ) (r r' : Room) (p : ℕ) (o : Option Member)
    → find k rooms ≡ some r
    → ((j : ℕ) → find j r'.members ≡ (if p == j then o else find j r.members))
    → (i j : ℕ)
    → seats (assign k r' rooms) i j
      ≡ (if k == i then (if p == j then conn_of o else seats rooms i j) else seats rooms i j)
unfolding seats
seats-update rooms k r r' p o f h i j = seats-put rooms k r' i j ∙ elim (Bool-cases (k == i)) [
  | inr other ↦ rw other refl
  | inl same ↦
      let e : k ≡ i = (==_iff k i).0 same in
      let there : find i rooms ≡ some r = subst (λ x. find x rooms ≡ some r) e f in
      elim (Bool-cases (p == j)) [
        | inl here ↦ rw same (rw (here, h j) (rw here refl))
        | inr away ↦ rw same (rw (away, h j, there) (rw away refl))
      ]
]

pub seats-same :
    (rooms : Rooms) (k : ℕ) (r r' : Room)
    → find k rooms ≡ some r
    → r'.members ≡ r.members
    → (i j : ℕ) → seats (assign k r' rooms) i j ≡ seats rooms i j
unfolding seats
seats-same rooms k r r' f h i j = seats-put rooms k r' i j ∙ elim (Bool-cases (k == i)) [
  | inr other ↦ rw other refl
  | inl same ↦
      let e : k ≡ i = (==_iff k i).0 same in
      let there : find i rooms ≡ some r = subst (λ x. find x rooms ≡ some r) e f in
      rw (same, there, h) refl
]

-- A player who sits in a room is one of its members.
pub seats_inv :
    (rooms : Rooms) (k j : ℕ) {w : WeakPtr}
    → seats rooms k j ≡ some w
    → (r : Room) × (m : Member) × (find k rooms ≡ some r)
      × (find j r.members ≡ some m)
      × (m.connection ≡ w)
unfolding seats
seats_inv rooms k j {w} e = elim (Option-cases (find k rooms)) [
  | inl absent ↦ absurd (ground (arith, absent))
  | inr (r, f) ↦ elim (Option-cases (find j r.members)) [
    | inl absent ↦ absurd (ground (arith, f, absent))
    | inr (m, g) ↦ (r, m, f, g, ground (arith, f, g))
  ]
]

pub new-IsValid : IsValid new.rooms
unfolding find
new-IsValid = record { distinct = tt; each = λ k r e. ground arith }

pub add_room-IsValid :
    (m : RoomManager) (k capacity : ℕ) → IsValid m.rooms → IsValid (add_room m k capacity).0.rooms
unfolding add_room contains_room
add_room-IsValid m k capacity v = elim (Bool-cases (contains k m.rooms)) [
  | inl taken ↦ rw taken v
  | inr free ↦ rw free (
      put-IsValid m.rooms k (Room.new k capacity) v (Room.Invariant.new-IsValid k capacity)
        (unfold Room.new in refl))
]

pub add_room-seats :
    (m : RoomManager) (k capacity i j : ℕ)
    → seats (add_room m k capacity).0.rooms i j ≡ seats m.rooms i j
unfolding add_room contains_room contains
add_room-seats m k capacity i j = elim (Option-cases (find k m.rooms)) [
  | inr (r, taken) ↦ rw taken refl
  | inl free ↦ rw free (
      seats-put m.rooms k (Room.new k capacity) i j
      ∙ unfold seats find Room.new in
        elim (Bool-cases (k == i)) [
          | inr other ↦ rw other refl
          | inl same ↦ let e : k ≡ i = (==_iff k i).0 same in rw same (rw (← e) (rw free refl))
        ])
]
