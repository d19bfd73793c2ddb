-- ===== src/RoomManager/Games.antt =====
-- The operations of src/room_manager.cpp that leave the seats alone: starts, commands and ticks.
use l_w.Base.{
  ℕ, ◌≡◌, refl, ◌∙◌, sym, ap, subst, inl, inr, Bool, true, [], ◌∷◌, Option, none, some, ltb, ◌==◌,
  arith, nat_eq, Bool-cases, Option-cases,
}
use l_w.Int.{ℤ}
use l_w.Map.{find, assign, Unique}
use l_w.StateMachine.{is_running}
use l_w.Room.{
  Room, Commandstates, Gamecommand, move_command, attack_command, state, has_member, member_count,
}
use l_w.Room
use l_w.Room.Invariant
use l_w.Room.Starts.{start-IsValid}
use l_w.Room.Ticks.{submit-IsValid, tick-IsValid, tick_stopped}
use l_w.RoomManager.{RoomManager, Rooms, start_if_full, submit, move, attack, tick_all, tick_rooms}
use l_w.RoomManager.Seats.{IsValid, seats, seats-same, put-IsValid}
use l_w.RoomManager.Kept.{start-members, submit-members, tick-members}

-- Valid rooms with the seats of these.
pub record Keeps (before after : Rooms) : Type 0 where
  pub valid : IsValid after
  pub same_seats : (i j : ℕ) → seats after i j ≡ seats before i j

Keeps-refl : {rooms : Rooms} → IsValid rooms → Keeps rooms rooms
Keeps-refl v = record { valid = v; same_seats = λ i j. refl }

put-Keeps :
    (rooms : Rooms) (k : ℕ) (r r' : Room)
    → IsValid rooms
    → find k rooms ≡ some r
    → Room.Invariant.IsValid r'
    → (r'.members ≡ r.members) × (r'.room_id ≡ r.room_id)
    → Keeps rooms (assign k r' rooms)
put-Keeps rooms k r r' v f w (members, id) = record {
  valid = put-IsValid rooms k r' v w (id ∙ (v.each k r f).1);
  same_seats = seats-same rooms k r r' f members;
}

module _ (m : RoomManager) (v : IsValid m.rooms) where
  -- `start_if_full` keeps the rooms valid and everyone in the seat that they have.
  pub start_if_full-Keeps : (k : ℕ) → Keeps m.rooms (start_if_full m k).0.rooms
  unfolding start_if_full
  start_if_full-Keeps k = elim (Option-cases (find k m.rooms)) [
    | inl absent ↦ rw (absent, start_if_full) (Keeps-refl v)
    | inr (r, f) ↦ elim (Bool-cases (ltb (member_count r) r.capacity)) [
      | inl few ↦ rw (f, start_if_full) (rw few (Keeps-refl v))
      | inr enough ↦ elim (Bool-cases (ltb r.capacity (member_count r))) [
        | inl many ↦ rw (f, start_if_full) (rw enough (rw many (Keeps-refl v)))
        | inr full ↦
            rw (f, start_if_full)
              (rw enough (
                rw full (
                  put-Keeps m.rooms k r _ v f (start-IsValid r true (v.each k r f).0)
                    (start-members r true))))
      ]
    ]
  ]

  submit-Keeps :
      (k p : ℕ) (c : Gamecommand)
      → Room.command_player c ≡ p
      → Keeps m.rooms (submit m k p (λ r. Room.submit r p c)).0.rooms
  unfolding submit
  submit-Keeps k p c own = elim (Option-cases (find k m.rooms)) [
    | inl absent ↦ rw (absent, submit) (Keeps-refl v)
    | inr (r, f) ↦ elim (Bool-cases (has_member r p)) [
      | inr stranger ↦ rw (f, submit) (rw stranger (Keeps-refl v))
      | inl member ↦
          rw (f, submit)
            (rw member (
              put-Keeps m.rooms k r _ v f (submit-IsValid r p c own (v.each k r f).0)
                (submit-members r p c)))
    ]
  ]

  pub move-Keeps : (k p : ℕ) (dx dy : ℤ) → Keeps m.rooms (move m k p dx dy).0.rooms
  unfolding move Room.submit_move
  move-Keeps k p dx dy = submit-Keeps k p (move_command p dx dy) refl

  pub attack-Keeps : (k p target : ℕ) → Keeps m.rooms (attack m k p target).0.rooms
  unfolding attack Room.submit_attack
  attack-Keeps k p target = submit-Keeps k p (attack_command p target) refl

-- What a round of ticks leaves of a room.
abbrev ticked : Option Room → Option Room
ticked none = none
ticked (some r) = some (Room.tick r).0

module _ (alive : ℕ → Bool) where
  tick_all_head :
      (k : ℕ) (r : Room) (rooms : Rooms)
      → (tick_all alive ((k, r) ∷ rooms)).0 ≡ (k, (Room.tick r).0) ∷ (tick_all alive rooms).0
  unfolding tick_all
  tick_all_head k r rooms = elim (Bool-cases (is_running (state r))) [
    | inl runs ↦ rw runs refl
    | inr stopped ↦ rw stopped (rw ((tick_stopped r stopped).0) refl)
  ]

  find-tick_all : (rooms : Rooms) (i : ℕ) → find i (tick_all alive rooms).0 ≡ ticked (find i rooms)
  unfolding find
  find-tick_all [] i = unfold tick_all in refl
  find-tick_all ((k, r) ∷ rooms) i = rw (tick_all_head k r rooms) (elim (Bool-cases (k == i)) [
    | inl here ↦ rw here refl
    | inr there ↦ rw there (find-tick_all rooms i)
  ])

  tick_all-Unique : (rooms : Rooms) → Unique rooms → Unique (tick_all alive rooms).0
  tick_all-Unique [] u = unfold tick_all in tt
  tick_all-Unique ((k, r) ∷ rooms) u =
      rw (tick_all_head k r rooms)
        (find-tick_all rooms k ∙ (rw (u.0) refl), tick_all-Unique rooms u.1)

  -- A round of ticks keeps the rooms valid and everyone in the seat that they have.
  pub tick_rooms-Keeps :
      (m : RoomManager) → IsValid m.rooms → Keeps m.rooms (tick_rooms alive m).0.rooms
  unfolding tick_rooms
  tick_rooms-Keeps m v = record {
    valid = record {
      distinct = tick_all-Unique m.rooms v.distinct;
      each = λ k q f. elim (Option-cases (find k m.rooms)) [
        | inl absent ↦ absurd (ground (arith, find-tick_all m.rooms k, absent))
        | inr (r, g) ↦
            let there : some (Room.tick r).0 ≡ some q =
              sym (find-tick_all m.rooms k ∙ (rw g refl)) ∙ f in
            let here : (Room.tick r).0 ≡ q = ground arith in
            let (w, e) = v.each k r g in
            (
              subst Room.Invariant.IsValid here (tick-IsValid r w),
              sym (ap (λ x. x.room_id) here) ∙ ((tick-members r).1 ∙ e),
            )
      ];
    };
    same_seats = λ k j.
        unfold seats in
        elim (Option-cases (find k m.rooms)) [
          | inl absent ↦ rw (find-tick_all m.rooms k) (rw absent refl)
          | inr (r, g) ↦ rw (find-tick_all m.rooms k) (rw g (rw ((tick-members r).0) refl))
        ];
  }
