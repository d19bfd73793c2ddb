-- ===== src/RoomManager/Links.antt =====
-- What src/room_manager.cpp does to the seats when a member's connection comes back or drops out.
use l_w.Base.{
  ℕ, ◌≡◌, ◌≢◌, refl, ◌∙◌, ◌⊎◌, inl, inr, Bool, none, some, arith, nat_eq, Option-cases, ==_refl,
}
use l_w.Map.{find}
use l_w.Pointers.{WeakPtr, lock}
use l_w.Room.{Room, Member}
use l_w.Room
use l_w.Room.Binding
use l_w.Room.Lifetime.{bind_outcome, detach_outcome}
use l_w.Room.Lifetime
use l_w.RoomManager.{RoomManager, put_room}
use l_w.RoomManager.Attach.{
  Bindingstates, bind_answer, detach_answer, bind_connection, detach_connection, bind_failed,
  detach_failed,
}
use l_w.RoomManager.Seats.{IsValid, seats, seats-update, seats_inv, put-IsValid}
use l_w.RoomManager.Kept.{rebind-members, rebind-room_id}
use l_w.RoomManager.Changes.{Reseats, put_same, seat_found}

module _ (k p : ℕ) (r : Room) (result : Room.Bindingstates) where
  bind_refused :
      result ≢ Room.Bindingstates.success → (bind_answer k p r result).state ≢ Bindingstates.success
  unfolding bind_answer
  bind_refused e = ground arith

  detach_refused :
      result ≢ Room.Bindingstates.success → (detach_answer k p result).state ≢ Bindingstates.success
  unfolding detach_answer
  detach_refused e = ground arith

module _ (alive : ℕ → Bool) (m : RoomManager) (v : IsValid m.rooms) (k p c : ℕ) where
  bind_absent :
      find k m.rooms ≡ none
      → bind_connection alive m k p (some c) ≡ (m, bind_failed Bindingstates.room_not_found)
  unfolding bind_connection
  bind_absent f = rw (f, bind_connection) refl

  detach_absent :
      find k m.rooms ≡ none
      → detach_connection alive m k p (some c) ≡ (m, detach_failed Bindingstates.room_not_found)
  unfolding detach_connection
  detach_absent f = rw (f, detach_connection) refl

  module _ (r : Room) (f : find k m.rooms ≡ some r) where
    abbrev bound : Room × Room.Bindingstates
    bound = Room.Binding.bind_connection alive r p (some c)

    abbrev detached : Room × Room.Bindingstates
    detached = Room.Binding.detach_connection alive r p (some c)

    bind_found :
        bind_connection alive m k p (some c)
        ≡ (put_room m k bound.0, bind_answer k p bound.0 bound.1)
    unfolding bind_connection
    bind_found = rw (f, bind_connection) refl

    detach_found :
        detach_connection alive m k p (some c)
        ≡ (put_room m k detached.0, detach_answer k p detached.1)
    unfolding detach_connection
    detach_found = rw (f, detach_connection) refl

  pub bind_connection-IsValid : IsValid (bind_connection alive m k p (some c)).0.rooms
  bind_connection-IsValid = elim (Option-cases (find k m.rooms)) [
    | inl absent ↦ rw (bind_absent absent) v
    | inr (r, f) ↦
        let (w, e) = v.each k r f in
        rw (bind_found r f) (
          put-IsValid m.rooms k _ v (Room.Lifetime.bind_connection-IsValid alive r p (some c) w)
            (elim (bind_outcome alive r p (some c)) [
              | inl (x, y, _, _, _, done) ↦ rw done (rebind-room_id r p x y ∙ e)
              | inr (_, same) ↦ rw same e
            ]))
  ]

  pub detach_connection-IsValid : IsValid (detach_connection alive m k p (some c)).0.rooms
  detach_connection-IsValid = elim (Option-cases (find k m.rooms)) [
    | inl absent ↦ rw (detach_absent absent) v
    | inr (r, f) ↦
        let (w, e) = v.each k r f in
        rw (detach_found r f) (
          put-IsValid m.rooms k _ v (Room.Lifetime.detach_connection-IsValid alive r p (some c) w)
            (elim (detach_outcome alive r p (some c)) [
              | inl (x, _, _, done) ↦ rw done (rebind-room_id r p x none ∙ e)
              | inr (_, same) ↦ rw same e
            ]))
  ]

  -- A connection is bound to a seat whose own connection no longer lives, and then it has that seat,
  -- which the answer names, and every other seat is as it was; or it is refused and nothing has changed.
  pub bind_connection-seats :
      (let (m', result) = bind_connection alive m k p (some c) in
        (result.state ≡ Bindingstates.success)
        × ((result.room_id ≡ k) × (result.player_id ≡ p))
        × ((w : WeakPtr) × (seats m.rooms k p ≡ some w) × (lock alive w ≡ none))
        × Reseats m.rooms m'.rooms k p (some (some c)))
      ⊎ (((bind_connection alive m k p (some c)).1.state ≢ Bindingstates.success)
          × ((bind_connection alive m k p (some c)).0 ≡ m))
  bind_connection-seats = elim (Option-cases (find k m.rooms)) [
    | inl absent ↦ rw (bind_absent absent) (inr (λ e. cc, refl))
    | inr (r, f) ↦ rw (bind_found r f) (elim (bind_outcome alive r p (some c)) [
      | inl (x, y, g, free, who, done) ↦ inl (
        rw done (unfold bind_answer in refl),
        rw done (unfold bind_answer in (refl, refl)),
        (x.connection, seat_found m.rooms k p r f ∙ (rw g refl), free),
        rw (done, ← who)
            (seats-update m.rooms k r _ p (some (record x { connection = some c })) f
              (rebind-members r p x (some c))),
      )
      | inr (refused, same) ↦ inr (bind_refused k p _ _ refused, rw same (put_same m k r f))
    ])
  ]

  -- A connection is taken from the seat that it has while it lives, which stays taken without one, and
  -- every other seat is as it was; or the call is refused and nothing has changed.
  pub detach_connection-seats :
      (let (m', result) = detach_connection alive m k p (some c) in
        (result.state ≡ Bindingstates.success)
        × ((w : WeakPtr) × (seats m.rooms k p ≡ some w) × (lock alive w ≡ some c))
        × Reseats m.rooms m'.rooms k p (some none))
      ⊎ (((detach_connection alive m k p (some c)).1.state ≢ Bindingstates.success)
          × ((detach_connection alive m k p (some c)).0 ≡ m))
  detach_connection-seats = elim (Option-cases (find k m.rooms)) [
    | inl absent ↦ rw (detach_absent absent) (inr (λ e. cc, refl))
    | inr (r, f) ↦ rw (detach_found r f) (elim (detach_outcome alive r p (some c)) [
      | inl (x, g, free, done) ↦ inl (
        rw done (unfold detach_answer in refl),
        (x.connection, seat_found m.rooms k p r f ∙ (rw g refl), free),
        rw done (
            seats-update m.rooms k r _ p (some (record x { connection = none })) f
              (rebind-members r p x none)),
      )
      | inr (refused, same) ↦ inr (detach_refused k p r _ refused, rw same (put_same m k r f))
    ])
  ]

  room_binds :
      (r : Room) (x : Member)
      → find p r.members ≡ some x
      → lock alive x.connection ≡ none
      → (Room.Binding.bind_connection alive r p (some c)).1 ≡ Room.Bindingstates.success
  unfolding Room.Binding.bind_connection
  room_binds r x g free = ground arith

  room_detaches :
      (r : Room) (x : Member)
      → find p r.members ≡ some x
      → lock alive x.connection ≡ some c
      → (Room.Binding.detach_connection alive r p (some c)).1 ≡ Room.Bindingstates.success
  unfolding Room.Binding.detach_connection
  room_detaches r x g own = ground (arith, ==_refl c)

  -- A seat without a living connection takes one.
  pub bind_takes :
      {w : WeakPtr}
      → seats m.rooms k p ≡ some w
      → lock alive w ≡ none
      → (bind_connection alive m k p (some c)).1.state ≡ Bindingstates.success
  bind_takes {w} e free =
      let (r, x, f, g, same) = seats_inv m.rooms k p {w = w} e in
      rw (bind_found r f) (rw (room_binds r x g (rw same free)) (unfold bind_answer in refl))

  -- A living connection can be taken from its seat.
  pub detach_takes :
      {w : WeakPtr}
      → seats m.rooms k p ≡ some w
      → lock alive w ≡ some c
      → (detach_connection alive m k p (some c)).1.state ≡ Bindingstates.success
  detach_takes {w} e own =
      let (r, x, f, g, same) = seats_inv m.rooms k p {w = w} e in
      rw (detach_found r f) (rw (room_detaches r x g (rw same own)) (unfold detach_answer in refl))
