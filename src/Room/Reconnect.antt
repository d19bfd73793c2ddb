-- ===== src/Room/Reconnect.antt =====
-- Losing and regaining the connection of a member in src/room.cpp.
use l_w.Base.{ℕ, ◌≡◌, ◌↔◌, ap, inl, inr, Bool, true, some, arith, if◌then◌else◌, nat_eq, ◌==◌}
use l_w.Map.{find}
use l_w.Map.Laws.{find-assign_self}
use l_w.Pointers.{lock}
use l_w.Room.{Room, Member, Bindingstates}
use l_w.Room.Binding.{bind_connection, detach_connection, rebind}
use l_w.Room.Lifetime.{bind_outcome}

module _ (alive : ℕ → Bool) (r : Room) (k c : ℕ) where
  detach_bound :
      (d : ℕ) (m : Member)
      → find k r.members ≡ some m
      → lock alive m.connection ≡ some c
      → (detach_connection alive r k (some d)).1
        ≡ (if c == d then Bindingstates.success else Bindingstates.connection_mismatch)
  unfolding detach_connection
  detach_bound d m e taken = ground (arith, e, taken)

  bind_taken :
      (d : ℕ) (m : Member)
      → find k r.members ≡ some m
      → lock alive m.connection ≡ some c
      → bind_connection alive r k (some d) ≡ (r, Bindingstates.already_bound)
  unfolding bind_connection
  bind_taken d m e taken = ground (arith, e, taken)

module _ (alive : ℕ → Bool) (r : Room) (k c : ℕ) (living : alive c ≡ true) where
  -- Once a living connection is bound to a member, nobody else can be bound to that member, and a call
  -- to detach a connection succeeds exactly for the one that is bound: the closing of an older
  -- connection does not cut off the new one.
  pub bind-detach :
      (bind_connection alive r k (some c)).1 ≡ Bindingstates.success
      → (d : ℕ)
      → ((bind_connection alive (bind_connection alive r k (some c)).0 k (some d)).1
          ≡ Bindingstates.already_bound)
        × (((detach_connection alive (bind_connection alive r k (some c)).0 k (some d)).1
              ≡ Bindingstates.success)
            ↔ (c ≡ d))
  bind-detach h d = elim (bind_outcome alive r k (some c)) [
    | inl (m, w, e, _, same, done) ↦
        let bound : find k (rebind r k m w).members ≡ some (record m { connection = w }) =
          find-assign_self k (record m { connection = w }) r.members in
        let locked : lock alive w ≡ some c = rw (← same, living) in
        rw done (
          ap (λ x. x.1) (bind_taken alive (rebind r k m w) k c d _ bound locked),
          rw (detach_bound alive (rebind r k m w) k c d _ bound locked) (ground arith),
        )
    | inr (refused, _) ↦ absurd (refused h)
  ]
