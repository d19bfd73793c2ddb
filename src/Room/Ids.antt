-- ===== src/Room/Ids.antt =====
-- The player ids that a room of src/room.cpp gives out.
use l_w.Base.{
  ℕ, ◌+◌, ◌%◌, ◌≤◌, ◌<◌, ◌≡◌, refl, ap, ◌⊎◌, inl, inr, Bool, List, [], ◌∷◌, none, some, arith, sym,
  All, Option-cases,
}
use l_w.Bytes.{u64_mod}
use l_w.Int.{ℤ}
use l_w.Pointers.{ConnectionPtr}
use l_w.Room.{
  Room, Joinstates, start, finish, join, leave, submit_move, submit_attack, submit, tick, begin,
}
use l_w.Room.Binding.{bind_connection, detach_connection}
use l_w.Room.Invariant.{IsValid}
use l_w.Checkpoint.{RoomCheckpoint}
use l_w.Room.Persist.{make_checkpoint, restore_checkpoint}
use l_w.Room.Recovered.{accepted}
use l_w.Room.Joins.{CanJoin-joins, join_success, join-IsValid}
use l_w.Room.Lifetime.{
  Op, Fits, restores, restored, starts, finishes, joins, leaves, moves, attacks, ticks, binds,
  detaches, step, run, step-IsValid, bind_outcome, detach_outcome,
}

-- The counter is used up, or has not gone back.
abbrev pub Later : Room → Room → Type 0
Later r s =
    (s.next_player_id ≡ 0) ⊎ ((0 < r.next_player_id) × (r.next_player_id ≤ s.next_player_id))

start-next : (r : Room) (ready : Bool) → (start r ready).0.next_player_id ≡ r.next_player_id
unfolding start begin
start-next r ready = ground arith

finish-next : (r : Room) (b : Bool) → (finish r b).0.next_player_id ≡ r.next_player_id
unfolding finish
finish-next r b = ground arith

leave-next : (r : Room) (k : ℕ) → (leave r k).0.next_player_id ≡ r.next_player_id
unfolding leave
leave-next r k = ground arith

join-next :
    (r : Room) (c : ConnectionPtr) (name : List ℕ)
    → ((join r c name).0.next_player_id ≡ r.next_player_id)
      ⊎ ((0 < r.next_player_id)
          × ((join r c name).0.next_player_id ≡ (r.next_player_id + 1) % u64_mod))
unfolding join
join-next r none name = inl refl
join-next r (some c) name = ground arith

bind-next :
    (alive : ℕ → Bool) (r : Room) (k : ℕ) (c : ConnectionPtr)
    → (bind_connection alive r k c).0.next_player_id ≡ r.next_player_id
bind-next alive r k c = elim (bind_outcome alive r k c) [
  | inl (m, w, _, _, _, done) ↦ rw done
  | inr (_, unchanged) ↦ rw unchanged
]

detach-next :
    (alive : ℕ → Bool) (r : Room) (k : ℕ) (c : ConnectionPtr)
    → (detach_connection alive r k c).0.next_player_id ≡ r.next_player_id
detach-next alive r k c = elim (detach_outcome alive r k c) [
  | inl (m, _, _, done) ↦ rw done
  | inr (_, unchanged) ↦ rw unchanged
]

tick-next : (r : Room) → (tick r).0.next_player_id ≡ r.next_player_id
unfolding tick
tick-next r = ground arith

submit_move-next :
    (r : Room) (k : ℕ) (dx dy : ℤ) → (submit_move r k dx dy).0.next_player_id ≡ r.next_player_id
unfolding submit_move submit
submit_move-next r k dx dy = ground arith

submit_attack-next :
    (r : Room) (k t : ℕ) → (submit_attack r k t).0.next_player_id ≡ r.next_player_id
unfolding submit_attack submit
submit_attack-next r k t = ground arith

same_next : (r s : Room) → s.next_player_id ≡ r.next_player_id → Later r s
same_next r s e = ground arith

-- A checkpoint that is restored does not set the counter back.
unfoldable pub Onward : Room → Op → Type 0
Onward r (restores c) =
    (c.next_player_id ≡ 0) ⊎ ((0 < r.next_player_id) × (r.next_player_id ≤ c.next_player_id))
Onward r op = Unit

unfoldable pub AllOnward : Room → List Op → Type 0
AllOnward r [] = Unit
AllOnward r (op ∷ ops) = Onward r op × AllOnward (step r op) ops

restore-next :
    (r s : Room) (c : RoomCheckpoint)
    → restore_checkpoint r c ≡ some s
    → s.next_player_id ≡ c.next_player_id
restore-next r s c e = ap (λ x. x.next_player_id) (sym (accepted r c {s = s} e).made)

restored-Later :
    (r : Room) (c : RoomCheckpoint)
    → (c.next_player_id ≡ 0) ⊎ ((0 < r.next_player_id) × (r.next_player_id ≤ c.next_player_id))
    → Later r (restored r (restore_checkpoint r c))
restored-Later r c o = elim (Option-cases (restore_checkpoint r c)) [
  | inl refused ↦ rw refused (same_next r r refl)
  | inr (s, e) ↦ rw e (rw (restore-next r s c e) o)
]

step-Later : (r : Room) (op : Op) → Onward r op → IsValid r → Later r (step r op)
unfolding step Onward
step-Later r (starts ready) o v = same_next r (start r ready).0 (start-next r ready)
step-Later r (finishes b) o v = same_next r (finish r b).0 (finish-next r b)
step-Later r (joins c name) o v = ground (arith, join-next r c name, v.counter)
step-Later r (leaves k) o v = same_next r (leave r k).0 (leave-next r k)
step-Later r (moves k dx dy) o v =
    same_next r (submit_move r k dx dy).0 (submit_move-next r k dx dy)
step-Later r (attacks k t) o v = same_next r (submit_attack r k t).0 (submit_attack-next r k t)
step-Later r ticks o v = same_next r (tick r).0 (tick-next r)
step-Later r (binds alive k c) o v =
    same_next r (bind_connection alive r k c).0 (bind-next alive r k c)
step-Later r (detaches alive k c) o v =
    same_next r (detach_connection alive r k c).0 (detach-next alive r k c)
step-Later r (restores c) o v = restored-Later r c o

Later-trans : (r s t : Room) → Later r s → Later s t → Later r t
Later-trans r s t h k = ground arith

run-Later :
    (ops : List Op) (r : Room) → All Fits ops → AllOnward r ops → IsValid r → Later r (run r ops)
unfolding run AllOnward
run-Later [] r f o v = same_next r r refl
run-Later (op ∷ ops) r f o v =
    Later-trans r (step r op) (run (step r op) ops) (step-Later r op o.0 v)
      (run-Later ops (step r op) f.1 o.1 (step-IsValid r op f.0 v))

module _ (r : Room) (v : IsValid r) (c d : ℕ) (name name' : List ℕ) (ops : List Op) where
  -- Whoever joins a valid room later gets a larger id than whoever joined before, after any operations
  -- in between, restored checkpoints included if their numbers have 64 bits and none sets the room's
  -- id counter back: then no id is given out twice.
  pub ids_grow :
      All Fits ops
      → AllOnward (join r (some c) name).0 ops
      → (join r (some c) name).1.state ≡ Joinstates.success
      → (join (run (join r (some c) name).0 ops) (some d) name').1.state ≡ Joinstates.success
      → (join r (some c) name).1.player_id
        < (join (run (join r (some c) name).0 ops) (some d) name').1.player_id
  ids_grow f o h k =
      let first = join r (some c) name in
      let later = run first.0 ops in
      let before = join_success r c name h in
      let after = join_success later d name' k in
      omega (
        arith,
        v.counter,
        before.id_left,
        after.id_left,
        run-Later ops first.0 f o (join-IsValid r c name v),
        ap (λ x. x.0.next_player_id) (CanJoin-joins r c name before),
        ap (λ x. x.1.player_id) (CanJoin-joins r c name before),
        ap (λ x. x.1.player_id) (CanJoin-joins later d name' after),
      )

-- A checkpoint of the room itself does not set its counter back.
pub own-Onward : (r : Room) → Onward r (restores (make_checkpoint r))
unfolding Onward make_checkpoint
own-Onward r = ground arith
