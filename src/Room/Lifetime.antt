-- ===== src/Room/Lifetime.antt =====
-- A room of src/room.cpp under any sequence of its operations.
use l_w.Base.{
  ℕ, ◌<◌, ◌≡◌, ◌≢◌, refl, sym, ap, ◌∙◌, ◌⊎◌, inl, inr, Bool, List, [], ◌∷◌, Option, none, some,
  arith, All, Bool-cases, Option-cases, nat_eq, ◌==◌,
}
use l_w.Int.{ℤ}
use l_w.Map.{find}
use l_w.Map.Laws.{assign-Unique, length-assign, All-find, All-assign}
use l_w.Map.Keys.{assign-SameKeys}
use l_w.Pointers.{ConnectionPtr, WeakPtr, lock}
use l_w.Room.{
  Room, Member, Bindingstates, new, start, finish, join, leave, submit_move, submit_attack, tick,
  move_command, attack_command,
}
use l_w.Room.Binding.{bind_connection, detach_connection, rebind}
use l_w.Room.Invariant.{IsMember, IsValid, new-IsValid}
use l_w.Room.Joins.{join-IsValid, join-none}
use l_w.Room.Leaves.{leave-IsValid}
use l_w.Room.Starts.{start-IsValid, finish-IsValid}
use l_w.Room.Ticks.{submit-IsValid, tick-IsValid}
use l_w.Room.Persist.{restore_checkpoint}
use l_w.Room.Recovered.{restore_checkpoint-IsValid}
use l_w.Bytes.{u64_mod}
use l_w.Checkpoint.{RoomCheckpoint}

rebind-IsValid :
    (r : Room) (k : ℕ) (m : Member) (w : WeakPtr)
    → IsValid r
    → find k r.members ≡ some m
    → IsValid (rebind r k m w)
rebind-IsValid r k m w v e = record {
  distinct = assign-Unique k (record m { connection = w }) r.members v.distinct;
  each =
      All-assign IsMember k (record m { connection = w }) r.members v.each
        (let i = All-find IsMember k r.members v.each e in
          record {
            own_key = i.own_key;
            nonzero = i.nonzero;
            name_low = i.name_low;
            name_high = i.name_high;
          });
  within =
      omega (arith, length-assign k (record m { connection = w }) r.members {old = m} e, v.within);
  counter = v.counter;
  fresh = elim v.fresh [
    | inl exhausted ↦ inl exhausted
    | inr below ↦ inr (
        All-assign (λ x. x.0 < r.next_player_id) k (record m { connection = w }) r.members below
          (All-find (λ x. x.0 < r.next_player_id) k r.members below e))
  ];
  game = v.game;
  phase = elim v.phase [
    | inl b ↦ inl (record { machine = b.machine; no_players = b.no_players; no_ticks = b.no_ticks })
    | inr s ↦ inr (record {
      machine = s.machine;
      as_many =
          omega
            (arith, length-assign k (record m { connection = w }) r.members {old = m} e, s.as_many);
      same = λ j.
          s.same j ∙ sym (assign-SameKeys k r.members (record m { connection = w }) {old = m} e j);
    })
  ];
  clock = v.clock;
  queue = v.queue;
  once = v.once;
}

module _ (alive : ℕ → Bool) (r : Room) (k : ℕ) where
  -- Binding gives a member without a living connection a new one, or leaves the room alone.
  pub bind_outcome :
      (c : ConnectionPtr)
      → ((m : Member) × (w : WeakPtr) × (find k r.members ≡ some m)
          × (lock alive m.connection ≡ none)
          × (c ≡ w)
          × (bind_connection alive r k c ≡ (rebind r k m w, Bindingstates.success)))
        ⊎ (((bind_connection alive r k c).1 ≢ Bindingstates.success)
            × ((bind_connection alive r k c).0 ≡ r))
  unfolding bind_connection
  bind_outcome none = inr (λ e. cc, refl)
  bind_outcome (some c) = elim (Option-cases (find k r.members)) [
    | inl absent ↦ inr (ground (arith, absent), ground (arith, absent))
    | inr (m, e) ↦ elim (Option-cases (lock alive m.connection)) [
      | inl free ↦ inl (m, some c, e, free, refl, ground (arith, e, free))
      | inr (d, taken) ↦ inr (ground (arith, e, taken), ground (arith, e, taken))
    ]
  ]

  -- Detaching takes the living connection from the member whose connection it is, or leaves the room
  -- alone.
  pub detach_outcome :
      (c : ConnectionPtr)
      → ((m : Member) × (find k r.members ≡ some m)
          × (lock alive m.connection ≡ c)
          × (detach_connection alive r k c ≡ (rebind r k m none, Bindingstates.success)))
        ⊎ (((detach_connection alive r k c).1 ≢ Bindingstates.success)
            × ((detach_connection alive r k c).0 ≡ r))
  unfolding detach_connection
  detach_outcome none = inr (λ e. cc, refl)
  detach_outcome (some c) = elim (Option-cases (find k r.members)) [
    | inl absent ↦ inr (ground (arith, absent), ground (arith, absent))
    | inr (m, e) ↦ elim (Option-cases (lock alive m.connection)) [
      | inl free ↦ inr (ground (arith, e, free), ground (arith, e, free))
      | inr (d, taken) ↦ elim (Bool-cases (d == c)) [
        | inl same ↦
            let who : d ≡ c = ground arith in
            inl (m, e, taken ∙ ap some who, ground (arith, e, taken))
        | inr other ↦ inr (ground (arith, e, taken), ground (arith, e, taken))
      ]
    ]
  ]

  pub bind_connection-IsValid :
      (c : ConnectionPtr) → IsValid r → IsValid (bind_connection alive r k c).0
  bind_connection-IsValid c v = elim (bind_outcome c) [
    | inl (m, w, e, _, _, done) ↦ rw done (rebind-IsValid r k m w v e)
    | inr (_, unchanged) ↦ rw unchanged v
  ]

  pub detach_connection-IsValid :
      (c : ConnectionPtr) → IsValid r → IsValid (detach_connection alive r k c).0
  detach_connection-IsValid c v = elim (detach_outcome c) [
    | inl (m, e, _, done) ↦ rw done (rebind-IsValid r k m none v e)
    | inr (_, unchanged) ↦ rw unchanged v
  ]

-- The operations that change a room; those that look at connections are given which ones are alive.
pub data Op : Type 0 where
  starts finishes : Bool → Op
  joins : ConnectionPtr → List ℕ → Op
  leaves : ℕ → Op
  moves : ℕ → ℤ → ℤ → Op
  attacks : ℕ → ℕ → Op
  ticks : Op
  binds detaches : (ℕ → Bool) → ℕ → ConnectionPtr → Op
  restores : RoomCheckpoint → Op

-- A restored checkpoint replaces the room; one that is refused leaves it alone.
abbrev pub restored : Room → Option Room → Room
restored r none = r
restored r (some s) = s

unfoldable pub step : Room → Op → Room
step r (starts ready) = (start r ready).0
step r (finishes should_finish) = (finish r should_finish).0
step r (joins c name) = (join r c name).0
step r (leaves k) = (leave r k).0
step r (moves k dx dy) = (submit_move r k dx dy).0
step r (attacks k target) = (submit_attack r k target).0
step r ticks = (tick r).0
step r (binds alive k c) = (bind_connection alive r k c).0
step r (detaches alive k c) = (detach_connection alive r k c).0
step r (restores c) = restored r (restore_checkpoint r c)

-- The counter and the tick of a checkpoint that is restored have 64 bits.
unfoldable pub Fits : Op → Type 0
Fits (restores c) = (c.next_player_id < u64_mod) × (c.tick_id < u64_mod)
Fits op = Unit

unfoldable pub run : Room → List Op → Room
run r [] = r
run r (op ∷ ops) = run (step r op) ops

restored-IsValid :
    (r : Room) (c : RoomCheckpoint)
    → c.next_player_id < u64_mod
    → c.tick_id < u64_mod
    → IsValid r
    → IsValid (restored r (restore_checkpoint r c))
restored-IsValid r c counter clock v = elim (Option-cases (restore_checkpoint r c)) [
  | inl refused ↦ rw refused v
  | inr (s, e) ↦ rw e (restore_checkpoint-IsValid r c {s = s} counter clock e)
]

pub step-IsValid : (r : Room) (op : Op) → Fits op → IsValid r → IsValid (step r op)
unfolding step Fits submit_move submit_attack
step-IsValid r (starts ready) f v = start-IsValid r ready v
step-IsValid r (finishes should_finish) f v = finish-IsValid r should_finish v
step-IsValid r (joins none name) f v = rw (join-none r name) v
step-IsValid r (joins (some c) name) f v = join-IsValid r c name v
step-IsValid r (leaves k) f v = leave-IsValid r k v
step-IsValid r (moves k dx dy) f v = submit-IsValid r k (move_command k dx dy) refl v
step-IsValid r (attacks k target) f v = submit-IsValid r k (attack_command k target) refl v
step-IsValid r ticks f v = tick-IsValid r v
step-IsValid r (binds alive k c) f v = bind_connection-IsValid alive r k c v
step-IsValid r (detaches alive k c) f v = detach_connection-IsValid alive r k c v
step-IsValid r (restores c) f v = restored-IsValid r c f.0 f.1 v

pub run-IsValid : (ops : List Op) (r : Room) → All Fits ops → IsValid r → IsValid (run r ops)
unfolding run
run-IsValid [] r f v = v
run-IsValid (op ∷ ops) r f v = run-IsValid ops (step r op) f.1 (step-IsValid r op f.0 v)

-- A new room is valid and stays valid under every sequence of operations, restored checkpoints with
-- numbers of 64 bits included: members under distinct ids that the counter has passed, with proper
-- names and within the capacity; a valid game whose players are the members once it has started; no
-- queue but while it runs, and no player twice in it.
pub run-new-IsValid :
    (room_id capacity : ℕ) (ops : List Op) → All Fits ops → IsValid (run (new room_id capacity) ops)
run-new-IsValid room_id capacity ops f = run-IsValid ops _ f (new-IsValid room_id capacity)
