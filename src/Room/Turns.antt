-- ===== src/Room/Turns.antt =====
-- One command for each player between two ticks, in src/room.cpp.
use l_w.Base.{
  ℕ, ◌≡◌, ◌≢◌, refl, ◌⊎◌, inl, inr, Bool, true, false, List, [], ◌∷◌, none, some, arith, All,
  nat_eq, ==_refl, is_some, Bool-cases, Option-cases,
}
use l_w.Pointers.{ConnectionPtr, WeakPtr}
use l_w.Map.{find, contains, erase}
use l_w.Map.Laws.{find-assign}
use l_w.StateMachine.{is_waiting, is_running, can_join}
use l_w.StateMachine
use l_w.Room.{
  Room, Member, Members, Gamecommand, Commandstates, Commandstates-discrete, command_player, state,
  start, finish, join, leave, submit, submit_move, submit_attack, move_command, attack_command,
  tick, pending_for,
}
use l_w.Room.Binding.{bind_connection, detach_connection, rebind}
use l_w.Room.Starts.{finish_success, finish_refused}
use l_w.Room.Ticks.{
  running_not_waiting, tick_running, submit_success, submit_refused, pending_for-append,
}
use l_w.Room.Lifetime.{
  Op, starts, finishes, joins, leaves, moves, attacks, ticks, binds, detaches, restores, step, run,
  bind_outcome, detach_outcome,
}

-- An operation other than a tick and a restored checkpoint.
unfoldable pub Between : Op → Type 0
Between ticks = ⊥
Between (restores c) = ⊥
Between op = Unit

-- Why the player `k` gets no command accepted: the room does not run, the player is not in it, or a
-- command waits already. No way leads back but a tick: nobody joins a room that has started.
record IsSpent (k : ℕ) (r : Room) : Type 0 where
  past : is_waiting (state r) ≡ false
  why :
      (is_running (state r) ≡ false)
      ⊎ ((find k r.members ≡ none) ⊎ (pending_for k r.pending_commands ≡ true))

find-erase-none : (k j : ℕ) (m : Members) → find k m ≡ none → find k (erase j m) ≡ none
unfolding find erase
find-erase-none k j [] e = refl
find-erase-none k j ((i, x) ∷ m) e = ground (arith, find-erase-none k j m)

start-past : (r : Room) (ready : Bool) → is_waiting (state r) ≡ false → (start r ready).0 ≡ r
unfolding start
start-past r ready e = rw e refl

join-past :
    (r : Room) (c : ConnectionPtr) (name : List ℕ)
    → is_waiting (state r) ≡ false
    → (join r c name).0 ≡ r
unfolding join can_join
join-past r none name e = refl
join-past r (some c) name e = ground arith

leave-rest :
    (r : Room) (j : ℕ)
    → (state (leave r j).0 ≡ state r)
      × ((leave r j).0.pending_commands ≡ r.pending_commands)
      × (((leave r j).0.members ≡ r.members) ⊎ ((leave r j).0.members ≡ erase j r.members))
unfolding leave
leave-rest r j = (ground arith, ground arith, ground arith)

find-rebind :
    (r : Room) (k j : ℕ) (m : Member) (w : WeakPtr)
    → find j r.members ≡ some m
    → find k r.members ≡ none
    → find k (rebind r j m w).members ≡ none
find-rebind r k j m w f e = ground (arith, find-assign j k (record m { connection = w }) r.members)

module _ (k : ℕ) (r : Room) (v : IsSpent k r) where
  start-IsSpent : (ready : Bool) → IsSpent k (start r ready).0
  start-IsSpent ready = rw (start-past r ready v.past) v

  join-IsSpent : (c : ConnectionPtr) (name : List ℕ) → IsSpent k (join r c name).0
  join-IsSpent c name = rw (join-past r c name v.past) v

  finish-IsSpent : (should_finish : Bool) → IsSpent k (finish r should_finish).0
  finish-IsSpent should_finish =
      elim (StateMachine.Transitionstates-discrete (finish r should_finish).1
        StateMachine.success) [
          | yes h ↦
              rw ((finish_success r should_finish h).1) (record { past = refl; why = inl refl })
          | no h ↦ rw (finish_refused r should_finish h) v
        ]

  leave-IsSpent : (j : ℕ) → IsSpent k (leave r j).0
  leave-IsSpent j =
      let (machine, queue, members) = leave-rest r j in
      record {
        past = rw machine v.past;
        why = elim v.why [
          | inl stopped ↦ inl (rw machine stopped)
          | inr (inr waits) ↦ inr (inr (rw queue waits))
          | inr (inl gone) ↦ inr (
              inl (elim members [
                | inl same ↦ rw same gone
                | inr erased ↦ rw erased (find-erase-none k j r.members gone)
              ]))
        ];
      }

  submit-IsSpent : (j : ℕ) (c : Gamecommand) → command_player c ≡ j → IsSpent k (submit r j c).0
  submit-IsSpent j c own = elim (Commandstates-discrete (submit r j c).1 Commandstates.success) [
    | no h ↦ rw (submit_refused r j c own h) v
    | yes h ↦
        let (_, _, _, e) = submit_success r j c own h in
        rw e (record {
          past = v.past;
          why = elim v.why [
            | inl stopped ↦ inl stopped
            | inr (inl gone) ↦ inr (inl gone)
            | inr (inr waits) ↦
                inr (inr (ground (arith, pending_for-append k r.pending_commands c)))
          ];
        })
  ]

  rebind-IsSpent :
      (j : ℕ) (m : Member) (w : WeakPtr) → find j r.members ≡ some m → IsSpent k (rebind r j m w)
  rebind-IsSpent j m w f = record {
    past = v.past;
    why = elim v.why [
      | inl stopped ↦ inl stopped
      | inr (inl gone) ↦ inr (inl (find-rebind r k j m w f gone))
      | inr (inr waits) ↦ inr (inr waits)
    ];
  }

  bind-IsSpent :
      (alive : ℕ → Bool) (j : ℕ) (c : ConnectionPtr) → IsSpent k (bind_connection alive r j c).0
  bind-IsSpent alive j c = elim (bind_outcome alive r j c) [
    | inl (m, w, f, _, _, done) ↦ rw done (rebind-IsSpent j m w f)
    | inr (_, unchanged) ↦ rw unchanged v
  ]

  detach-IsSpent :
      (alive : ℕ → Bool) (j : ℕ) (c : ConnectionPtr) → IsSpent k (detach_connection alive r j c).0
  detach-IsSpent alive j c = elim (detach_outcome alive r j c) [
    | inl (m, f, _, done) ↦ rw done (rebind-IsSpent j m none f)
    | inr (_, unchanged) ↦ rw unchanged v
  ]

  step-IsSpent : (op : Op) → Between op → IsSpent k (step r op)
  unfolding step Between submit_move submit_attack
  step-IsSpent (starts ready) b = start-IsSpent ready
  step-IsSpent (finishes should_finish) b = finish-IsSpent should_finish
  step-IsSpent (joins c name) b = join-IsSpent c name
  step-IsSpent (leaves j) b = leave-IsSpent j
  step-IsSpent (moves j dx dy) b = submit-IsSpent j (move_command j dx dy) refl
  step-IsSpent (attacks j target) b = submit-IsSpent j (attack_command j target) refl
  step-IsSpent ticks b = absurd b
  step-IsSpent (binds alive j c) b = bind-IsSpent alive j c
  step-IsSpent (detaches alive j c) b = detach-IsSpent alive j c
  step-IsSpent (restores c) b = absurd b

run-IsSpent :
    (k : ℕ) (ops : List Op) (r : Room) → All Between ops → IsSpent k r → IsSpent k (run r ops)
unfolding run
run-IsSpent k [] r b v = v
run-IsSpent k (op ∷ ops) r b v = run-IsSpent k ops (step r op) b.1 (step-IsSpent k r v op b.0)

-- What such a player is answered.
module _ (k : ℕ) (q : Room) (d : Gamecommand) where
  stopped : is_running (state q) ≡ false → (submit q k d).1 ≡ Commandstates.invalid_state
  unfolding submit
  stopped e = ground arith

  stranger :
      is_running (state q) ≡ true
      → find k q.members ≡ none
      → (submit q k d).1 ≡ Commandstates.player_not_found
  unfolding submit contains
  stranger a e = ground arith

  again :
      is_running (state q) ≡ true
      → is_some (find k q.members) ≡ true
      → pending_for k q.pending_commands ≡ true
      → (submit q k d).1 ≡ Commandstates.already_submitted
  unfolding submit contains
  again a b e = ground arith

  first :
      is_running (state q) ≡ true
      → is_some (find k q.members) ≡ true
      → q.pending_commands ≡ []
      → (submit q k d).1 ≡ Commandstates.success
  unfolding submit contains pending_for
  first a b e = ground arith

module _ (k : ℕ) (q : Room) (d : Gamecommand) (v : IsSpent k q) where
  spent_waits :
      is_running (state q) ≡ true
      → is_some (find k q.members) ≡ true
      → pending_for k q.pending_commands ≡ true
  spent_waits a b = elim v.why [
    | inl e ↦ absurd (ground arith)
    | inr (inl e) ↦ absurd (ground arith)
    | inr (inr waits) ↦ waits
  ]

  spent_lem :
      ((submit q k d).1 ≢ Commandstates.success)
      × ((is_running (state q) ≡ false)
          ⊎ ((find k q.members ≡ none)
              ⊎ (((submit q k d).1 ≡ Commandstates.already_submitted)
                  × ((submit (tick q).0 k d).1 ≡ Commandstates.success))))
  spent_lem = elim (Bool-cases (is_running (state q))) [
    | inr off ↦ (rw (stopped k q d off) (λ e. cc), inl off)
    | inl runs ↦ elim (Option-cases (find k q.members)) [
      | inl gone ↦ (rw (stranger k q d runs gone) (λ e. cc), inr (inl gone))
      | inr (m, f) ↦
          let member : is_some (find k q.members) ≡ true = rw f refl in
          let refused = again k q d runs member (spent_waits runs member) in
          (
            rw refused (λ e. cc),
            inr (inr (refused, rw (tick_running q runs) (first k _ d runs member refl))),
          )
    ]
  ]

module _ (r : Room) (k : ℕ) (c : Gamecommand) (own : command_player c ≡ k) where
  submitted-IsSpent : (submit r k c).1 ≡ Commandstates.success → IsSpent k (submit r k c).0
  submitted-IsSpent h =
      let (running, _, _, e) = submit_success r k c own h in
      rw e (record {
        past = elim (Bool-cases (is_waiting (state r))) [
          | inl waits ↦ absurd (running_not_waiting (state r) running waits)
          | inr past ↦ past
        ];
        why = inr (inr (ground (arith, pending_for-append k r.pending_commands c, own, ==_refl k)));
      })

  -- A player whose command was accepted gets no other one accepted, of either kind, until the next
  -- tick, whatever operations come in between but a restored checkpoint: commands of others, joins,
  -- leaves, reconnections, an end of the game. If the room still runs then and the player is still a
  -- member, the answer is that a command was submitted already, and after a tick the same command is
  -- accepted.
  pub submit_once :
      (ops : List Op)
      → All Between ops
      → (submit r k c).1 ≡ Commandstates.success
      → (d : Gamecommand)
      → ((submit (run (submit r k c).0 ops) k d).1 ≢ Commandstates.success)
        × ((is_running (state (run (submit r k c).0 ops)) ≡ false)
            ⊎ ((find k (run (submit r k c).0 ops).members ≡ none)
                ⊎ (((submit (run (submit r k c).0 ops) k d).1 ≡ Commandstates.already_submitted)
                    × ((submit (tick (run (submit r k c).0 ops)).0 k d).1
                        ≡ Commandstates.success))))
  submit_once ops b h d =
      spent_lem k (run (submit r k c).0 ops) d
        (run-IsSpent k ops (submit r k c).0 b (submitted-IsSpent h))
