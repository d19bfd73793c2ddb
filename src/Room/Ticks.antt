-- ===== src/Room/Ticks.antt =====
-- Commands and ticks of src/room.cpp.
use l_w.Base.{
  ℕ, ◌+◌, ◌%◌, ◌≤◌, ◌≡◌, ◌≢◌, refl, ◌∙◌, ◌⊎◌, inl, inr, true, false, ◌||◌, List, [], ◌∷◌, ◌++◌,
  some, length, arith, Bool-cases, nat_eq, ◌==◌, is_some,
}
use l_w.Bytes.{u64_mod}
use l_w.Map.{find, contains}
use l_w.StateMachine.{States, is_running, is_waiting}
use l_w.Game.{Gamestate, PlayerGameState}
use l_w.Game
use l_w.Room.{
  Room, Gamecommand, command_player, Commandstates, Commandstates-discrete, Tickstates, state,
  submit, pending_for, process_all, tick,
}
use l_w.Room.Invariant.{IsValid, Before, Started, OncePerPlayer}
use l_w.Room.Batch.{
  Drifts, process_all-SamePlayers, process_all-Drifts, process_all-IsValid, process_all-le,
  OncePerPlayer-le,
}

pub running_not_waiting : (s : States) → is_running s ≡ true → is_waiting s ≡ true → ⊥
running_not_waiting s h k = ground arith

module _ (r : Room) where
  pub tick_running :
      is_running (state r) ≡ true
      → tick r ≡ (
        record r {
          game_state = (process_all r.game_state 0 r.pending_commands).0;
          tick_id = (r.tick_id + 1) % u64_mod;
          pending_commands = [];
        },
        record {
          state = Tickstates.success;
          tick_id = (r.tick_id + 1) % u64_mod;
          processed_commands = length r.pending_commands;
          successful_commands = (process_all r.game_state 0 r.pending_commands).1;
          snapshot = Game.snapshot (process_all r.game_state 0 r.pending_commands).0;
        },
      )
  unfolding tick
  tick_running h = rw h

  pub tick_stopped :
      is_running (state r) ≡ false
      → ((tick r).0 ≡ r) × ((tick r).1.state ≡ Tickstates.invalid_state)
  unfolding tick
  tick_stopped h = (rw h, rw h)

  module _ (v : IsValid r) where
    ticked-phase : is_running (state r) ≡ true → Before (tick r).0 ⊎ Started (tick r).0
    ticked-phase h = elim v.phase [
      | inl b ↦ absurd (running_not_waiting (state r) h b.machine)
      | inr s ↦
          let (l, k) = process_all-SamePlayers r.pending_commands r.game_state 0 v.game in
          rw (tick_running h) (
            inr
              (record { machine = s.machine; as_many = l ∙ s.as_many; same = λ j. k j ∙ s.same j }))
    ]

    pub tick-IsValid : IsValid (tick r).0
    tick-IsValid = elim (Bool-cases (is_running (state r))) [
      | inl h ↦
          let phase = ticked-phase h in
          rw (tick_running h) (record {
            distinct = v.distinct;
            each = v.each;
            within = v.within;
            counter = v.counter;
            fresh = v.fresh;
            game = process_all-IsValid r.pending_commands r.game_state 0 v.game;
            phase = rw (tick_running h) at phase;
            clock = omega arith;
            queue = inl h;
            once = tt;
          })
      | inr h ↦ rw ((tick_stopped h).0) v
    ]

    -- A tick of a running room empties the queue, counts every queued command as processed and at most
    -- that many as successful, and carries each player of the game at most one cell from where it was,
    -- with at most the health that it had.
    pub tick_lem :
        is_running (state r) ≡ true
        → ((tick r).0.pending_commands ≡ [])
          × ((tick r).1.processed_commands ≡ length r.pending_commands)
          × ((tick r).1.successful_commands ≤ length r.pending_commands)
          × ((j : ℕ) (p : PlayerGameState)
              → find j r.game_state.players ≡ some p
              → (q : PlayerGameState) × (find j (tick r).0.game_state.players ≡ some q)
                × Drifts 1 p q)
    tick_lem h = (
      rw (tick_running h),
      rw (tick_running h),
      rw (tick_running h) (omega (arith, process_all-le r.pending_commands r.game_state 0)),
      λ j p e.
          let (q, f, d) = process_all-Drifts r.pending_commands r.game_state 0 v.game j p e in
          (
            q,
            rw (tick_running h) f,
            omega (arith, d, OncePerPlayer-le j r.pending_commands v.once),
          ),
    )

-- Queueing a command.
pub pending_for-append :
    (k : ℕ) (cs : List Gamecommand) (c : Gamecommand)
    → pending_for k (cs ++ c ∷ []) ≡ (pending_for k cs || command_player c == k)
unfolding pending_for
pending_for-append k [] c = ground arith
pending_for-append k (x ∷ cs) c = ground (arith, pending_for-append k cs c)

OncePerPlayer-append :
    (cs : List Gamecommand) (c : Gamecommand)
    → OncePerPlayer cs
    → pending_for (command_player c) cs ≡ false
    → OncePerPlayer (cs ++ c ∷ [])
unfolding pending_for
OncePerPlayer-append [] c o h = (refl, tt)
OncePerPlayer-append (x ∷ cs) c o h = (
  ground (arith, pending_for-append (command_player x) cs c, o.0),
  OncePerPlayer-append cs c o.1 (ground arith),
)

module _ (r : Room) (k : ℕ) (c : Gamecommand) (own : command_player c ≡ k) where
  abbrev queued : Room
  queued = record r { pending_commands = r.pending_commands ++ c ∷ [] }

  pub submit_success :
      (submit r k c).1 ≡ Commandstates.success
      → (is_running (state r) ≡ true)
        × (is_some (find k r.members) ≡ true)
        × (pending_for k r.pending_commands ≡ false)
        × ((submit r k c).0 ≡ queued)
  unfolding submit contains
  submit_success h = ground arith

  pub submit_refused : (submit r k c).1 ≢ Commandstates.success → (submit r k c).0 ≡ r
  unfolding submit
  submit_refused h = ground arith

  pub submit-IsValid : IsValid r → IsValid (submit r k c).0
  submit-IsValid v = elim (Commandstates-discrete (submit r k c).1 Commandstates.success) [
    | yes h ↦
        let (running, _, none_yet, e) = submit_success h in
        rw e (record {
          distinct = v.distinct;
          each = v.each;
          within = v.within;
          counter = v.counter;
          fresh = v.fresh;
          game = v.game;
          phase = elim v.phase [
            | inl b ↦ absurd (running_not_waiting (state r) running b.machine)
            | inr s ↦ inr (record { machine = s.machine; as_many = s.as_many; same = s.same })
          ];
          clock = v.clock;
          queue = inl running;
          once = OncePerPlayer-append r.pending_commands c v.once (rw own none_yet);
        })
    | no h ↦ rw (submit_refused h) v
  ]
