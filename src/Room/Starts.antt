-- ===== src/Room/Starts.antt =====
-- The start and the end of a game in a room of src/room.cpp.
use l_w.Base.{
  ℕ, suc, ◌≤◌, ◌≡◌, ◌≢◌, ◌↔◌, refl, ap, ◌∙◌, inl, inr, Bool, true, [], ◌∷◌, none, some, length,
  if◌then◌else◌, arith, All, nat_eq, is_some,
}
use l_w.Map.{find}
use l_w.Map
use l_w.StateMachine.{States, Transitionstates, waiting, running, finished, is_waiting, is_running}
use l_w.StateMachine
use l_w.Game.{Gamestate, PlayerGameState}
use l_w.Game
use l_w.Game.Invariant
use l_w.Game.Initialize.{
  elem, rank, starter, AreProper, initialize_lem, length-initialize, initialize-success_iff,
}
use l_w.Room.{Room, Members, member_ids, state, begin, start, finish}
use l_w.Room.Invariant.{IsMember, IsValid}
use l_w.Room.Ticks.{running_not_waiting}

elem-member_ids :
    (m : Members) (j : ℕ) → All IsMember m → elem j (member_ids m) ≡ is_some (find j m)
unfolding find
elem-member_ids [] j a = refl
elem-member_ids ((k, x) ∷ m) j a = ground (arith, a.0, elem-member_ids m j a.1)

length-member_ids : (m : Members) → length (member_ids m) ≡ length m
length-member_ids [] = refl
length-member_ids ((k, x) ∷ m) = ap suc (length-member_ids m)

module _ (r : Room) (ready : Bool) where
  abbrev first_game : Gamestate × Game.States
  first_game = Game.initialize Game.new (member_ids r.members)

  start_success :
      (start r ready).1 ≡ StateMachine.success
      → (is_waiting (state r) ≡ true)
        × (ready ≡ true)
        × (first_game.1 ≡ Game.success)
        × ((start r ready).0 ≡ begin r first_game.0)
  unfolding start
  start_success h = ground arith

  start_refused : (start r ready).1 ≢ StateMachine.success → (start r ready).0 ≡ r
  unfolding start
  start_refused h = ground arith

  begin_running : is_waiting (state r) ≡ true → state (begin r first_game.0) ≡ running
  unfolding begin StateMachine.start
  begin_running h = ground arith

  module _ (v : IsValid r) where
    begin-IsValid :
        is_waiting (state r) ≡ true → first_game.1 ≡ Game.success → IsValid (begin r first_game.0)
    unfolding begin
    begin-IsValid w h = record {
      distinct = v.distinct;
      each = v.each;
      within = v.within;
      counter = v.counter;
      fresh = v.fresh;
      game =
          Game.Invariant.initialize-IsValid Game.new (member_ids r.members)
            Game.Invariant.new-IsValid;
      phase = inr (record {
        machine = ap is_waiting (begin_running w);
        as_many = length-initialize Game.new (member_ids r.members) h ∙ length-member_ids r.members;
        same = λ j.
            rw
              (
                initialize_lem Game.new (member_ids r.members) h j,
                elem-member_ids r.members j v.each,
              )
              (ground arith);
      });
      clock = omega arith;
      queue = inr refl;
      once = tt;
    }

    pub start-IsValid : IsValid (start r ready).0
    start-IsValid =
        elim (StateMachine.Transitionstates-discrete (start r ready).1 StateMachine.success) [
          | yes h ↦ let (w, _, g, e) = start_success h in rw e (begin-IsValid w g)
          | no h ↦ rw (start_refused h) v
        ]

    proper_ids : (m : Members) → All IsMember m → Map.Unique m → AreProper (member_ids m)
    proper_ids [] a u = tt
    proper_ids ((k, x) ∷ m) a u =
        (omega (arith, a.0), rw (a.0.own_key, elem-member_ids m k a.1, u.0), proper_ids m a.1 u.1)

    ready_starts :
        is_waiting (state r) ≡ true
        → ready ≡ true
        → first_game.1 ≡ Game.success
        → (start r ready).1 ≡ StateMachine.success
    unfolding start
    ready_starts w y g = ground arith

    -- A valid room starts exactly if it waits, the caller is ready for the start, and it has at least
    -- 1 and at most 101 members, whatever its capacity.
    pub start-success_iff : ((start r ready).1 ≡ StateMachine.success) ↔ (
        (is_waiting (state r) ≡ true)
        × (ready ≡ true)
        × (1 ≤ length r.members)
        × (length r.members ≤ 101))
    start-success_iff = (
      λ h.
          let (w, y, g, _) = start_success h in
          let (some_one, few, _) = (initialize-success_iff Game.new (member_ids r.members)).0 g in
          (
            w,
            y,
            omega (arith, some_one, length-member_ids r.members),
            omega (arith, few, length-member_ids r.members),
          ),
      λ (w, y, some_one, few). ready_starts w y (
          (initialize-success_iff Game.new (member_ids r.members)).1 (
            omega (arith, some_one, length-member_ids r.members),
            omega (arith, few, length-member_ids r.members),
            proper_ids r.members v.each v.distinct,
          )),
    )

    -- When a valid room starts it runs, its clock stands at 0, no command waits, and exactly its members
    -- are players: with 100 health, on the bottom line, in the column that counts the smaller ids.
    pub start_lem :
        (start r ready).1 ≡ StateMachine.success
        → (state (start r ready).0 ≡ running)
          × ((start r ready).0.tick_id ≡ 0)
          × ((start r ready).0.pending_commands ≡ [])
          × ((j : ℕ)
              → find j (start r ready).0.game_state.players ≡ (
                  if is_some (find j r.members)
                  then some (starter j (rank j (member_ids r.members)))
                  else none))
    unfolding begin
    start_lem h =
        let (w, _, g, e) = start_success h in
        rw e (
          begin_running w,
          refl,
          refl,
          λ j.
              initialize_lem Game.new (member_ids r.members) g j
              ∙ (rw (elem-member_ids r.members j v.each)),
        )

module _ (r : Room) (should_finish : Bool) where
  pub finish_success :
      (finish r should_finish).1 ≡ StateMachine.success
      → (is_running (state r) ≡ true)
        × ((finish r should_finish).0
            ≡ record r { state_machine = record { state = finished }; pending_commands = [] })
  unfolding finish StateMachine.finish
  finish_success h = ground arith

  pub finish_refused :
      (finish r should_finish).1 ≢ StateMachine.success → (finish r should_finish).0 ≡ r
  unfolding finish StateMachine.finish
  finish_refused h = ground arith

  pub finish-IsValid : IsValid r → IsValid (finish r should_finish).0
  finish-IsValid v =
      elim (StateMachine.Transitionstates-discrete (finish r should_finish).1
        StateMachine.success) [
          | yes h ↦
              let (runs, e) = finish_success h in
              rw e (record {
                distinct = v.distinct;
                each = v.each;
                within = v.within;
                counter = v.counter;
                fresh = v.fresh;
                game = v.game;
                phase = elim v.phase [
                  | inl b ↦ absurd (running_not_waiting (state r) runs b.machine)
                  | inr s ↦ inr (record { machine = refl; as_many = s.as_many; same = s.same })
                ];
                clock = v.clock;
                queue = inr refl;
                once = tt;
              })
          | no h ↦ rw (finish_refused h) v
        ]
