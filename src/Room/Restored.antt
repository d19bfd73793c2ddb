-- ===== src/Room/Restored.antt =====
-- A room of src/room.cpp comes back from its own checkpoint: `restore_checkpoint` after
-- `make_checkpoint`.
use l_w.Base.{
  ℕ, ◌≡◌, refl, sym, ap, ◌∙◌, inl, inr, true, false, ◌&&◌, not, [], Option, none, some, length, ltb,
  arith, All, nat_eq, ◌==◌, ==_refl, le→ltb_false, is_some,
}
use l_w.Map.{find, values}
use l_w.Sort.{sort}
use l_w.Sort.Laws.{length-sort, sort-All}
use l_w.Checkpoint.{RoomCheckpoint}
use l_w.StateMachine.{Roomstatemachine, States, waiting, running, finished, is_waiting}
use l_w.StateMachine
use l_w.Game.{Gamestate, PlayerGameState}
use l_w.Game
use l_w.Game.Restore.{IsHealthy, restore-snapshot, snapshot_lem}
use l_w.Room.{Room, Member, Members, new, state}
use l_w.Room.Persist.{
  stored_before, make_checkpoint, restore_checkpoint, restore_members, restore_machine, ids_below,
  all_members, games_match, publish,
}
use l_w.Room.Invariant.{IsValid}
use l_w.Room.RoundTrip.{
  stored, saved_lem, saved-below, known, all_members_lem, within_itself, length-stored, offline,
}

accepts :
    (q : Room) (c : RoomCheckpoint) (n : Members) (machine : Roomstatemachine) (game : Gamestate)
    → (c.room_id == q.room_id) ≡ true
    → (c.capacity == q.capacity) ≡ true
    → ltb q.capacity (length c.members) ≡ false
    → restore_members c.members [] ≡ some n
    → (not (c.next_player_id == 0) && not (ids_below c.next_player_id n)) ≡ false
    → restore_machine c c.state ≡ some machine
    → games_match c n ≡ true
    → Game.restore Game.new c.game_states ≡ some game
    → restore_checkpoint q c ≡ some (publish q c n game machine)
unfolding restore_checkpoint
accepts q c n machine game same_id same_capacity fits ms below mach match played =
    rw (same_id, same_capacity, fits) (rw ms (rw below (rw mach (rw match (rw played refl)))))

restored_machine :
    (c : RoomCheckpoint) (s : States)
    → (is_waiting s ≡ true → (c.tick_id ≡ 0) × (length c.game_states ≡ 0))
    → (machine : Roomstatemachine) × (restore_machine c s ≡ some machine) × (machine.state ≡ s)
unfolding restore_machine StateMachine.start StateMachine.finish
restored_machine c waiting h =
    let (no_ticks, no_games) = h refl in (StateMachine.new, rw (no_ticks, no_games) refl, refl)
restored_machine c running h = (record { state = running }, refl, refl)
restored_machine c finished h = (record { state = finished }, refl, refl)

is_some-offline : (o : Option Member) → is_some (offline o) ≡ is_some o
is_some-offline none = refl
is_some-offline (some m) = refl

module _ (r : Room) (v : IsValid r) where
  machine_lem :
      (machine : Roomstatemachine) × (restore_machine (make_checkpoint r) (state r) ≡ some machine)
      × (machine.state ≡ state r)
  unfolding make_checkpoint
  machine_lem = restored_machine (make_checkpoint r) (state r) (λ w. elim v.phase [
    | inl before ↦
        (before.no_ticks, (snapshot_lem r.game_state v.game).1 ∙ ap length before.no_players)
    | inr started ↦ absurd (ground (arith, started.machine))
  ])

  games_lem :
      (n : Members)
      → ((j : ℕ) → find j n ≡ offline (find j r.members))
      → length n ≡ length r.members
      → games_match (make_checkpoint r) n ≡ true
  unfolding make_checkpoint Game.snapshot
  games_lem n found l = elim v.phase [
    | inl before ↦ rw before.machine refl
    | inr started ↦
        let players : Game.Players = r.game_state.players in
        let present : All (λ e. is_some (find e.0 n) ≡ true) players =
          within_itself players n v.game.distinct (λ j h.
            ap is_some (found j) ∙ is_some-offline (find j r.members) ∙ sym (started.same j) ∙ h) in
        let all : all_members (Game.snapshot r.game_state) n ≡ true =
          all_members_lem (Game.snapshot r.game_state) n
            (sort-All _ _ (values players) (known players n present v.game.entries)) in
        ground (arith, all, (snapshot_lem r.game_state v.game).1, started.as_many)
  ]

  -- A valid room in which nobody's health is negative is always restored from its own checkpoint by
  -- a new room of its number and capacity: state, tick, id counter, members (without connections)
  -- and players are those of the checkpointed room, and no command waits.
  pub restore_checkpoint-make_checkpoint :
      IsHealthy r.game_state
      → (s : Room) × (restore_checkpoint (new r.room_id r.capacity) (make_checkpoint r) ≡ some s)
        × (s.room_id ≡ r.room_id)
        × (s.capacity ≡ r.capacity)
        × (state s ≡ state r)
        × (s.tick_id ≡ r.tick_id)
        × (s.next_player_id ≡ r.next_player_id)
        × (s.pending_commands ≡ [])
        × ((j : ℕ) → find j s.members ≡ offline (find j r.members))
        × ((j : ℕ) → find j s.game_state.players ≡ find j r.game_state.players)
  unfolding make_checkpoint new
  restore_checkpoint-make_checkpoint healthy =
      let (n, ms, found, l) = saved_lem r.members v.each v.distinct in
      let (machine, mach, same_state) = machine_lem in
      let (game, played, same_players) = restore-snapshot r.game_state v.game healthy Game.new in
      let fits : ltb r.capacity (length (sort stored_before (stored r.members))) ≡ false =
        le→ltb_false _ _ (
          omega (
            arith,
            length-sort stored_before (stored r.members),
            length-stored r.members,
            v.within,
          )) in
      let below : (not (r.next_player_id == 0) && not (ids_below r.next_player_id n)) ≡ false =
        elim v.fresh [
          | inl over ↦ rw over refl
          | inr b ↦ ground (arith, saved-below r.members v.each v.distinct r.next_player_id n b ms)
        ] in
      (
        publish (new r.room_id r.capacity) (make_checkpoint r) n game machine,
        accepts (new r.room_id r.capacity) (make_checkpoint r) n machine game (==_refl r.room_id)
            (==_refl r.capacity) fits ms below mach (games_lem n found l) played,
        refl,
        refl,
        same_state,
        refl,
        refl,
        refl,
        found,
        same_players,
      )
