-- ===== src/Room/Tests.antt =====
-- The theorems about src/room.cpp at concrete rooms.
use l_w.Base.{
  ℕ, ◌≡◌, ◌≢◌, ◌↔◌, ◌⊎◌, ◌<◌, ◌≤◌, refl, Bool, true, false, List, [], ◌∷◌, ◌++◌, ltb, none, some,
  arith, length, is_some, if◌then◌else◌, ◌==◌, nat_eq, All,
}
use l_w.Int.{pos}
use l_w.Map.{find, contains, emplace, assign, erase}
use l_w.Sort.{sort, insert}
use l_w.StateMachine.{waiting, running, finished, is_running, is_waiting}
use l_w.StateMachine
use l_w.Game.{PlayerGameState}
use l_w.Game
use l_w.Game.Restore.{IsHealthy}
use l_w.Room.{
  Room, Gamecommand, move_command, new, state, join, leave, start, begin, submit, tick, pending_for,
  member_ids, Joinstates, Commandstates, Bindingstates,
}
use l_w.Room.Binding.{bind_connection, detach_connection}
use l_w.Room.Persist.{
  make_checkpoint, restore_checkpoint, restore_members, acceptable, ids_below, restore_machine,
  all_members,
}
use l_w.Room.Invariant.{IsValid}
use l_w.Room.Joins.{CanJoin, newcomer, join_lem}
use l_w.Room.Leaves.{leave_lem}
use l_w.Room.Batch.{Drifts}
use l_w.Room.Ticks.{tick_lem}
use l_w.Room.Turns.{Between, submit_once}
use l_w.Room.Starts.{start-success_iff, start_lem}
use l_w.Room.Ids.{Onward, AllOnward, ids_grow, own-Onward}
use l_w.Room.Reconnect.{bind-detach}
use l_w.Room.RoundTrip.{offline}
use l_w.Room.Restored.{restore_checkpoint-make_checkpoint}
use l_w.Room.Recovered.{restore_checkpoint-IsValid}
use l_w.Checkpoint.{RoomCheckpoint}
use l_w.Game.Initialize.{starter, rank}
use l_w.Room.Lifetime.{
  Op, Fits, joins, starts, ticks, moves, leaves, binds, restores, run, step, run-new-IsValid,
}

-- One member of room 7, whose game runs.
abbrev saved_one : RoomCheckpoint
saved_one = record {
  room_id = 7;
  capacity = 4;
  next_player_id = 3;
  state = running;
  tick_id = 9;
  members = record { player_id = 1; player_name = 97 ∷ [] } ∷ [];
  game_states = record { player_id = 1; x = pos 3; y = pos 4; hp = pos 90 } ∷ [];
}

abbrev nobody : ℕ → Bool
nobody c = false

abbrev gathered : Room
gathered = run (new 7 4) (joins (some 1) (97 ∷ []) ∷ joins (some 2) (98 ∷ []) ∷ [])

gathered-IsValid : IsValid gathered
unfolding Fits
gathered-IsValid =
    run-new-IsValid 7 4 (joins (some 1) (97 ∷ []) ∷ joins (some 2) (98 ∷ []) ∷ []) (tt, (tt, tt))

abbrev opening : List Op
opening = joins (some 1) (97 ∷ []) ∷ joins (some 2) (98 ∷ []) ∷ starts true ∷ []

abbrev started : Room
started = run (new 7 4) opening

started-IsValid : IsValid started
unfolding Fits
started-IsValid = run-new-IsValid 7 4 opening (tt, (tt, (tt, tt)))

abbrev east : Gamecommand
east = move_command 1 (pos 1) (pos 0)

abbrev north : Gamecommand
north = move_command 1 (pos 0) (pos 1)

-- A game is played, the room is restored from another one's checkpoint, and that member leaves.
abbrev season : List Op
season = opening ++ moves 1 (pos 0) (pos 1) ∷ ticks ∷ restores saved_one ∷ leaves 1 ∷ []

season-Fits : All Fits season
unfolding Fits
season-Fits = (tt, (tt, (tt, (tt, (tt, ((omega arith, omega arith), (tt, tt)))))))

run-new-IsValid_example : IsValid (run (new 7 4) season)
run-new-IsValid_example = run-new-IsValid 7 4 season season-Fits

started_runs : is_running (state started) ≡ true
unfolding run step new join start begin Game.initialize Game.check_ids StateMachine.start emplace
    contains
started_runs = refl

tick_lem_example :
    (((tick started).0.pending_commands ≡ [])
      × ((tick started).1.processed_commands ≡ length started.pending_commands)
      × ((tick started).1.successful_commands ≤ length started.pending_commands)
      × ((j : ℕ) (p : PlayerGameState)
          → find j started.game_state.players ≡ some p
          → (q : PlayerGameState) × (find j (tick started).0.game_state.players ≡ some q)
            × Drifts 1 p q))
tick_lem_example = tick_lem started started-IsValid started_runs

-- Between two commands of player 1, player 2 queues one, connects anew and leaves.
abbrev meanwhile : List Op
meanwhile = moves 2 (pos 0) (pos 1) ∷ binds nobody 2 (some 5) ∷ leaves 2 ∷ []

meanwhile-Between : All Between meanwhile
unfolding Between
meanwhile-Between = (tt, (tt, (tt, tt)))

submit_once_example :
    ((submit (run (submit started 1 east).0 meanwhile) 1 north).1 ≢ Commandstates.success)
    × ((is_running (state (run (submit started 1 east).0 meanwhile)) ≡ false)
        ⊎ ((find 1 (run (submit started 1 east).0 meanwhile).members ≡ none)
            ⊎ (((submit (run (submit started 1 east).0 meanwhile) 1 north).1
                  ≡ Commandstates.already_submitted)
                × ((submit (tick (run (submit started 1 east).0 meanwhile)).0 1 north).1
                    ≡ Commandstates.success))))
unfolding run step new join start begin Game.initialize Game.check_ids StateMachine.start emplace
    contains find submit pending_for
submit_once_example = submit_once started 1 east refl meanwhile meanwhile-Between refl north

join_lem_example :
    (((join gathered (some 3) (99 ∷ [])).1.state ≡ Joinstates.success)
      × CanJoin gathered (99 ∷ [])
      × (find gathered.next_player_id gathered.members ≡ none)
      × ((join gathered (some 3) (99 ∷ [])).1.player_id ≡ gathered.next_player_id)
      × ((j : ℕ)
          → find j (join gathered (some 3) (99 ∷ [])).0.members ≡ (
              if gathered.next_player_id == j
              then some (newcomer gathered 3 (99 ∷ []))
              else find j gathered.members)))
    ⊎ (((join gathered (some 3) (99 ∷ [])).1.state ≢ Joinstates.success)
        × ¬ CanJoin gathered (99 ∷ [])
        × ((join gathered (some 3) (99 ∷ [])).0 ≡ gathered))
join_lem_example = join_lem gathered 3 (99 ∷ []) gathered-IsValid

leave_lem_example :
    (((leave started 2).1 ≡ true)
      × (is_some (find 2 started.members) ≡ true)
      × ((j : ℕ)
          → find j (leave started 2).0.members ≡ (if 2 == j then none else find j started.members))
      × ((j : ℕ)
          → find j (leave started 2).0.game_state.players
            ≡ (if 2 == j then none else find j started.game_state.players)))
    ⊎ (((leave started 2).1 ≡ false)
        × (find 2 started.members ≡ none)
        × ((leave started 2).0 ≡ started))
leave_lem_example = leave_lem started 2 started-IsValid

start-success_iff_example : ((start gathered true).1 ≡ StateMachine.success) ↔ (
    (is_waiting (state gathered) ≡ true)
    × (true ≡ true)
    × (1 ≤ length gathered.members)
    × (length gathered.members ≤ 101))
start-success_iff_example = start-success_iff gathered true gathered-IsValid

start_lem_example :
    (state (start gathered true).0 ≡ running)
    × ((start gathered true).0.tick_id ≡ 0)
    × ((start gathered true).0.pending_commands ≡ [])
    × ((j : ℕ)
        → find j (start gathered true).0.game_state.players ≡ (
            if is_some (find j gathered.members)
            then some (starter j (rank j (member_ids gathered.members)))
            else none))
unfolding run step new join start begin Game.initialize Game.check_ids StateMachine.start emplace
    contains
start_lem_example = start_lem gathered true gathered-IsValid refl

-- The third member leaves, and the room is restored from its own checkpoint.
abbrev third_left : Room
third_left = run (join gathered (some 3) (99 ∷ [])).0 (leaves 3 ∷ [])

abbrev restart : List Op
restart = leaves 3 ∷ restores (make_checkpoint third_left) ∷ []

restart-Fits : All Fits restart
unfolding Fits make_checkpoint run step new join leave emplace contains find erase
restart-Fits = (tt, ((omega arith, omega arith), tt))

restart-AllOnward : AllOnward (join gathered (some 3) (99 ∷ [])).0 restart
unfolding AllOnward Onward run
restart-AllOnward = (tt, (own-Onward third_left, tt))

ids_grow_example :
    (join gathered (some 3) (99 ∷ [])).1.player_id
    < (join (run (join gathered (some 3) (99 ∷ [])).0 restart) (some 4) (100 ∷ [])).1.player_id
unfolding run step new join leave emplace contains find erase make_checkpoint restore_checkpoint
    restore_members acceptable ids_below restore_machine all_members Game.restore
    Game.restore_entries Game.acceptable sort insert Game.snapshot
ids_grow_example =
    ids_grow gathered gathered-IsValid 3 4 (99 ∷ []) (100 ∷ []) restart restart-Fits
      restart-AllOnward refl refl

abbrev later : ℕ → Bool
later c = ltb 2 c

abbrev newest : ℕ
newest = 4

bind-detach_example :
    ((bind_connection later (bind_connection later gathered 1 (some 3)).0 1 (some newest)).1
      ≡ Bindingstates.already_bound)
    × (((detach_connection later (bind_connection later gathered 1 (some 3)).0 1 (some newest)).1
          ≡ Bindingstates.success)
        ↔ (3 ≡ newest))
unfolding bind_connection run step new join emplace find
bind-detach_example = bind-detach later gathered 1 3 refl refl newest

started-IsHealthy : IsHealthy started.game_state
unfolding run step new join start begin Game.initialize Game.check_ids StateMachine.start emplace
    contains Game.place sort insert assign
started-IsHealthy = ground arith

restore_checkpoint-make_checkpoint_example :
    (s : Room) × (restore_checkpoint (new 7 4) (make_checkpoint started) ≡ some s)
    × (s.room_id ≡ 7)
    × (s.capacity ≡ 4)
    × (state s ≡ state started)
    × (s.tick_id ≡ started.tick_id)
    × (s.next_player_id ≡ started.next_player_id)
    × (s.pending_commands ≡ [])
    × ((j : ℕ) → find j s.members ≡ offline (find j started.members))
    × ((j : ℕ) → find j s.game_state.players ≡ find j started.game_state.players)
unfolding run step new join start begin Game.initialize Game.check_ids StateMachine.start emplace
    contains
restore_checkpoint-make_checkpoint_example =
    restore_checkpoint-make_checkpoint started started-IsValid started-IsHealthy

abbrev restored_one : Room
restored_one = record {
  room_id = 7;
  capacity = 4;
  next_player_id = 3;
  state_machine = record { state = running };
  game_state = record {
    players = (1, record { player_id = 1; x = pos 3; y = pos 4; hp = pos 90 }) ∷ [];
  };
  tick_id = 9;
  members = (1, record { player_id = 1; player_name = 97 ∷ []; connection = none }) ∷ [];
  pending_commands = [];
}

saved_one_restored : restore_checkpoint (new 7 4) saved_one ≡ some restored_one
unfolding restore_checkpoint new restore_members acceptable contains ids_below emplace
    restore_machine StateMachine.start all_members Game.restore Game.restore_entries Game.acceptable
saved_one_restored = refl

restore_checkpoint-IsValid_example : IsValid restored_one
restore_checkpoint-IsValid_example =
    restore_checkpoint-IsValid (new 7 4) saved_one {s = restored_one} (omega arith) (omega arith)
      saved_one_restored
