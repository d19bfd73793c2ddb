-- ===== src/Room.antt =====
-- src/room.cpp: members, the state machine, the game and the commands that wait for the next tick.
-- 64-bit counters wrap. `alive` says which connection objects exist when an operation locks a weak
-- reference.
pub mod Binding
pub mod Persist
pub mod Invariant
pub mod Joins
pub mod Leaves
pub mod Batch
pub mod Ticks
pub mod Starts
pub mod Lifetime
pub mod Turns
pub mod Ids
pub mod Reconnect
pub mod Stored
pub mod Restored
pub mod Recovered
mod Tests
pub mod RoundTrip
use l_w.Base.{
  ℕ, suc, ◌+◌, ◌%◌, Bool, true, false, ◌&&◌, ◌||◌, not, List, [], ◌∷◌, ◌++◌, Option, none, some,
  ltb, leb, ◌==◌, if◌then◌else◌, length, map, nat_eq, is_some,
}
use l_w.Bytes.{u64_mod}
use l_w.Int.{ℤ}
use l_w.Map.{find, contains, emplace, assign, erase, values}
use l_w.Sort.{sort}
use l_w.StateMachine.{
  Roomstatemachine, Transitionstates, waiting, running, finished, is_waiting, is_running, can_join,
}
use l_w.StateMachine
use l_w.Game.{Gamestate, PlayerGameState}
use l_w.Game
use l_w.Protocol.{MemberInfo, max_player_name_size}
use l_w.Checkpoint.{CheckpointMember, RoomCheckpoint}
use l_w.Pointers.{ConnectionPtr, WeakPtr, lock}

pub data Joinstates : Type 0 where
  success invalid_connection invalid_player_name invalid_state room_full : Joinstates
  player_id_exhausted : Joinstates

pub Joinstates-discrete : Discrete Joinstates
Joinstates-discrete = hlevel

pub data Commandstates : Type 0 where
  success invalid_state player_not_found already_submitted : Commandstates

pub Commandstates-discrete : Discrete Commandstates
Commandstates-discrete = hlevel

pub data Bindingstates : Type 0 where
  success invalid_connection player_not_found already_bound not_bound : Bindingstates
  connection_mismatch : Bindingstates

pub data Tickstates : Type 0 where
  success invalid_state : Tickstates

pub record JoinResult : Type 0 where
  pub state : Joinstates
  pub player_id : ℕ
  pub members : List MemberInfo

pub record TickResult : Type 0 where
  pub state : Tickstates
  pub tick_id : ℕ
  pub processed_commands : ℕ
  pub successful_commands : ℕ
  pub snapshot : List PlayerGameState

-- include/game_command.h: `std::variant` of the two structs.
pub data Gamecommand : Type 0 where
  move_command : ℕ → ℤ → ℤ → Gamecommand
  attack_command : ℕ → ℕ → Gamecommand

pub record Member : Type 0 where
  pub player_id : ℕ
  pub player_name : List ℕ
  pub connection : WeakPtr

abbrev pub Members : Type 0
Members = List (ℕ × Member)

pub record Room : Type 0 where
  pub room_id : ℕ
  pub capacity : ℕ
  pub next_player_id : ℕ
  pub state_machine : Roomstatemachine
  pub game_state : Gamestate
  pub tick_id : ℕ
  pub members : Members
  pub pending_commands : List Gamecommand

unfoldable pub new : ℕ → ℕ → Room
new room_id capacity = record {
  room_id = room_id;
  capacity = capacity;
  next_player_id = 1;
  state_machine = StateMachine.new;
  game_state = Game.new;
  tick_id = 0;
  members = [];
  pending_commands = [];
}

abbrev pub state : Room → StateMachine.States
state r = r.state_machine.state

unfoldable pub member_count : Room → ℕ
member_count r = length r.members

unfoldable pub has_member : Room → ℕ → Bool
has_member r player_id = contains player_id r.members

abbrev pub member_ids : Members → List ℕ
member_ids [] = []
member_ids ((k, m) ∷ ms) = m.player_id ∷ member_ids ms

-- The commands are dropped and the clock is reset when a game starts.
unfoldable pub begin : Room → Gamestate → Room
begin r game = record r {
  state_machine = (StateMachine.start r.state_machine true).0;
  game_state = game;
  tick_id = 0;
  pending_commands = [];
}

unfoldable pub start : Room → Bool → Room × Transitionstates
start r ready_to_start =
    if not (is_waiting (state r))
    then (r, StateMachine.invalid_state)
    else if not ready_to_start
    then (r, StateMachine.condition_not_met)
    else (let (game, result) = Game.initialize Game.new (member_ids r.members) in
        elim result [
          | Game.success ↦ (begin r game, StateMachine.success)
          | _ ↦ (r, StateMachine.condition_not_met)
        ])

unfoldable pub finish : Room → Bool → Room × Transitionstates
finish r should_finish =
    if not (is_running (state r))
    then (r, StateMachine.invalid_state)
    else if not should_finish
    then (r, StateMachine.condition_not_met)
    else (let (machine, result) = StateMachine.finish r.state_machine should_finish in
        elim result [
          | StateMachine.success ↦
              (record r { state_machine = machine; pending_commands = [] }, StateMachine.success)
          | _ ↦ (record r { state_machine = machine }, StateMachine.invalid_state)
        ])

abbrev pub member_info : Member → MemberInfo
member_info m = record { player_id = m.player_id; player_name = m.player_name }

abbrev pub join_error : Joinstates → JoinResult
join_error e = record { state = e; player_id = 0; members = [] }

-- The name's length test of `join` and `restore_checkpoint`.
abbrev pub bad_name : List ℕ → Bool
bad_name name = length name == 0 || ltb max_player_name_size (length name)

unfoldable pub join : Room → ConnectionPtr → List ℕ → Room × JoinResult
join r none player_name = (r, join_error Joinstates.invalid_connection)
join r (some connection) player_name =
    if bad_name player_name
    then (r, join_error Joinstates.invalid_player_name)
    else if not (can_join r.state_machine)
    then (r, join_error Joinstates.invalid_state)
    else if leb r.capacity (length r.members)
    then (r, join_error Joinstates.room_full)
    else if r.next_player_id == 0
    then (r, join_error Joinstates.player_id_exhausted)
    else (
      record r {
        members =
            emplace r.next_player_id
              (record {
                player_id = r.next_player_id;
                player_name = player_name;
                connection = some connection;
              })
              r.members;
        next_player_id = (r.next_player_id + 1) % u64_mod;
      },
      record {
        state = Joinstates.success;
        player_id = r.next_player_id;
        members = map member_info (values r.members);
      },
    )

unfoldable pub leave : Room → ℕ → Room × Bool
leave r player_id =
    if not (contains player_id r.members)
    then (r, false)
    else if is_waiting (state r)
    then (record r { members = erase player_id r.members }, true)
    else (let (game, result) = Game.remove_player r.game_state player_id in
        elim result [
          | Game.success ↦
              (record r { game_state = game; members = erase player_id r.members }, true)
          | _ ↦ (record r { game_state = game }, false)
        ])

abbrev pub command_player : Gamecommand → ℕ
command_player (move_command player_id dx dy) = player_id
command_player (attack_command player_id target) = player_id

unfoldable pub pending_for : ℕ → List Gamecommand → Bool
pending_for player_id [] = false
pending_for player_id (c ∷ cs) = command_player c == player_id || pending_for player_id cs

-- `submit_move` and `submit_attack` differ in the command that they queue.
unfoldable pub submit : Room → ℕ → Gamecommand → Room × Commandstates
submit r player_id command =
    if not (is_running (state r))
    then (r, Commandstates.invalid_state)
    else if not (contains player_id r.members)
    then (r, Commandstates.player_not_found)
    else if pending_for player_id r.pending_commands
    then (r, Commandstates.already_submitted)
    else (record r { pending_commands = r.pending_commands ++ command ∷ [] }, Commandstates.success)

unfoldable pub submit_move : Room → ℕ → ℤ → ℤ → Room × Commandstates
submit_move r player_id dx dy = submit r player_id (move_command player_id dx dy)

unfoldable pub submit_attack : Room → ℕ → ℕ → Room × Commandstates
submit_attack r player_id target = submit r player_id (attack_command player_id target)

abbrev pub succeeded : Game.States → Bool
succeeded Game.success = true
succeeded _ = false

unfoldable pub process_command : Gamestate → Gamecommand → Gamestate × Bool
process_command game (move_command player_id dx dy) =
    let (game', result) = Game.move_player game player_id dx dy in (game', succeeded result)
process_command game (attack_command player_id target) =
    let (game', result) = Game.attack_player game player_id target in
    (game', succeeded result.state)

-- The loop of `tick`, with the number of commands that have succeeded.
unfoldable pub process_all : Gamestate → ℕ → List Gamecommand → Gamestate × ℕ
process_all game pos [] = (game, pos)
process_all game pos (c ∷ cs) =
    let (game', done) = process_command game c in
    process_all game' (if done then suc pos else pos) cs

unfoldable pub tick : Room → Room × TickResult
tick r =
    if not (is_running (state r))
    then (
      r,
      record {
        state = Tickstates.invalid_state;
        tick_id = r.tick_id;
        processed_commands = 0;
        successful_commands = 0;
        snapshot = [];
      },
    )
    else (let (game, pos) = process_all r.game_state 0 r.pending_commands in
        let tick_id : ℕ = (r.tick_id + 1) % u64_mod in
        (
          record r { game_state = game; tick_id = tick_id; pending_commands = [] },
          record {
            state = Tickstates.success;
            tick_id = tick_id;
            processed_commands = length r.pending_commands;
            successful_commands = pos;
            snapshot = Game.snapshot game;
          },
        ))
