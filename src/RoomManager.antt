-- ===== src/RoomManager.antt =====
-- src/room_manager.cpp: the rooms by their numbers. A room that is changed through its reference is
-- written back into the table. `alive` says which connection objects exist when a room locks its weak
-- references.
pub mod Attach
pub mod Seats
pub mod Kept
pub mod Changes
pub mod Links
pub mod Games
pub mod Recovery
mod Tests
use l_w.Base.{
  ℕ, ◌-◌, Bool, true, false, ◌||◌, not, List, [], ◌∷◌, ◌++◌, Option, none, some, ltb, leb, ◌==◌,
  if◌then◌else◌, length, nat_eq,
}
use l_w.Int.{ℤ}
use l_w.Map.{find, contains, emplace, assign}
use l_w.StateMachine.{is_running}
use l_w.StateMachine
use l_w.Game.{PlayerGameState}
use l_w.Pointers.{ConnectionPtr}
use l_w.Protocol.{MemberInfo, max_chat_message_size}
use l_w.Room.{Room, Joinstates, Commandstates, Tickstates, state, member_count, has_member}
use l_w.Room
use l_w.Room.Binding.{connections}

pub data States : Type 0 where
  success invalid_connection room_not_found room_full room_not_joinable : States
  not_in_room invalid_player_name invalid_message player_id_exhausted : States
  room_not_running already_submitted internal_error : States

pub States-discrete : Discrete States
States-discrete = hlevel

abbrev pub Rooms : Type 0
Rooms = List (ℕ × Room)

pub record RoomManager : Type 0 where
  pub rooms : Rooms

pub record JoinResult : Type 0 where
  pub state : States
  pub room_id : ℕ
  pub player_id : ℕ
  pub members : List MemberInfo
  pub notify_connections : List ℕ

-- `LeaveResult` and `ChatResult`.
pub record NotifyResult : Type 0 where
  pub state : States
  pub room_id : ℕ
  pub player_id : ℕ
  pub notify_connections : List ℕ

pub record CommandResult : Type 0 where
  pub state : States
  pub room_id : ℕ
  pub player_id : ℕ

pub record TickResult : Type 0 where
  pub room_id : ℕ
  pub tick_id : ℕ
  pub processed_commands : ℕ
  pub successful_commands : ℕ
  pub snapshot : List PlayerGameState
  pub notify_connections : List ℕ

abbrev pub join_failed : States → JoinResult
join_failed e = record {
  state = e;
  room_id = 0;
  player_id = 0;
  members = [];
  notify_connections = [];
}

abbrev pub notify_failed : States → NotifyResult
notify_failed e = record { state = e; room_id = 0; player_id = 0; notify_connections = [] }

abbrev pub command_failed : States → CommandResult
command_failed e = record { state = e; room_id = 0; player_id = 0 }

-- The room that is known by this number has changed.
abbrev pub put_room : RoomManager → ℕ → Room → RoomManager
put_room m room_id room = record { rooms = assign room_id room m.rooms }

abbrev pub new : RoomManager
new = record { rooms = [] }

unfoldable pub contains_room : RoomManager → ℕ → Bool
contains_room m room_id = contains room_id m.rooms

unfoldable pub room_count : RoomManager → ℕ
room_count m = length m.rooms

unfoldable pub add_room : RoomManager → ℕ → ℕ → RoomManager × Bool
unfolding contains_room
add_room m room_id capacity =
    if contains_room m room_id
    then (m, false)
    else (put_room m room_id (Room.new room_id capacity), true)

abbrev pub join_error : Joinstates → States
join_error Joinstates.invalid_connection = invalid_connection
join_error Joinstates.room_full = room_full
join_error Joinstates.invalid_state = room_not_joinable
join_error Joinstates.invalid_player_name = invalid_player_name
join_error Joinstates.player_id_exhausted = player_id_exhausted
join_error Joinstates.success = internal_error

abbrev pub command_error : Commandstates → States
command_error Commandstates.invalid_state = room_not_running
command_error Commandstates.already_submitted = already_submitted
command_error Commandstates.player_not_found = internal_error
command_error Commandstates.success = internal_error

module _ (alive : ℕ → Bool) where
  -- The `switch` of `join`.
  unfoldable pub join_answer : ℕ → Room × Room.JoinResult → JoinResult
  join_answer room_id (room, result) = elim result.state [
    | Joinstates.success ↦ record {
      state = success;
      room_id = room_id;
      player_id = result.player_id;
      members = result.members;
      notify_connections = connections alive room result.player_id;
    }
    | e ↦ join_failed (join_error e)
  ]

  unfoldable pub join : RoomManager → ConnectionPtr → ℕ → List ℕ → RoomManager × JoinResult
  join m none room_id player_name = (m, join_failed invalid_connection)
  join m (some connection) room_id player_name = elim (find room_id m.rooms) [
    | none ↦ (m, join_failed room_not_found)
    | some room ↦
        let joined = Room.join room (some connection) player_name in
        (put_room m room_id joined.0, join_answer room_id joined)
  ]

  unfoldable pub leave : RoomManager → ℕ → ℕ → RoomManager × NotifyResult
  leave m room_id player_id = elim (find room_id m.rooms) [
    | none ↦ (m, notify_failed room_not_found)
    | some room ↦
        if not (has_member room player_id)
        then (m, notify_failed not_in_room)
        else (let (room', done) = Room.leave room player_id in
            (
              put_room m room_id room',
              if not done then notify_failed internal_error else record {
                state = success;
                room_id = room_id;
                player_id = player_id;
                notify_connections = connections alive room' 0;
              },
            ))
  ]

  unfoldable pub chat : RoomManager → ℕ → ℕ → List ℕ → NotifyResult
  chat m room_id player_id message =
      if length message == 0 || ltb max_chat_message_size (length message)
      then notify_failed invalid_message
      else elim (find room_id m.rooms) [
        | none ↦ notify_failed room_not_found
        | some room ↦
            if not (has_member room player_id) then notify_failed not_in_room else record {
              state = success;
              room_id = room_id;
              player_id = player_id;
              notify_connections = connections alive room 0;
            }
      ]

  -- The loop of `tick_rooms`: the rooms as they are left, and the results of those that run.
  unfoldable pub tick_all : Rooms → Rooms × List TickResult
  tick_all [] = ([], [])
  tick_all ((k, room) ∷ rooms) =
      let (rest, results) = tick_all rooms in
      if not (is_running (state room))
      then ((k, room) ∷ rest, results)
      else (let (room', result) = Room.tick room in
          (
            (k, room') ∷ rest,
            elim result.state [
              | Tickstates.invalid_state ↦ results
              | Tickstates.success ↦
                  record {
                    room_id = room'.room_id;
                    tick_id = result.tick_id;
                    processed_commands = result.processed_commands;
                    successful_commands = result.successful_commands;
                    snapshot = result.snapshot;
                    notify_connections = connections alive room' 0;
                  }
                  ∷ results
            ],
          ))

  unfoldable pub tick_rooms : RoomManager → RoomManager × List TickResult
  tick_rooms m = let (rooms, results) = tick_all m.rooms in (record { rooms = rooms }, results)

-- The `switch` of `start_if_full`.
abbrev pub start_answer : StateMachine.Transitionstates → States
start_answer StateMachine.success = success
start_answer StateMachine.invalid_state = room_not_joinable
start_answer StateMachine.condition_not_met = internal_error

unfoldable pub start_if_full : RoomManager → ℕ → RoomManager × States
start_if_full m room_id = elim (find room_id m.rooms) [
  | none ↦ (m, room_not_found)
  | some room ↦
      if ltb (member_count room) room.capacity
      then (m, success)
      else if ltb room.capacity (member_count room)
      then (m, internal_error)
      else (let (room', transition_state) = Room.start room true in
          (put_room m room_id room', start_answer transition_state))
]

-- The `switch` of `move` and `attack`.
abbrev pub command_answer : ℕ → ℕ → Commandstates → CommandResult
command_answer room_id player_id Commandstates.success = record {
  state = success;
  room_id = room_id;
  player_id = player_id;
}
command_answer room_id player_id e = command_failed (command_error e)

-- `move` and `attack` differ in the room's operation that they call.
unfoldable pub submit :
    RoomManager → ℕ → ℕ → (Room → Room × Commandstates) → RoomManager × CommandResult
submit m room_id player_id operation = elim (find room_id m.rooms) [
  | none ↦ (m, command_failed room_not_found)
  | some room ↦
      if not (has_member room player_id)
      then (m, command_failed not_in_room)
      else (let (room', result) = operation room in
          (put_room m room_id room', command_answer room_id player_id result))
]

unfoldable pub move : RoomManager → ℕ → ℕ → ℤ → ℤ → RoomManager × CommandResult
move m room_id player_id dx dy =
    submit m room_id player_id (λ room. Room.submit_move room player_id dx dy)

unfoldable pub attack : RoomManager → ℕ → ℕ → ℕ → RoomManager × CommandResult
attack m room_id player_id target_player_id =
    submit m room_id player_id (λ room. Room.submit_attack room player_id target_player_id)
