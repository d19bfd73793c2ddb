-- ===== src/Room/Persist.antt =====
-- src/room.cpp: the checkpoint of a room and how it is restored.
use l_w.Base.{
  ℕ, Bool, true, ◌&&◌, ◌||◌, not, List, [], ◌∷◌, Option, none, some, ltb, leb, ◌==◌, if◌then◌else◌,
  length, map, nat_eq,
}
use l_w.Map.{contains, emplace, values}
use l_w.Sort.{sort}
use l_w.StateMachine.{Roomstatemachine, States, waiting, running, finished, is_waiting}
use l_w.StateMachine
use l_w.Game.{Gamestate, PlayerGameState}
use l_w.Game
use l_w.Checkpoint.{CheckpointMember, RoomCheckpoint}
use l_w.Room.{Room, Member, Members, state, bad_name}

abbrev pub checkpoint_member : Member → CheckpointMember
checkpoint_member m = record { player_id = m.player_id; player_name = m.player_name }

abbrev pub stored_before : CheckpointMember → CheckpointMember → Bool
stored_before a b = ltb a.player_id b.player_id

unfoldable pub make_checkpoint : Room → RoomCheckpoint
make_checkpoint r = record {
  room_id = r.room_id;
  capacity = r.capacity;
  next_player_id = r.next_player_id;
  state = state r;
  tick_id = r.tick_id;
  members = sort stored_before (map checkpoint_member (values r.members));
  game_states = Game.snapshot r.game_state;
}

abbrev pub offline_member : CheckpointMember → Member
offline_member c = record {
  player_id = c.player_id;
  player_name = c.player_name;
  connection = none;
}

unfoldable pub acceptable : CheckpointMember → Members → Bool
acceptable c members =
    not (c.player_id == 0) && not (contains c.player_id members) && not (bad_name c.player_name)

-- The loop over the stored members; `none`: false is returned.
unfoldable pub restore_members : List CheckpointMember → Members → Option Members
restore_members [] members = some members
restore_members (c ∷ cs) members =
    let rest = restore_members cs (emplace c.player_id (offline_member c) members) in
    if acceptable c members then rest else none

unfoldable pub ids_below : ℕ → Members → Bool
ids_below next [] = true
ids_below next ((k, m) ∷ ms) = not (leb next k) && ids_below next ms

unfoldable pub all_members : List PlayerGameState → Members → Bool
all_members [] members = true
all_members (p ∷ ps) members = contains p.player_id members && all_members ps members

-- `switch (checkpoint.state)`: the state machine that the checkpoint asks for, from a new one.
unfoldable pub restore_machine : RoomCheckpoint → States → Option Roomstatemachine
restore_machine c waiting =
    if not (c.tick_id == 0) || not (length c.game_states == 0) then none else some StateMachine.new
restore_machine c running = elim (StateMachine.start StateMachine.new true).1 [
  | StateMachine.success ↦ some (StateMachine.start StateMachine.new true).0
  | _ ↦ none
]
restore_machine c finished = elim (StateMachine.start StateMachine.new true).1 [
  | StateMachine.success ↦
      let begun = (StateMachine.start StateMachine.new true).0 in
      elim (StateMachine.finish begun true).1 [
        | StateMachine.success ↦ some (StateMachine.finish begun true).0
        | _ ↦ none
      ]
  | _ ↦ none
]

-- For a game that has started, there is one entry for each member.
abbrev pub games_match : RoomCheckpoint → Members → Bool
games_match c members =
    is_waiting c.state
    || (length c.game_states == length members && all_members c.game_states members)

abbrev pub publish : Room → RoomCheckpoint → Members → Gamestate → Roomstatemachine → Room
publish r c members game machine = record r {
  members = members;
  game_state = game;
  state_machine = machine;
  next_player_id = c.next_player_id;
  tick_id = c.tick_id;
  pending_commands = [];
}

-- `none`: false is returned, and the room is left alone.
unfoldable pub restore_checkpoint : Room → RoomCheckpoint → Option Room
restore_checkpoint r c =
    if not (c.room_id == r.room_id) || not (c.capacity == r.capacity)
    then none
    else if ltb r.capacity (length c.members)
    then none
    else elim (restore_members c.members []) [
      | none ↦ none
      | some members ↦
          if not (c.next_player_id == 0) && not (ids_below c.next_player_id members)
          then none
          else elim (restore_machine c c.state) [
            | none ↦ none
            | some machine ↦
                if not (games_match c members)
                then none
                else elim (Game.restore Game.new c.game_states) [
                  | none ↦ none
                  | some game ↦ some (publish r c members game machine)
                ]
          ]
    ]
