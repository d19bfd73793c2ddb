-- ===== src/RoomManager/Attach.antt =====
-- src/room_manager.cpp: the connections of members, when they come back and when they drop out.
use l_w.Base.{ℕ, Bool, List, [], none, some, nat_eq}
use l_w.Map.{find}
use l_w.StateMachine
use l_w.Game.{PlayerGameState}
use l_w.Pointers.{ConnectionPtr}
use l_w.Protocol.{MemberInfo}
use l_w.Room.{Room, state}
use l_w.Room
use l_w.Room.Binding.{member_snapshot, game_snapshot}
use l_w.Room.Binding
use l_w.RoomManager.{RoomManager, put_room}

pub data Bindingstates : Type 0 where
  success invalid_connection room_not_found player_not_found already_bound : Bindingstates
  not_bound connection_mismatch internal_error : Bindingstates

pub record BindingResult : Type 0 where
  pub state : Bindingstates
  pub room_id : ℕ
  pub player_id : ℕ
  pub room_state : StateMachine.States
  pub tick_id : ℕ
  pub members : List MemberInfo
  pub snapshot : List PlayerGameState

pub record DetachResult : Type 0 where
  pub state : Bindingstates
  pub room_id : ℕ
  pub player_id : ℕ

abbrev pub bind_failed : Bindingstates → BindingResult
bind_failed e = record {
  state = e;
  room_id = 0;
  player_id = 0;
  room_state = StateMachine.waiting;
  tick_id = 0;
  members = [];
  snapshot = [];
}

abbrev pub detach_failed : Bindingstates → DetachResult
detach_failed e = record { state = e; room_id = 0; player_id = 0 }

-- The `switch` of `bind_connection`.
unfoldable pub bind_answer : ℕ → ℕ → Room → Room.Bindingstates → BindingResult
bind_answer room_id player_id room Room.Bindingstates.success = record {
  state = success;
  room_id = room_id;
  player_id = player_id;
  room_state = state room;
  tick_id = room.tick_id;
  members = member_snapshot room;
  snapshot = game_snapshot room;
}
bind_answer room_id player_id room Room.Bindingstates.invalid_connection =
    bind_failed invalid_connection
bind_answer room_id player_id room Room.Bindingstates.player_not_found =
    bind_failed player_not_found
bind_answer room_id player_id room Room.Bindingstates.already_bound = bind_failed already_bound
bind_answer room_id player_id room Room.Bindingstates.not_bound = bind_failed internal_error
bind_answer room_id player_id room Room.Bindingstates.connection_mismatch =
    bind_failed internal_error

-- The `switch` of `detach_connection`.
unfoldable pub detach_answer : ℕ → ℕ → Room.Bindingstates → DetachResult
detach_answer room_id player_id Room.Bindingstates.success = record {
  state = success;
  room_id = room_id;
  player_id = player_id;
}
detach_answer room_id player_id Room.Bindingstates.invalid_connection =
    detach_failed invalid_connection
detach_answer room_id player_id Room.Bindingstates.player_not_found = detach_failed player_not_found
detach_answer room_id player_id Room.Bindingstates.not_bound = detach_failed not_bound
detach_answer room_id player_id Room.Bindingstates.connection_mismatch =
    detach_failed connection_mismatch
detach_answer room_id player_id Room.Bindingstates.already_bound = detach_failed internal_error

module _ (alive : ℕ → Bool) where
  unfoldable pub bind_connection : RoomManager → ℕ → ℕ → ConnectionPtr → RoomManager × BindingResult
  bind_connection m room_id player_id none = (m, bind_failed invalid_connection)
  bind_connection m room_id player_id (some connection) = elim (find room_id m.rooms) [
    | none ↦ (m, bind_failed room_not_found)
    | some room ↦
        let (room', result) = Room.Binding.bind_connection alive room player_id (some connection) in
        (put_room m room_id room', bind_answer room_id player_id room' result)
  ]

  unfoldable pub detach_connection :
      RoomManager → ℕ → ℕ → ConnectionPtr → RoomManager × DetachResult
  detach_connection m room_id player_id none = (m, detach_failed invalid_connection)
  detach_connection m room_id player_id (some connection) = elim (find room_id m.rooms) [
    | none ↦ (m, detach_failed room_not_found)
    | some room ↦
        let (room', result) =
          Room.Binding.detach_connection alive room player_id (some connection) in
        (put_room m room_id room', detach_answer room_id player_id result)
  ]
