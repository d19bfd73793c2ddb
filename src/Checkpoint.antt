-- ===== src/Checkpoint.antt =====
-- include/checkpoint.h: what is stored of rooms and sessions. Texts are lists of bytes.
use l_w.Base.{ℕ, Bool, false, ◌&&◌, ◌||◌, ◌==◌, List, [], ◌∷◌}
use l_w.Game.{PlayerGameState}
use l_w.StateMachine.{States}

pub record CheckpointMember : Type 0 where
  pub player_id : ℕ
  pub player_name : List ℕ

pub record RoomCheckpoint : Type 0 where
  pub room_id : ℕ
  pub capacity : ℕ
  pub next_player_id : ℕ
  pub state : States
  pub tick_id : ℕ
  pub members : List CheckpointMember
  pub game_states : List PlayerGameState

pub record SessionCheckpoint : Type 0 where
  pub token : List ℕ
  pub room_id : ℕ
  pub player_id : ℕ

pub record ServerCheckpoint : Type 0 where
  pub generation : ℕ
  pub rooms : List RoomCheckpoint
  pub sessions : List SessionCheckpoint

-- A player of a room, by both numbers: the pairs of which the code keeps a `std::set`. A set is a
-- list of which only matters what occurs in it.
abbrev pub Identity : Type 0
Identity = ℕ × ℕ

unfoldable pub occurs : Identity → List Identity → Bool
occurs i [] = false
occurs i (j ∷ js) = (i.0 == j.0 && i.1 == j.1) || occurs i js
