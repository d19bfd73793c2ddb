-- ===== src/RoomManager/Recovery.antt =====
-- src/room_manager.cpp: the checkpoints of all rooms.
use l_w.Base.{◌-◌, Bool, List, [], ◌∷◌, Option, none, some, ltb, if◌then◌else◌, nat_eq}
use l_w.Map.{contains, emplace}
use l_w.Sort.{sort}
use l_w.Checkpoint.{RoomCheckpoint}
use l_w.Room.{Room}
use l_w.Room
use l_w.Room.Persist
use l_w.Bytes.{u64_mod}
use l_w.RoomManager.{RoomManager, Rooms}

abbrev pub room_before : RoomCheckpoint → RoomCheckpoint → Bool
room_before a b = ltb a.room_id b.room_id

abbrev pub checkpoints_of : Rooms → List RoomCheckpoint
checkpoints_of [] = []
checkpoints_of ((k, room) ∷ rooms) = Room.Persist.make_checkpoint room ∷ checkpoints_of rooms

-- `Room::make_checkpoint` always returns true, and so does this.
unfoldable pub make_checkpoint : RoomManager → List RoomCheckpoint
make_checkpoint m = sort room_before (checkpoints_of m.rooms)

-- The loop of `restore_checkpoint`, with the rooms restored so far; `none`: false is returned.
-- `size_t` has 64 bits.
unfoldable pub restore_rooms : List RoomCheckpoint → Rooms → Option Rooms
restore_rooms [] rooms = some rooms
restore_rooms (c ∷ cs) rooms =
    if ltb (u64_mod - 1) c.capacity
    then none
    else if contains c.room_id rooms
    then none
    else elim (Room.Persist.restore_checkpoint (Room.new c.room_id c.capacity) c) [
      | none ↦ none
      | some room ↦ restore_rooms cs (emplace c.room_id room rooms)
    ]

unfoldable pub restore_checkpoint : RoomManager → List RoomCheckpoint → Option RoomManager
restore_checkpoint m checkpoints = elim (restore_rooms checkpoints []) [
  | none ↦ none
  | some rooms ↦ some (record { rooms = rooms })
]
