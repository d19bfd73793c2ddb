-- ===== src/RoomService/Recovery.antt =====
-- src/room_service.cpp: the checkpoint of the whole server and how it is restored.
use l_w.Base.{
  ℕ, Bool, true, false, ◌&&◌, not, List, [], ◌∷◌, ◌++◌, Option, none, some, ◌==◌, if◌then◌else◌,
}
use l_w.Checkpoint.{
  CheckpointMember, RoomCheckpoint, SessionCheckpoint, ServerCheckpoint, Identity, occurs,
}
use l_w.RoomManager
use l_w.RoomManager.Recovery
use l_w.SessionManager
use l_w.RoomService.{RoomService, World, on_base}

unfoldable pub all_occur : List Identity → List Identity → Bool
all_occur [] js = true
all_occur (i ∷ is) js = occurs i js && all_occur is js

unfoldable pub member_identities : ℕ → List CheckpointMember → List Identity
member_identities room_id [] = []
member_identities room_id (m ∷ ms) = (room_id, m.player_id) ∷ member_identities room_id ms

unfoldable pub room_identities : List RoomCheckpoint → List Identity
room_identities [] = []
room_identities (c ∷ cs) = member_identities c.room_id c.members ++ room_identities cs

unfoldable pub session_identities : List SessionCheckpoint → List Identity
session_identities [] = []
session_identities (c ∷ cs) = (c.room_id, c.player_id) ∷ session_identities cs

unfoldable pub identities_match : List RoomCheckpoint → List SessionCheckpoint → Bool
identities_match rooms sessions =
    all_occur (room_identities rooms) (session_identities sessions)
    && all_occur (session_identities sessions) (room_identities rooms)

-- `none`: false is returned.
unfoldable pub make_checkpoint : World → RoomService → ℕ → Option ServerCheckpoint
make_checkpoint w s generation =
    let rooms = RoomManager.Recovery.make_checkpoint s.room_manager in
    let sessions = SessionManager.make_checkpoint s.session_manager in
    if generation == 0
    then none
    else if not (on_base w)
    then none
    else if not (identities_match rooms sessions)
    then none
    else some (record { generation = generation; rooms = rooms; sessions = sessions })

-- The rooms are replaced before the sessions are looked at.
unfoldable pub restore_checkpoint : World → RoomService → ServerCheckpoint → ℕ → RoomService × Bool
restore_checkpoint w s checkpoint now =
    if checkpoint.generation == 0
    then (s, false)
    else if not (on_base w)
    then (s, false)
    else if not (identities_match checkpoint.rooms checkpoint.sessions)
    then (s, false)
    else elim (RoomManager.Recovery.restore_checkpoint s.room_manager checkpoint.rooms) [
      | none ↦ (s, false)
      | some rooms ↦
          elim (SessionManager.restore_checkpoint s.session_manager checkpoint.sessions now) [
            | none ↦ (record s { room_manager = rooms }, false)
            | some sessions ↦ (record { room_manager = rooms; session_manager = sessions }, true)
          ]
    ]
