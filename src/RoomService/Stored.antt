-- ===== src/RoomService/Stored.antt =====
-- The checkpoint of src/room_service.cpp: the identities of members and sessions always match.
use l_w.Base.{
  ℕ, ==_iff, ◌≡◌, ◌≢◌, refl, ◌∙◌, inl, inr, true, List, [], ◌∷◌, some, nat_eq, ◌==◌, map, All,
  Bool-cases,
}
use l_w.Map.{find, values}
use l_w.Sort.Laws.{sort-All}
use l_w.Checkpoint.{CheckpointMember, RoomCheckpoint, SessionCheckpoint, Identity, occurs}
use l_w.Room.{Room, Member, Members}
use l_w.Room
use l_w.Room.Invariant.{IsMember}
use l_w.Room.Persist.{checkpoint_member, stored_before}
use l_w.Room.Persist
use l_w.RoomManager.{Rooms}
use l_w.RoomManager
use l_w.RoomManager.Recovery.{room_before}
use l_w.RoomManager.Recovery
use l_w.RoomManager.Seats.{seats_inv}
use l_w.SessionManager.{
  Sessions, Token, text_eq, same_text, same_text_iff, token_before, session_checkpoint,
}
use l_w.SessionManager
use l_w.SessionManager.Handle.{Session}
use l_w.RoomService.{RoomService, World, on_base}
use l_w.RoomService.Recovery.{
  all_occur, member_identities, room_identities, session_identities, identities_match,
  make_checkpoint,
}
use l_w.RoomService.Invariant.{IsValid}
use l_w.Map.Laws.{find-All, All-find}
use l_w.RoomManager.Changes.{seat_found}
use l_w.RoomService.Identities.{All-occur, All-append, session_in, member_in}

-- A property of identities, of all members of a room and of all sessions of a list.
module _ (P : Identity → Type 0) where
  abbrev OfMembers : ℕ → List CheckpointMember → Type 0
  OfMembers k = All (λ m. P (k, m.player_id))

  member_identities-All :
      (k : ℕ) (ms : List CheckpointMember) → OfMembers k ms → All P (member_identities k ms)
  unfolding member_identities
  member_identities-All k [] a = tt
  member_identities-All k (m ∷ ms) a = (a.0, member_identities-All k ms a.1)

  room_identities-All :
      (cs : List RoomCheckpoint)
      → All (λ c. OfMembers c.room_id c.members) cs
      → All P (room_identities cs)
  unfolding room_identities
  room_identities-All [] a = tt
  room_identities-All (c ∷ cs) a =
      All-append P (member_identities c.room_id c.members) (room_identities cs)
        (member_identities-All c.room_id c.members a.0) (room_identities-All cs a.1)

  session_identities-All :
      (cs : List SessionCheckpoint)
      → All (λ c. P (c.room_id, c.player_id)) cs
      → All P (session_identities cs)
  unfolding session_identities
  session_identities-All [] a = tt
  session_identities-All (c ∷ cs) a = (a.0, session_identities-All cs a.1)

  members-All :
      (k : ℕ) (ms : Members)
      → All (λ e. P (k, e.1.player_id)) ms
      → OfMembers k (map checkpoint_member (values ms))
  members-All k [] a = tt
  members-All k (e ∷ ms) a = (a.0, members-All k ms a.1)

  rooms-All :
      (rooms : Rooms)
      → All (λ e. All (λ x. P (e.1.room_id, x.1.player_id)) e.1.members) rooms
      → All (λ c. OfMembers c.room_id c.members) (RoomManager.Recovery.checkpoints_of rooms)
  unfolding Room.Persist.make_checkpoint
  rooms-All [] a = tt
  rooms-All ((k, r) ∷ rooms) a = (
    sort-All stored_before (λ m. P (r.room_id, m.player_id))
        (map checkpoint_member (values r.members)) (members-All r.room_id r.members a.0),
    rooms-All rooms a.1,
  )

  sessions-All :
      (ss : Sessions)
      → All (λ e. P (e.1.room_id, e.1.player_id)) ss
      → All (λ c. P (c.room_id, c.player_id)) (SessionManager.checkpoints_of ss)
  sessions-All [] a = tt
  sessions-All (e ∷ ss) a = (a.0, sessions-All ss a.1)

module _ (s : RoomService) (v : IsValid s) where
  abbrev stored_rooms : List Identity
  stored_rooms = room_identities (RoomManager.Recovery.make_checkpoint s.room_manager)

  abbrev stored_sessions : List Identity
  stored_sessions = session_identities (SessionManager.make_checkpoint s.session_manager)

  -- A member has a seat, and so a session.
  member_stored :
      (k p : ℕ) (r : Room) (x : Member)
      → find k s.room_manager.rooms ≡ some r
      → find p r.members ≡ some x
      → occurs (r.room_id, x.player_id) stored_sessions ≡ true
  member_stored k p r x f g =
      let (w, number) = v.rooms.each k r f in
      let own : x.player_id ≡ p = (All-find IsMember p r.members w.each g).own_key in
      let (t, y, h, a, b) =
        v.linked.taken k p x.connection (seat_found s.room_manager.rooms k p r f ∙ (rw g refl)) in
      rw (number, own) (rw (← a, ← b) (session_in s.session_manager t y h))

  -- A session has its seat, and so a member.
  session_stored :
      (t : Token) (y : Session)
      → find t s.session_manager.sessions ≡ some y
      → occurs (y.room_id, y.player_id) stored_rooms ≡ true
  session_stored t y h =
      let (r, x, f, g, _) =
        seats_inv s.room_manager.rooms y.room_id y.player_id {w = y.connection}
          (v.linked.seated t y h) in
      let (w, number) = v.rooms.each y.room_id r f in
      let own : x.player_id ≡ y.player_id =
        (All-find IsMember y.player_id r.members w.each g).own_key in
      rw (← number, ← own) (member_in s.room_manager y.room_id y.player_id r x f g)

  rooms_occur : all_occur stored_rooms stored_sessions ≡ true
  unfolding RoomManager.Recovery.make_checkpoint
  rooms_occur =
      let P : Identity → Type 0 = λ i. occurs i stored_sessions ≡ true in
      All-occur stored_rooms stored_sessions (
        room_identities-All P (RoomManager.Recovery.make_checkpoint s.room_manager) (
          sort-All room_before (λ c. OfMembers P c.room_id c.members)
            (RoomManager.Recovery.checkpoints_of s.room_manager.rooms)
            (rooms-All P s.room_manager.rooms (
              find-All (λ e. All (λ x. P (e.1.room_id, x.1.player_id)) e.1.members)
                s.room_manager.rooms v.rooms.distinct
                (λ k r f.
                  find-All (λ x. P (r.room_id, x.1.player_id)) r.members
                    (v.rooms.each k r f).0.distinct (λ p x g. member_stored k p r x f g))))))

  sessions_occur : all_occur stored_sessions stored_rooms ≡ true
  unfolding SessionManager.make_checkpoint
  sessions_occur =
      let P : Identity → Type 0 = λ i. occurs i stored_rooms ≡ true in
      All-occur stored_sessions stored_rooms (
        session_identities-All P (SessionManager.make_checkpoint s.session_manager) (
          sort-All token_before (λ c. P (c.room_id, c.player_id))
            (SessionManager.checkpoints_of s.session_manager.sessions)
            (sessions-All P s.session_manager.sessions (
              find-All (λ e. P (e.1.room_id, e.1.player_id)) s.session_manager.sessions
                v.sessions.unique_tokens (λ t y h. session_stored t y h)))))

  -- In the base loop's thread, a checkpoint of a valid service is always made, of any generation but
  -- 0: the identities of the members of all rooms and of all sessions match.
  pub make_checkpoint_lem :
      (w : World) (generation : ℕ)
      → on_base w ≡ true
      → generation ≢ 0
      → make_checkpoint w s generation
        ≡ some (record {
          generation = generation;
          rooms = RoomManager.Recovery.make_checkpoint s.room_manager;
          sessions = SessionManager.make_checkpoint s.session_manager;
        })
  unfolding make_checkpoint identities_match
  make_checkpoint_lem w generation here some_one = elim (Bool-cases (generation == 0)) [
    | inl none_yet ↦ absurd (some_one ((==_iff generation 0).0 none_yet))
    | inr good ↦ rw (here, good) (rw (rooms_occur, sessions_occur) refl)
  ]
