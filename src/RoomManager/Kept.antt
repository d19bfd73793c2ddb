-- ===== src/RoomManager/Kept.antt =====
-- What the operations of src/room.cpp leave alone: the room's number, and but for joining, leaving and
-- the connections also its members.
use l_w.Base.{ℕ, ◌≡◌, refl, Bool, List, some, arith, ◌==◌, if◌then◌else◌, nat_eq}
use l_w.Map.{find}
use l_w.Map.Laws.{find-assign}
use l_w.Pointers.{WeakPtr}
use l_w.Room.{Room, Member, Gamecommand, start, submit, tick, join, leave, begin}
use l_w.Room.Binding.{rebind}

pub start-members :
    (r : Room) (ready : Bool)
    → ((start r ready).0.members ≡ r.members) × ((start r ready).0.room_id ≡ r.room_id)
unfolding start begin
start-members r ready = (ground arith, ground arith)

pub submit-members :
    (r : Room) (k : ℕ) (c : Gamecommand)
    → ((submit r k c).0.members ≡ r.members) × ((submit r k c).0.room_id ≡ r.room_id)
unfolding submit
submit-members r k c = (ground arith, ground arith)

pub tick-members : (r : Room) → ((tick r).0.members ≡ r.members) × ((tick r).0.room_id ≡ r.room_id)
unfolding tick
tick-members r = (ground arith, ground arith)

pub join-room_id : (r : Room) (c : ℕ) (name : List ℕ) → (join r (some c) name).0.room_id ≡ r.room_id
unfolding join
join-room_id r c name = ground arith

pub leave-room_id : (r : Room) (k : ℕ) → (leave r k).0.room_id ≡ r.room_id
unfolding leave
leave-room_id r k = ground arith

pub rebind-room_id :
    (r : Room) (k : ℕ) (m : Member) (w : WeakPtr) → (rebind r k m w).room_id ≡ r.room_id
rebind-room_id r k m w = refl

pub rebind-members :
    (r : Room) (k : ℕ) (m : Member) (w : WeakPtr) (j : ℕ)
    → find j (rebind r k m w).members
      ≡ (if k == j then some (record m { connection = w }) else find j r.members)
rebind-members r k m w j = find-assign k j _ r.members
