-- ===== src/RoomManager/Tests.antt =====
-- The theorems about src/room_manager.cpp at a room with one member.
use l_w.Base.{ℕ, ◌≡◌, ◌≢◌, ◌⊎◌, Bool, true, List, [], ◌∷◌, none, some, is_some, nat_eq}
use l_w.Pointers.{WeakPtr, lock}
use l_w.RoomManager.{RoomManager, new, add_room, join, leave, success}
use l_w.RoomManager.Attach.{Bindingstates, bind_connection, detach_connection}
use l_w.RoomManager.Seats.{IsValid, seats, new-IsValid, add_room-IsValid}
use l_w.RoomManager.Changes.{Reseats, join-IsValid, join-seats, leave-seats}
use l_w.RoomManager.Links.{bind_connection-seats, detach_connection-seats}

abbrev everyone : ℕ → Bool
everyone c = true

abbrev ann : List ℕ
ann = 97 ∷ 110 ∷ 110 ∷ []

abbrev opened : RoomManager
opened = (add_room new 7 2).0

opened-IsValid : IsValid opened.rooms
opened-IsValid = add_room-IsValid new 7 2 new-IsValid

-- `ann` has joined room 7 through connection 5, as player 1.
abbrev entered : RoomManager
entered = (join everyone opened (some 5) 7 ann).0

entered-IsValid : IsValid entered.rooms
entered-IsValid = join-IsValid everyone opened opened-IsValid 7 5 ann

join-seats_example :
    (let (m', result) = join everyone opened (some 5) 7 ann in
      (result.state ≡ success)
      × (result.room_id ≡ 7)
      × (seats opened.rooms 7 result.player_id ≡ none)
      × Reseats opened.rooms m'.rooms 7 result.player_id (some (some 5)))
    ⊎ (((join everyone opened (some 5) 7 ann).1.state ≢ success)
        × ((join everyone opened (some 5) 7 ann).0 ≡ opened))
join-seats_example = join-seats everyone opened opened-IsValid 7 5 ann

leave-seats_example :
    (((leave everyone entered 7 1).1.state ≡ success)
      × (is_some (seats entered.rooms 7 1) ≡ true)
      × Reseats entered.rooms (leave everyone entered 7 1).0.rooms 7 1 none)
    ⊎ (((leave everyone entered 7 1).1.state ≢ success)
        × (seats entered.rooms 7 1 ≡ none)
        × ((leave everyone entered 7 1).0 ≡ entered))
leave-seats_example = leave-seats everyone entered entered-IsValid 7 1

bind_connection-seats_example :
    (let (m', result) = bind_connection everyone entered 7 1 (some 6) in
      (result.state ≡ Bindingstates.success)
      × ((result.room_id ≡ 7) × (result.player_id ≡ 1))
      × ((w : WeakPtr) × (seats entered.rooms 7 1 ≡ some w) × (lock everyone w ≡ none))
      × Reseats entered.rooms m'.rooms 7 1 (some (some 6)))
    ⊎ (((bind_connection everyone entered 7 1 (some 6)).1.state ≢ Bindingstates.success)
        × ((bind_connection everyone entered 7 1 (some 6)).0 ≡ entered))
bind_connection-seats_example = bind_connection-seats everyone entered entered-IsValid 7 1 6

detach_connection-seats_example :
    (let (m', result) = detach_connection everyone entered 7 1 (some 5) in
      (result.state ≡ Bindingstates.success)
      × ((w : WeakPtr) × (seats entered.rooms 7 1 ≡ some w) × (lock everyone w ≡ some 5))
      × Reseats entered.rooms m'.rooms 7 1 (some none))
    ⊎ (((detach_connection everyone entered 7 1 (some 5)).1.state ≢ Bindingstates.success)
        × ((detach_connection everyone entered 7 1 (some 5)).0 ≡ entered))
detach_connection-seats_example = detach_connection-seats everyone entered entered-IsValid 7 1 5
