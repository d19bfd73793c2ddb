-- ===== src/Room/RoundTrip.antt =====
-- The members that src/room.cpp stores are the ones that it reads back.
use l_w.Base.{
  ℕ, suc, ◌<◌, ◌≡◌, refl, ap, ◌∙◌, true, List, [], ◌∷◌, Option, none, some, length, arith, All,
  nat_eq, is_some, map,
}
use l_w.Map.{find, contains, Unique, values}
use l_w.Map.Sorted.{with_keys, find-sort, sort-Unique}
use l_w.Sort.{sort}
use l_w.Sort.Laws.{sort-All, length-sort}
use l_w.Checkpoint.{CheckpointMember}
use l_w.Game.{Gamestate, PlayerGameState}
use l_w.Game
use l_w.Game.Invariant
use l_w.Room.{Member, Members}
use l_w.Room.Persist.{checkpoint_member, stored_before, restore_members, ids_below, all_members}
use l_w.Room.Invariant.{IsMember}
use l_w.Room.Stored.{
  id_of, IsStored, revive, restore_members_lem, restore_members-valid, restore_members-below,
  ids_below_iff,
}

abbrev pub stored : Members → List CheckpointMember
stored m = map checkpoint_member (values m)

stored_map : Option Member → Option CheckpointMember
stored_map none = none
stored_map (some m) = some (checkpoint_member m)

find-stored :
    (m : Members) (j : ℕ)
    → All IsMember m
    → find j (with_keys id_of (stored m)) ≡ stored_map (find j m)
unfolding find stored_map
find-stored [] j a = refl
find-stored ((k, x) ∷ m) j a = ground (arith, a.0, find-stored m j a.1)

stored-Unique : (m : Members) → All IsMember m → Unique m → Unique (with_keys id_of (stored m))
unfolding stored_map
stored-Unique [] a u = tt
stored-Unique ((k, x) ∷ m) a u =
    (rw (a.0.own_key, find-stored m k a.1, u.0), stored-Unique m a.1 u.1)

stored-All : (m : Members) → All IsMember m → All IsStored (stored m)
stored-All [] a = tt
stored-All ((k, x) ∷ m) a = (omega (arith, a.0), stored-All m a.1)

stored-below :
    (next : ℕ) (m : Members)
    → All IsMember m
    → All (λ e. e.0 < next) m
    → All (λ c. c.player_id < next) (stored m)
stored-below next [] a b = tt
stored-below next ((k, x) ∷ m) a b = (omega (arith, a.0, b.0), stored-below next m a.1 b.1)

pub length-stored : (m : Members) → length (stored m) ≡ length m
length-stored [] = refl
length-stored (e ∷ m) = ap suc (length-stored m)

nobody : (cs : List CheckpointMember) → All (λ c. find {V = Member} c.player_id [] ≡ none) cs
unfolding find
nobody [] = tt
nobody (c ∷ cs) = (refl, nobody cs)

-- A member as it comes back: with its id and name, and no connection.
abbrev pub offline : Option Member → Option Member
offline none = none
offline (some m) =
    some (record { player_id = m.player_id; player_name = m.player_name; connection = none })

revive-stored : (o : Option Member) → revive (stored_map o) ≡ offline o
unfolding stored_map
revive-stored none = refl
revive-stored (some m) = refl

module _ (m : Members) (a : All IsMember m) (u : Unique m) where
  abbrev saved : List CheckpointMember
  saved = sort stored_before (stored m)

  -- The stored members of a room are read back as they were, without connections.
  pub saved_lem :
      (n : Members) × (restore_members saved [] ≡ some n)
      × ((j : ℕ) → find j n ≡ offline (find j m))
      × (length n ≡ length m)
  unfolding find
  saved_lem =
      let (n, done, found) =
        restore_members_lem saved [] (sort-All stored_before IsStored (stored m) (stored-All m a))
          (sort-Unique id_of (stored m) (stored-Unique m a u)) (nobody saved) in
      let (_, _, l) = restore_members-valid saved [] n tt tt done in
      (
        n,
        done,
        λ j.
            found j
            ∙ ap revive (find-sort id_of (stored m) j (stored-Unique m a u) ∙ find-stored m j a)
            ∙ revive-stored (find j m),
        omega (arith, l, length-sort stored_before (stored m), length-stored m),
      )

  pub saved-below :
      (next : ℕ) (n : Members)
      → All (λ e. e.0 < next) m
      → restore_members saved [] ≡ some n
      → ids_below next n ≡ true
  saved-below next n b done = (ids_below_iff next n).1 (
      restore_members-below next saved [] n
        (sort-All stored_before _ (stored m) (stored-below next m a b)) tt done)

-- Every player of a game is found among members that have the same ids.
pub known :
    (players : Game.Players) (n : Members)
    → All (λ e. is_some (find e.0 n) ≡ true) players
    → All Game.Invariant.IsEntry players
    → All (λ p. is_some (find p.player_id n) ≡ true) (values players)
known [] n h e = tt
known ((k, p) ∷ players) n h e = (rw e.0.own_key h.0, known players n h.1 e.1)

pub all_members_lem :
    (ps : List PlayerGameState) (n : Members)
    → All (λ p. is_some (find p.player_id n) ≡ true) ps
    → all_members ps n ≡ true
unfolding all_members contains
all_members_lem [] n h = refl
all_members_lem (p ∷ ps) n h = rw (h.0, all_members_lem ps n h.1)

pub within_itself :
    (players : Game.Players) (whole : Members)
    → Unique players
    → ((j : ℕ) → is_some (find j players) ≡ true → is_some (find j whole) ≡ true)
    → All (λ e. is_some (find e.0 whole) ≡ true) players
unfolding find
within_itself [] whole u h = tt
within_itself ((k, p) ∷ players) whole u h =
    (h k (ground arith), within_itself players whole u.1 (λ j f. h j (ground (arith, u.0))))
