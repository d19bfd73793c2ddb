-- ===== src/Room/Stored.antt =====
-- The members of a stored room: how `restore_checkpoint` of src/room.cpp reads them back.
use l_w.Base.{
  ℕ, ◌+◌, ◌≤◌, ◌<◌, ◌≡◌, ◌↔◌, refl, subst, true, List, [], ◌∷◌, Option, none, some, length,
  if◌then◌else◌, arith, All, nat_eq, is_some,
}
use l_w.Map.{find, contains, emplace, Unique}
use l_w.Map.Laws.{find-emplace, emplace-Unique, length-emplace, All-emplace}
use l_w.Map.Sorted.{with_keys}
use l_w.Checkpoint.{CheckpointMember}
use l_w.Room.{Member, Members}
use l_w.Room.Persist.{offline_member, acceptable, restore_members, ids_below}
use l_w.Room.Invariant.{IsMember}

abbrev pub id_of : CheckpointMember → ℕ
id_of c = c.player_id

-- What is asked of each stored member by itself.
pub record IsStored (c : CheckpointMember) : Type 0 where
  pub nonzero : 0 < c.player_id
  pub name_low : 1 ≤ length c.player_name
  pub name_high : length c.player_name ≤ 32

pub acceptable_iff :
    (c : CheckpointMember) (members : Members)
    → (acceptable c members ≡ true) ↔ (IsStored c × (find c.player_id members ≡ none))
unfolding acceptable contains
acceptable_iff c members = (λ h. ground arith, λ h. ground arith)

-- The member that comes back from a stored one has no connection.
abbrev pub revive : Option CheckpointMember → Option Member
revive none = none
revive (some c) = some (offline_member c)

absent_after :
    (c : CheckpointMember) (members : Members) (cs : List CheckpointMember)
    → find c.player_id members ≡ none
    → find c.player_id (with_keys id_of cs) ≡ none
    → All (λ d. find d.player_id members ≡ none) cs
    → All (λ d. find d.player_id (emplace c.player_id (offline_member c) members) ≡ none) cs
unfolding find
absent_after c members [] h u a = tt
absent_after c members (d ∷ cs) h u a = (
  ground (arith, find-emplace c.player_id d.player_id (offline_member c) members h),
  absent_after c members cs h (ground arith) a.1,
)

-- Stored members under distinct ids are all read back, each under its id.
pub restore_members_lem :
    (cs : List CheckpointMember) (members : Members)
    → All IsStored cs
    → Unique (with_keys id_of cs)
    → All (λ c. find c.player_id members ≡ none) cs
    → (m : Members) × (restore_members cs members ≡ some m)
      × ((j : ℕ)
          → find j m ≡ (
              if is_some (find j members)
              then find j members
              else revive (find j (with_keys id_of cs))))
unfolding restore_members find
restore_members_lem [] members s u a = (members, refl, λ j. ground arith)
restore_members_lem (c ∷ cs) members s u a =
    let (m, done, found) =
      restore_members_lem cs (emplace c.player_id (offline_member c) members) s.1 u.1
        (absent_after c members cs a.0 u.0 a.1) in
    (
      m,
      rw ((acceptable_iff c members).1 (s.0, a.0)) done,
      λ j. ground (arith, found j, find-emplace c.player_id j (offline_member c) members a.0),
    )

pub restore_members_inv :
    (c : CheckpointMember) (cs : List CheckpointMember) (members : Members) {m : Members}
    → restore_members (c ∷ cs) members ≡ some m
    → IsStored c
      × (find c.player_id members ≡ none)
      × (restore_members cs (emplace c.player_id (offline_member c) members) ≡ some m)
unfolding restore_members
restore_members_inv c cs members h = ground (arith, acceptable_iff c members)

-- Whatever is read back is a list of members under distinct ids, one for each stored one.
pub restore_members-valid :
    (cs : List CheckpointMember) (members m : Members)
    → Unique members
    → All IsMember members
    → restore_members cs members ≡ some m
    → Unique m × All IsMember m × (length m ≡ length members + length cs)
unfolding restore_members
restore_members-valid [] members m u a e =
    let same : members ≡ m = cc in (subst Unique same u, subst (All IsMember) same a, ground arith)
restore_members-valid (c ∷ cs) members m u a e =
    let (good, absent, more) = restore_members_inv c cs members e in
    let (u', a', l) =
      restore_members-valid cs (emplace c.player_id (offline_member c) members) m
        (emplace-Unique c.player_id _ members u absent)
        (All-emplace IsMember c.player_id (offline_member c) members a (record {
          own_key = refl;
          nonzero = good.nonzero;
          name_low = good.name_low;
          name_high = good.name_high;
        }))
        more in
    (u', a', omega (arith, l, length-emplace c.player_id (offline_member c) members absent))

-- A bound on the stored ids holds of the members that are read back.
pub restore_members-below :
    (next : ℕ) (cs : List CheckpointMember) (members m : Members)
    → All (λ c. c.player_id < next) cs
    → All (λ e. e.0 < next) members
    → restore_members cs members ≡ some m
    → All (λ e. e.0 < next) m
unfolding restore_members
restore_members-below next [] members m b a e =
    let same : members ≡ m = cc in subst (All (λ x. x.0 < next)) same a
restore_members-below next (c ∷ cs) members m b a e =
    let (good, absent, more) = restore_members_inv c cs members e in
    restore_members-below next cs (emplace c.player_id (offline_member c) members) m b.1
      (All-emplace (λ x. x.0 < next) c.player_id (offline_member c) members a b.0) more

pub ids_below_iff : (next : ℕ) (m : Members) → (ids_below next m ≡ true) ↔ All (λ e. e.0 < next) m
unfolding ids_below
ids_below_iff next [] = (λ h. tt, λ h. refl)
ids_below_iff next ((k, x) ∷ m) = (
  λ h. (ground arith, (ids_below_iff next m).0 (ground arith)),
  λ h. ground (arith, (ids_below_iff next m).1 h.1),
)
