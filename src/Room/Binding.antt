-- ===== src/Room/Binding.antt =====
-- src/room.cpp: the members' connections, for reconnecting and for broadcasts.
use l_w.Base.{ℕ, Bool, List, [], ◌∷◌, none, some, ltb, ◌==◌, if◌then◌else◌, map, nat_eq}
use l_w.Map.{find, assign, values}
use l_w.Sort.{sort}
use l_w.Game.{PlayerGameState}
use l_w.Game
use l_w.Pointers.{ConnectionPtr, WeakPtr, lock}
use l_w.Protocol.{MemberInfo}
use l_w.Room.{Room, Member, Members, member_info, Bindingstates}

unfoldable pub member_snapshot : Room → List MemberInfo
member_snapshot r = sort (λ a b. ltb a.player_id b.player_id) (map member_info (values r.members))

unfoldable pub game_snapshot : Room → List PlayerGameState
game_snapshot r = Game.snapshot r.game_state

-- Sets the weak reference of one member.
abbrev pub rebind : Room → ℕ → Member → WeakPtr → Room
rebind r player_id m w = record r {
  members = assign player_id (record m { connection = w }) r.members;
}

module _ (alive : ℕ → Bool) where
  unfoldable pub connections_of : ℕ → Members → List ℕ
  connections_of excluded [] = []
  connections_of excluded ((k, m) ∷ ms) =
      let rest = connections_of excluded ms in
      if k == excluded
      then rest
      else elim (lock alive m.connection) [ none ↦ rest | some c ↦ c ∷ rest ]

  unfoldable pub connections : Room → ℕ → List ℕ
  connections r excluded = connections_of excluded r.members

  unfoldable pub bind_connection : Room → ℕ → ConnectionPtr → Room × Bindingstates
  bind_connection r player_id none = (r, Bindingstates.invalid_connection)
  bind_connection r player_id (some connection) = elim (find player_id r.members) [
    | none ↦ (r, Bindingstates.player_not_found)
    | some m ↦ elim (lock alive m.connection) [
      | some existing ↦ (r, Bindingstates.already_bound)
      | none ↦ (rebind r player_id m (some connection), Bindingstates.success)
    ]
  ]

  unfoldable pub detach_connection : Room → ℕ → ConnectionPtr → Room × Bindingstates
  detach_connection r player_id none = (r, Bindingstates.invalid_connection)
  detach_connection r player_id (some connection) = elim (find player_id r.members) [
    | none ↦ (r, Bindingstates.player_not_found)
    | some m ↦ elim (lock alive m.connection) [
      | none ↦ (r, Bindingstates.not_bound)
      | some existing ↦
          if existing == connection
          then (rebind r player_id m none, Bindingstates.success)
          else (r, Bindingstates.connection_mismatch)
    ]
  ]
