-- ===== src/Game/Tests.antt =====
-- The theorems about src/game_state.cpp at concrete games.
use l_w.Base.{
  ℕ, ◌≡◌, ◌≢◌, ◌↔◌, ◌⊎◌, refl, true, false, [], ◌∷◌, none, some, arith, length, if◌then◌else◌, ◌==◌,
  nat_eq,
}
use l_w.Int.{pos, negsuc, ◌-ℤ◌, ◌≤ℤ◌}
use l_w.Map.{find, contains, emplace}
use l_w.Map.Sorted.{with_keys}
use l_w.Sort.Laws.{IsSorted}
use l_w.Game.{
  PlayerGameState, Gamestate, success, new, initialize, check_ids, move_player, attack_player,
  strike, snapshot, restore, restore_entries, acceptable, id_before,
}
use l_w.Game.Invariant.{IsValid, restore-IsValid}
use l_w.Game.Moves.{Allowed, moved, move_player-success_iff, move_player-effect}
use l_w.Game.Attacks.{CanHit, hit, attack_player-success_iff, attack_player-effect}
use l_w.Game.Restore.{IsHealthy, id_of, snapshot_lem, restore-snapshot, attack_below_zero}
use l_w.Game.Initialize.{starter, initialize_lem}

abbrev first : PlayerGameState
first = record { player_id = 1; x = pos 0; y = pos 0; hp = pos 100 }

-- A player who is nearly dead, as `restore` accepts one.
abbrev weak : PlayerGameState
weak = record { player_id = 2; x = pos 1; y = pos 0; hp = pos 5 }

abbrev pair : Gamestate
pair = record { players = (2, weak) ∷ (1, first) ∷ [] }

pair-IsValid : IsValid pair
unfolding find
pair-IsValid = record { distinct = ground arith; entries = ground arith; bounded = ground arith }

pair-IsHealthy : IsHealthy pair
pair-IsHealthy = ground arith

move_player-success_iff_example :
    ((move_player pair 1 (pos 0) (pos 1)).1 ≡ success)
    ↔ ((p : PlayerGameState) × (find 1 pair.players ≡ some p) × Allowed pair 1 (pos 0) (pos 1) p)
move_player-success_iff_example = move_player-success_iff pair 1 (pos 0) (pos 1) pair-IsValid

move_player-effect_example :
    ((p : PlayerGameState) × (find 1 pair.players ≡ some p)
      × ((move_player pair 1 (negsuc 0) (pos 0)).1 ≡ success)
      × ((j : ℕ)
          → find j (move_player pair 1 (negsuc 0) (pos 0)).0.players
            ≡ (if 1 == j then some (moved pair 1 (negsuc 0) (pos 0) p) else find j pair.players)))
    ⊎ (((move_player pair 1 (negsuc 0) (pos 0)).1 ≢ success)
        × ((move_player pair 1 (negsuc 0) (pos 0)).0 ≡ pair))
move_player-effect_example = move_player-effect pair 1 (negsuc 0) (pos 0) pair-IsValid

attack_player-success_iff_example :
    ((attack_player pair 1 2).1.state ≡ success)
    ↔ ((a : PlayerGameState) × (t : PlayerGameState) × CanHit pair 1 2 a t)
attack_player-success_iff_example = attack_player-success_iff pair pair-IsValid 1 2

attack_player-effect_example :
    ((t : PlayerGameState) × (find 2 pair.players ≡ some t)
      × ((attack_player pair 1 2).1.state ≡ success)
      × ((j : ℕ)
          → find j (attack_player pair 1 2).0.players
            ≡ (if 2 == j then some (hit pair 1 2 t) else find j pair.players))
      × ((attack_player pair 1 2).1.remaining_hp ≡ t.hp -ℤ pos 10)
      × (((attack_player pair 1 2).1.target_eliminated ≡ true) ↔ (t.hp -ℤ pos 10 ≤ℤ pos 0)))
    ⊎ (((attack_player pair 1 2).1.state ≢ success)
        × ((attack_player pair 1 2).0 ≡ pair)
        × ((attack_player pair 1 2).1.target_eliminated ≡ false))
attack_player-effect_example = attack_player-effect pair pair-IsValid 1 2

attack_below_zero_example : restore new (snapshot (attack_player pair 1 2).0) ≡ none
unfolding attack_player strike find ◌-ℤ◌
attack_below_zero_example = attack_below_zero pair 1 2 weak pair-IsValid refl (omega arith) refl new

snapshot_lem_example :
    IsSorted id_before (snapshot pair)
    × (length (snapshot pair) ≡ length pair.players)
    × ((j : ℕ) → find j (with_keys id_of (snapshot pair)) ≡ find j pair.players)
snapshot_lem_example = snapshot_lem pair pair-IsValid

restore-snapshot_example :
    (h : Gamestate) × (restore new (snapshot pair) ≡ some h)
    × ((j : ℕ) → find j h.players ≡ find j pair.players)
restore-snapshot_example = restore-snapshot pair pair-IsValid pair-IsHealthy new

restore-IsValid_example : IsValid (record { players = (1, first) ∷ (2, weak) ∷ [] })
unfolding restore restore_entries acceptable emplace find contains
restore-IsValid_example = restore-IsValid new (first ∷ weak ∷ []) refl

initialize_lem_example : find 5 (initialize new (5 ∷ 3 ∷ [])).0.players ≡ some (starter 5 1)
unfolding initialize check_ids emplace contains find
initialize_lem_example = initialize_lem new (5 ∷ 3 ∷ []) refl 5
