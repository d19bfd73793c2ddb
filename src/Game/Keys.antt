-- ===== src/Game/Keys.antt =====
-- Moves and attacks in src/game_state.cpp neither add nor remove players.
use l_w.Base.{ℕ, ◌≡◌, inl, inr, some, length, arith, Option-cases, nat_eq}
use l_w.Int.{ℤ, ◌+ℤ◌, ◌-ℤ◌, pos}
use l_w.Map.{find}
use l_w.Map.Laws.{length-assign}
use l_w.Map.Keys.{SameKeys}
use l_w.Game.{PlayerGameState, Gamestate, move_player, attack_player, strike}
use l_w.Game.Invariant.{IsValid}
use l_w.Game.Moves.{move_player-effect}
use l_w.Game.Attacks.{attack_player-effect}

-- The same number of players, under the same ids.
abbrev pub SamePlayers : Gamestate → Gamestate → Type 0
SamePlayers h g = (length h.players ≡ length g.players) × SameKeys h.players g.players

length-strike :
    (g : Gamestate) (i k : ℕ) (a t : PlayerGameState)
    → find k g.players ≡ some t
    → length (strike g i k a t).0.players ≡ length g.players
unfolding strike
length-strike g i k a t e =
    ground (arith, length-assign k (record t { hp = t.hp -ℤ pos 10 }) g.players {old = t} e)

module _ (g : Gamestate) where
  length-move_player :
      (k : ℕ) (dx dy : ℤ) → length (move_player g k dx dy).0.players ≡ length g.players
  unfolding move_player
  length-move_player k dx dy = elim (Option-cases (find k g.players)) [
    | inl absent ↦ ground (arith, absent)
    | inr (p, e) ↦ ground (
      arith,
      e,
      length-assign k (record p { x = p.x +ℤ dx; y = p.y +ℤ dy }) g.players {old = p} e,
    )
  ]

  length-attack_player : (i k : ℕ) → length (attack_player g i k).0.players ≡ length g.players
  unfolding attack_player
  length-attack_player i k = elim (Option-cases (find i g.players)) [
    | inl absent ↦ ground (arith, absent)
    | inr (a, ea) ↦ elim (Option-cases (find k g.players)) [
      | inl absent ↦ ground (arith, ea, absent)
      | inr (t, et) ↦ ground (arith, ea, et, length-strike g i k a t et)
    ]
  ]

  module _ (v : IsValid g) where
    pub move_player-SamePlayers : (k : ℕ) (dx dy : ℤ) → SamePlayers (move_player g k dx dy).0 g
    move_player-SamePlayers k dx dy = (
      length-move_player k dx dy,
      λ j. elim (move_player-effect g k dx dy v) [
        | inl (p, e, _, found) ↦ ground (arith, found j, e)
        | inr (_, unchanged) ↦ rw unchanged
      ],
    )

    pub attack_player-SamePlayers : (i k : ℕ) → SamePlayers (attack_player g i k).0 g
    attack_player-SamePlayers i k = (
      length-attack_player i k,
      λ j. elim (attack_player-effect g v i k) [
        | inl (t, e, _, found, _, _) ↦ ground (arith, found j, e)
        | inr (_, unchanged, _) ↦ rw unchanged
      ],
    )
