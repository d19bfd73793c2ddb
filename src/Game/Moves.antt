-- ===== src/Game/Moves.antt =====
-- Moves on the board of src/game_state.cpp, against the geometry of the board.
use l_w.Base.{
  ℕ, ◌+◌, ◌<◌, ◌≡◌, ◌≢◌, ◌↔◌, ◌⊎◌, inl, inr, ap, true, none, some, if◌then◌else◌, arith,
  Option-cases, nat_eq, ◌==◌,
}
use l_w.Int.{ℤ, pos, ◌+ℤ◌, ◌≤ℤ◌, abs}
use l_w.Map.{find, assign}
use l_w.Map.Laws.{find-assign}
use l_w.Game.{PlayerGameState, Gamestate, move_player, is_step, success, States-discrete}
use l_w.Game.Invariant.{IsValid, entry}

abbrev pub OnBoard : ℤ → Type 0
OnBoard v = (pos 0 ≤ℤ v) × (v ≤ℤ pos 100)

-- Steps are the moves of Manhattan length 1.
step_length : (dx dy : ℤ) → (is_step dx dy ≡ true) ↔ (abs dx + abs dy ≡ 1)
step_length dx dy = ground arith

module _ (g : Gamestate) (k : ℕ) (dx dy : ℤ) where
  -- The place that a move leads to, if the rules allow it.
  abbrev pub Allowed : PlayerGameState → Type 0
  Allowed p = (abs dx + abs dy ≡ 1) × OnBoard (p.x +ℤ dx) × OnBoard (p.y +ℤ dy)

  abbrev pub moved : PlayerGameState → PlayerGameState
  moved p = record p { x = p.x +ℤ dx; y = p.y +ℤ dy }

  move_absent : find k g.players ≡ none → (move_player g k dx dy).1 ≢ success
  unfolding move_player
  move_absent e = ground (arith, e)

  success_Allowed :
      (p : PlayerGameState)
      → find k g.players ≡ some p
      → (move_player g k dx dy).1 ≡ success
      → Allowed p
  unfolding move_player
  success_Allowed p e h = ground (arith, e, step_length dx dy)

  Allowed-success :
      (p : PlayerGameState)
      → find k g.players ≡ some p
      → 0 < k
      → Allowed p
      → move_player g k dx dy ≡ (record { players = assign k (moved p) g.players }, success)
  unfolding move_player
  Allowed-success p e h a = ground (arith, e, step_length dx dy)

  move_refused : (move_player g k dx dy).1 ≢ success → (move_player g k dx dy).0 ≡ g
  unfolding move_player
  move_refused h = ground arith

  module _ (v : IsValid g) where
    -- In a valid game exactly its players can move, and exactly by a distance of 1 (the sum of the
    -- two offsets' absolute values) to a place with both coordinates from 0 to 100.
    pub move_player-success_iff :
        ((move_player g k dx dy).1 ≡ success)
        ↔ ((p : PlayerGameState) × (find k g.players ≡ some p) × Allowed p)
    move_player-success_iff = (
      λ h. elim (Option-cases (find k g.players)) [
        | inl absent ↦ absurd (move_absent absent h)
        | inr (p, e) ↦ (p, e, success_Allowed p e h)
      ],
      λ (p, e, a). ap (λ r. r.1) (Allowed-success p e (entry v k e).nonzero a),
    )

    -- A move either succeeds, adds the offsets to that player's coordinates and leaves the player's
    -- health and all other players as they were, or it is refused and leaves the whole game as it was.
    pub move_player-effect :
        ((p : PlayerGameState) × (find k g.players ≡ some p)
          × ((move_player g k dx dy).1 ≡ success)
          × ((j : ℕ)
              → find j (move_player g k dx dy).0.players
                ≡ (if k == j then some (moved p) else find j g.players)))
        ⊎ (((move_player g k dx dy).1 ≢ success) × ((move_player g k dx dy).0 ≡ g))
    move_player-effect = elim (States-discrete (move_player g k dx dy).1 success) [
      | yes h ↦ elim (Option-cases (find k g.players)) [
        | inl absent ↦ absurd (move_absent absent h)
        | inr (p, e) ↦ inl (
          p,
          e,
          h,
          λ j.
              rw (Allowed-success p e (entry v k e).nonzero (success_Allowed p e h))
                (find-assign k j (moved p) g.players),
        )
      ]
      | no h ↦ inr (h, move_refused h)
    ]
