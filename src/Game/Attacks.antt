-- ===== src/Game/Attacks.antt =====
-- Attacks in src/game_state.cpp, against the rules of the game.
use l_w.Base.{
  ℕ, ◌≤◌, ◌<◌, ◌≡◌, ◌≢◌, ◌↔◌, ◌⊎◌, inl, inr, ap, ◌∙◌, true, false, some, if◌then◌else◌, arith,
  Option-cases, nat_eq, ◌==◌, not,
}
use l_w.Int.{pos, ◌-ℤ◌, ◌≤ℤ◌, ltb_ℤ}
use l_w.Map.{find, assign}
use l_w.Map.Laws.{find-assign}
use l_w.Game.{PlayerGameState, Gamestate, attack_player, strike, distance, success, States-discrete}
use l_w.Game.Invariant.{IsValid, entry}

module _ (g : Gamestate) (i k : ℕ) where
  -- Two different players, both alive, at most one cell apart.
  pub record CanHit (a t : PlayerGameState) : Type 0 where
    pub others : i ≢ k
    pub attacker : find i g.players ≡ some a
    pub target : find k g.players ≡ some t
    pub attacker_alive : pos 1 ≤ℤ a.hp
    pub target_alive : pos 1 ≤ℤ t.hp
    pub near : distance a t ≤ 1

  abbrev pub hit : PlayerGameState → PlayerGameState
  hit t = record t { hp = t.hp -ℤ pos 10 }

  strike_near :
      (a t : PlayerGameState)
      → (strike g i k a t).1.state ≡ success
      → (pos 1 ≤ℤ a.hp) × (pos 1 ≤ℤ t.hp) × (distance a t ≤ 1)
  unfolding strike
  strike_near a t h = ground arith

  success_CanHit :
      (attack_player g i k).1.state ≡ success
      → (a : PlayerGameState) × (t : PlayerGameState) × CanHit a t
  unfolding attack_player
  success_CanHit h = elim (Option-cases (find i g.players)) [
    | inl absent ↦ absurd (ground (arith, absent))
    | inr (a, ea) ↦ elim (Option-cases (find k g.players)) [
      | inl absent ↦ absurd (ground (arith, ea, absent))
      | inr (t, et) ↦ (a, t, ground (arith, ea, et, strike_near a t))
    ]
  ]

  strike_refused :
      (a t : PlayerGameState) → (strike g i k a t).1.state ≢ success → (strike g i k a t).0 ≡ g
  unfolding strike
  strike_refused a t h = ground arith

  attack_refused : (attack_player g i k).1.state ≢ success → (attack_player g i k).0 ≡ g
  unfolding attack_player
  attack_refused h = elim (Option-cases (find i g.players)) [
    | inl absent ↦ ground (arith, absent)
    | inr (a, ea) ↦ elim (Option-cases (find k g.players)) [
      | inl absent ↦ ground (arith, ea, absent)
      | inr (t, et) ↦ ground (arith, ea, et, strike_refused a t)
    ]
  ]

  strike_quiet :
      (a t : PlayerGameState)
      → (strike g i k a t).1.state ≢ success
      → (strike g i k a t).1.target_eliminated ≡ false
  unfolding strike
  strike_quiet a t h = ground arith

  refused_quietly :
      (attack_player g i k).1.state ≢ success → (attack_player g i k).1.target_eliminated ≡ false
  unfolding attack_player
  refused_quietly h = elim (Option-cases (find i g.players)) [
    | inl absent ↦ ground (arith, absent)
    | inr (a, ea) ↦ elim (Option-cases (find k g.players)) [
      | inl absent ↦ ground (arith, ea, absent)
      | inr (t, et) ↦ ground (arith, ea, et, strike_quiet a t)
    ]
  ]

  strike_lem :
      (a t : PlayerGameState)
      → CanHit a t
      → strike g i k a t ≡ (
        record { players = assign k (hit t) g.players },
        record {
          state = success;
          attacker_id = i;
          target_player_id = k;
          remaining_hp = (hit t).hp;
          target_eliminated = not (ltb_ℤ (pos 0) (hit t).hp);
        },
      )
  unfolding strike
  strike_lem a t c = ground arith

  CanHit-attack :
      (a t : PlayerGameState) → 0 < i → 0 < k → CanHit a t → attack_player g i k ≡ strike g i k a t
  unfolding attack_player
  CanHit-attack a t h l c = ground arith

module _ (g : Gamestate) (v : IsValid g) (i k : ℕ) where
  -- In a valid game an attack succeeds exactly if attacker and target are two different players of
  -- the game, both with health above 0, at a distance of at most 1.
  pub attack_player-success_iff :
      ((attack_player g i k).1.state ≡ success)
      ↔ ((a : PlayerGameState) × (t : PlayerGameState) × CanHit g i k a t)
  attack_player-success_iff = (success_CanHit g i k, λ (a, t, c). reported a t c)
    where
      reported :
          (a t : PlayerGameState) → CanHit g i k a t → (attack_player g i k).1.state ≡ success
      reported a t c =
          rw (CanHit-attack g i k a t (entry v i c.attacker).nonzero (entry v k c.target).nonzero c)
            (ap (λ r. r.1.state) (strike_lem g i k a t c))

  -- An attack either takes exactly 10 from the target's health, leaves all other players as they
  -- were, and reports the health that is left and whether that is 0 or less; or it is refused, leaves
  -- the whole game as it was, and reports no elimination.
  pub attack_player-effect :
      ((t : PlayerGameState) × (find k g.players ≡ some t)
        × ((attack_player g i k).1.state ≡ success)
        × ((j : ℕ)
            → find j (attack_player g i k).0.players
              ≡ (if k == j then some (hit g i k t) else find j g.players))
        × ((attack_player g i k).1.remaining_hp ≡ t.hp -ℤ pos 10)
        × (((attack_player g i k).1.target_eliminated ≡ true) ↔ (t.hp -ℤ pos 10 ≤ℤ pos 0)))
      ⊎ (((attack_player g i k).1.state ≢ success)
          × ((attack_player g i k).0 ≡ g)
          × ((attack_player g i k).1.target_eliminated ≡ false))
  attack_player-effect = elim (States-discrete (attack_player g i k).1.state success) [
    | yes h ↦
        let (a, t, c) = success_CanHit g i k h in
        inl (
          t,
          c.target,
          h,
          λ j. rw (outcome a t c) (find-assign k j (hit g i k t) g.players),
          (rw (outcome a t c)),
          (rw (outcome a t c) (eliminated t)),
        )
    | no h ↦ inr (h, attack_refused g i k h, refused_quietly g i k h)
  ]
    where
      outcome :
          (a t : PlayerGameState)
          → CanHit g i k a t
          → attack_player g i k ≡ (
            record { players = assign k (hit g i k t) g.players },
            record {
              state = success;
              attacker_id = i;
              target_player_id = k;
              remaining_hp = (hit g i k t).hp;
              target_eliminated = not (ltb_ℤ (pos 0) (hit g i k t).hp);
            },
          )
      outcome a t c =
          CanHit-attack g i k a t (entry v i c.attacker).nonzero (entry v k c.target).nonzero c
          ∙ strike_lem g i k a t c

      eliminated :
          (t : PlayerGameState)
          → (not (ltb_ℤ (pos 0) (t.hp -ℤ pos 10)) ≡ true) ↔ (t.hp -ℤ pos 10 ≤ℤ pos 0)
      eliminated t = ground arith
