-- ===== src/Room/Batch.antt =====
-- The commands of one tick of src/room.cpp, executed one after the other on the game.
use l_w.Base.{
  ℕ, suc, ◌+◌, ◌-◌, ◌≤◌, ◌≡◌, refl, ◌∙◌, subst, inl, inr, false, List, [], ◌∷◌, some, length,
  if◌then◌else◌, arith, Bool-cases, nat_eq, ◌==◌,
}
use l_w.Int.{ℤ, pos, ◌+ℤ◌, ◌-ℤ◌, ◌≤ℤ◌, pos_part, neg_part, -ℤ_parts, abs}
use l_w.Map.{find}
use l_w.Game.Keys.{SamePlayers, move_player-SamePlayers, attack_player-SamePlayers}
use l_w.Game.{Gamestate, PlayerGameState}
use l_w.Game
use l_w.Game.Invariant
use l_w.Game.Moves.{move_player-effect, move_player-success_iff}
use l_w.Game.Attacks.{attack_player-effect}
use l_w.Room.{
  Gamecommand, move_command, attack_command, command_player, pending_for, process_command,
  process_all,
}
use l_w.Room.Invariant.{OncePerPlayer}

-- How far apart two coordinates are.
abbrev pub gap : ℤ → ℤ → ℕ
gap a b =
    (pos_part a + neg_part b - (pos_part b + neg_part a))
    + (pos_part b + neg_part a - (pos_part a + neg_part b))

-- From `p` to `q` in at most `n` steps, without getting better.
pub record Drifts (n : ℕ) (p q : PlayerGameState) : Type 0 where
  pub steps : gap q.x p.x + gap q.y p.y ≤ n
  pub health : q.hp ≤ℤ p.hp

abbrev pub share : ℕ → Gamecommand → ℕ
share j c = if command_player c == j then 1 else 0

gap_add : (a d : ℤ) → gap (a +ℤ d) a ≡ abs d
unfolding ◌+ℤ◌
gap_add a d = ground arith

step_Drifts :
    (o : PlayerGameState) (dx dy : ℤ)
    → abs dx + abs dy ≡ 1
    → Drifts 1 o (record o { x = o.x +ℤ dx; y = o.y +ℤ dy })
step_Drifts o dx dy h = omega (arith, gap_add o.x dx, gap_add o.y dy)

hit_Drifts : (t : PlayerGameState) → Drifts 0 t (record t { hp = t.hp -ℤ pos 10 })
hit_Drifts t = omega (arith, -ℤ_parts t.hp (pos 10))

drift_further :
    (m n k : ℕ) (p q r : PlayerGameState) → Drifts m p q → Drifts n q r → m + n ≡ k → Drifts k p r
drift_further m n k p q r d e h = omega (arith, d, e)

-- How many of the commands are the player's.
abbrev pub commands_of : ℕ → List Gamecommand → ℕ
commands_of j [] = 0
commands_of j (c ∷ cs) = share j c + commands_of j cs

module _ (g : Gamestate) (v : Game.Invariant.IsValid g) where
  process_command-SamePlayers : (c : Gamecommand) → SamePlayers (process_command g c).0 g
  unfolding process_command
  process_command-SamePlayers (move_command k dx dy) = move_player-SamePlayers g v k dx dy
  process_command-SamePlayers (attack_command k t) = attack_player-SamePlayers g v k t

  process_command-IsValid : (c : Gamecommand) → Game.Invariant.IsValid (process_command g c).0
  unfolding process_command
  process_command-IsValid (move_command k dx dy) = Game.Invariant.move_player-IsValid g k dx dy v
  process_command-IsValid (attack_command k t) = Game.Invariant.attack_player-IsValid g k t v

  moved-Drifts :
      (k j : ℕ) (dx dy : ℤ) (p : PlayerGameState)
      → find j g.players ≡ some p
      → (q : PlayerGameState) × (find j (Game.move_player g k dx dy).0.players ≡ some q)
        × Drifts (share j (move_command k dx dy)) p q
  moved-Drifts k j dx dy p e = elim (move_player-effect g k dx dy v) [
    | inl (o, eo, done, found) ↦ elim (Bool-cases (k == j)) [
      | inl same ↦
          let me : k ≡ j = ground arith in
          let who : o ≡ p = ground arith in
          let (o', eo', allowed) = (move_player-success_iff g k dx dy v).0 done in
          (
            record o { x = o.x +ℤ dx; y = o.y +ℤ dy },
            rw (found j, same),
            rw same (
                subst (λ z. Drifts 1 z (record o { x = o.x +ℤ dx; y = o.y +ℤ dy })) who
                  (step_Drifts o dx dy allowed.0)),
          )
      | inr other ↦ (p, rw (found j, other) e, omega arith)
    ]
    | inr (refused, unchanged) ↦ (p, rw unchanged e, omega arith)
  ]

  attacked-Drifts :
      (i k j : ℕ) (p : PlayerGameState)
      → find j g.players ≡ some p
      → (q : PlayerGameState) × (find j (Game.attack_player g i k).0.players ≡ some q)
        × Drifts 0 p q
  attacked-Drifts i k j p e = elim (attack_player-effect g v i k) [
    | inl (t, et, done, found, _, _) ↦ elim (Bool-cases (k == j)) [
      | inl same ↦
          let me : k ≡ j = ground arith in
          let who : t ≡ p = ground arith in
          (
            record t { hp = t.hp -ℤ pos 10 },
            rw (found j, same),
            subst (λ z. Drifts 0 z (record t { hp = t.hp -ℤ pos 10 })) who (hit_Drifts t),
          )
      | inr other ↦ (p, rw (found j, other) e, omega arith)
    ]
    | inr (refused, unchanged, _) ↦ (p, rw unchanged e, omega arith)
  ]

  command-Drifts :
      (c : Gamecommand) (j : ℕ) (p : PlayerGameState)
      → find j g.players ≡ some p
      → (q : PlayerGameState) × (find j (process_command g c).0.players ≡ some q)
        × Drifts (share j c) p q
  unfolding process_command
  command-Drifts (move_command k dx dy) j p e = moved-Drifts k j dx dy p e
  command-Drifts (attack_command i k) j p e =
      let (q, f, d) = attacked-Drifts i k j p e in (q, f, omega (arith, d))

-- A batch of commands carries a player no further than it has commands of that player.
pub process_all-Drifts :
    (cs : List Gamecommand) (g : Gamestate) (n : ℕ)
    → Game.Invariant.IsValid g
    → (j : ℕ) (p : PlayerGameState) → find j g.players ≡ some p
    → (q : PlayerGameState) × (find j (process_all g n cs).0.players ≡ some q)
      × Drifts (commands_of j cs) p q
unfolding process_all
process_all-Drifts [] g n v j p e = (p, e, omega arith)
process_all-Drifts (c ∷ cs) g n v j p e =
    let (q, eq, d) = command-Drifts g v c j p e in
    let (r, er, d') =
      process_all-Drifts cs (process_command g c).0 (if (process_command g c).1 then suc n else n)
        (process_command-IsValid g v c) j q eq in
    (r, er, drift_further (share j c) (commands_of j cs) _ p q r d d' refl)

pub process_all-IsValid :
    (cs : List Gamecommand) (g : Gamestate) (n : ℕ)
    → Game.Invariant.IsValid g
    → Game.Invariant.IsValid (process_all g n cs).0
unfolding process_all
process_all-IsValid [] g n v = v
process_all-IsValid (c ∷ cs) g n v =
    process_all-IsValid cs (process_command g c).0 (if (process_command g c).1 then suc n else n)
      (process_command-IsValid g v c)

pub process_all-le :
    (cs : List Gamecommand) (g : Gamestate) (n : ℕ) → (process_all g n cs).1 ≤ n + length cs
unfolding process_all
process_all-le [] g n = omega arith
process_all-le (c ∷ cs) g n = ground (
  arith,
  process_all-le cs (process_command g c).0 (if (process_command g c).1 then suc n else n),
)

none_pending : (j : ℕ) (cs : List Gamecommand) → pending_for j cs ≡ false → commands_of j cs ≡ 0
unfolding pending_for
none_pending j [] h = refl
none_pending j (c ∷ cs) h = ground (arith, none_pending j cs)

pub OncePerPlayer-le : (j : ℕ) (cs : List Gamecommand) → OncePerPlayer cs → commands_of j cs ≤ 1
OncePerPlayer-le j [] h = omega arith
OncePerPlayer-le j (c ∷ cs) h = elim (Bool-cases (command_player c == j)) [
  | inl same ↦
      let me : command_player c ≡ j = ground arith in
      ground (arith, none_pending j cs (subst (λ i. pending_for i cs ≡ false) me h.0))
  | inr other ↦ ground (arith, OncePerPlayer-le j cs h.1)
]

pub process_all-SamePlayers :
    (cs : List Gamecommand) (g : Gamestate) (n : ℕ)
    → Game.Invariant.IsValid g
    → SamePlayers (process_all g n cs).0 g
unfolding process_all
process_all-SamePlayers [] g n v = (refl, λ j. refl)
process_all-SamePlayers (c ∷ cs) g n v =
    let (l, s) = process_command-SamePlayers g v c in
    let (l', s') =
      process_all-SamePlayers cs (process_command g c).0
        (if (process_command g c).1 then suc n else n) (process_command-IsValid g v c) in
    (l' ∙ l, λ j. s' j ∙ s j)
