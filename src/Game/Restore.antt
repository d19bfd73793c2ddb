-- ===== src/Game/Restore.antt =====
-- Snapshots of src/game_state.cpp and how they are restored.
use l_w.Base.{
  ℕ, suc, ◌<◌, ◌≡◌, ◌↔◌, refl, inl, inr, ap, ◌∙◌, true, List, [], ◌∷◌, none, some, length,
  if◌then◌else◌, arith, All, Option-cases, nat_eq, is_some,
}
use l_w.Int.{pos, negsuc, ◌≤ℤ◌, -ℤ_parts, pos_part, neg_part}
use l_w.Map.{find, contains, emplace, Unique, values}
use l_w.Map.Laws.{find-emplace, All-find}
use l_w.Map.Sorted.{with_keys, find-sort, sort-Unique, with_keys-values}
use l_w.Sort.{sort}
use l_w.Sort.Laws.{sort-All, sort-All_inv, length-sort, IsSorted, sort-IsSorted, by_key}
use l_w.Game.{
  PlayerGameState, Gamestate, Players, restore, restore_entries, acceptable, snapshot, id_before,
  attack_player, success,
}
use l_w.Game.Invariant.{IsValid, IsEntry, restore_entries_inv}
use l_w.Game.Attacks.{attack_player-effect, hit}

abbrev pub id_of : PlayerGameState → ℕ
id_of p = p.player_id

-- What `restore` asks of each entry by itself.
pub record IsStorable (p : PlayerGameState) : Type 0 where
  pub nonzero : 0 < p.player_id
  pub x_low : pos 0 ≤ℤ p.x
  pub x_high : p.x ≤ℤ pos 100
  pub y_low : pos 0 ≤ℤ p.y
  pub y_high : p.y ≤ℤ pos 100
  pub hp_low : pos 0 ≤ℤ p.hp
  pub hp_high : p.hp ≤ℤ pos 100

acceptable_iff :
    (p : PlayerGameState) (players : Players)
    → (acceptable p players ≡ true) ↔ (IsStorable p × (find p.player_id players ≡ none))
unfolding acceptable contains
acceptable_iff p players = (λ h. ground arith, λ h. ground arith)

absent_after :
    (p : PlayerGameState) (players : Players) (ps : List PlayerGameState)
    → find p.player_id players ≡ none
    → find p.player_id (with_keys id_of ps) ≡ none
    → All (λ q. find q.player_id players ≡ none) ps
    → All (λ q. find q.player_id (emplace p.player_id p players) ≡ none) ps
unfolding find
absent_after p players [] h u a = tt
absent_after p players (q ∷ ps) h u a = (
  ground (arith, find-emplace p.player_id q.player_id p players h),
  absent_after p players ps h (ground arith) a.1,
)

-- With storable entries under distinct ids the loop succeeds, and adds each under its id.
restore_entries_lem :
    (ps : List PlayerGameState) (players : Players)
    → All IsStorable ps
    → Unique (with_keys id_of ps)
    → All (λ p. find p.player_id players ≡ none) ps
    → (r : Players) × (restore_entries ps players ≡ some r)
      × ((j : ℕ)
          → find j r
            ≡ (if is_some (find j players) then find j players else find j (with_keys id_of ps)))
unfolding restore_entries find
restore_entries_lem [] players s u a = (players, refl, λ j. ground arith)
restore_entries_lem (p ∷ ps) players s u a =
    let (r, done, found) =
      restore_entries_lem ps (emplace p.player_id p players) s.1 u.1
        (absent_after p players ps a.0 u.0 a.1) in
    (
      r,
      rw ((acceptable_iff p players).1 (s.0, a.0)) done,
      λ j. ground (arith, found j, find-emplace p.player_id j p players a.0),
    )

-- Every health is 0 or more.
abbrev pub IsHealthy : Gamestate → Type 0
IsHealthy g = All (λ e. pos 0 ≤ℤ (e.1).hp) g.players

own_keys : (m : Players) → All IsEntry m → All (λ e. id_of e.1 ≡ e.0) m
own_keys [] h = tt
own_keys (e ∷ m) h = (h.0.own_key, own_keys m h.1)

storable :
    (m : Players) → All IsEntry m → All (λ e. pos 0 ≤ℤ (e.1).hp) m → All IsStorable (values m)
storable [] h k = tt
storable ((i, p) ∷ m) h k = (omega (arith, h.0, k.0), storable m h.1 k.1)

all_absent :
    (ps : List PlayerGameState) → All (λ p. find {V = PlayerGameState} p.player_id [] ≡ none) ps
unfolding find
all_absent [] = tt
all_absent (p ∷ ps) = (refl, all_absent ps)

length-values : (m : Players) → length (values m) ≡ length m
length-values [] = refl
length-values (e ∷ m) = ap suc (length-values m)

module _ (g : Gamestate) (v : IsValid g) where
  keyed : with_keys id_of (values g.players) ≡ g.players
  keyed = with_keys-values id_of g.players (own_keys g.players v.entries)

  distinct_values : Unique (with_keys id_of (values g.players))
  distinct_values = rw keyed v.distinct

  -- A snapshot is sorted by player id, has as many entries as there are players, and holds under each
  -- id what the game holds.
  pub snapshot_lem :
      IsSorted id_before (snapshot g)
      × (length (snapshot g) ≡ length g.players)
      × ((j : ℕ) → find j (with_keys id_of (snapshot g)) ≡ find j g.players)
  unfolding snapshot
  snapshot_lem = (
    sort-IsSorted id_before (by_key id_of) (values g.players),
    length-sort id_before (values g.players) ∙ length-values g.players,
    λ j. find-sort id_of (values g.players) j distinct_values ∙ ap (find j) keyed,
  )

  -- A valid game without negative health comes back from its snapshot: restoring it into any game
  -- state succeeds, with the same entry for every player id.
  pub restore-snapshot :
      IsHealthy g
      → (old : Gamestate)
      → (h : Gamestate) × (restore old (snapshot g) ≡ some h)
        × ((j : ℕ) → find j h.players ≡ find j g.players)
  unfolding restore snapshot
  restore-snapshot healthy old =
      let (r, done, found) =
        restore_entries_lem (snapshot g) []
          (sort-All id_before IsStorable (values g.players) (storable g.players v.entries healthy))
          (sort-Unique id_of (values g.players) distinct_values) (all_absent (snapshot g)) in
      (
        record { players = r },
        ground (arith, done, snapshot_lem.1, v.bounded),
        λ j. found j ∙ unfold find in snapshot_lem.2 j,
      )

restore_entries-healthy :
    (ps : List PlayerGameState) (players : Players) {r : Players}
    → restore_entries ps players ≡ some r
    → All (λ p. pos 0 ≤ℤ p.hp) ps
restore_entries-healthy [] players e = tt
restore_entries-healthy (p ∷ ps) players e =
    let (ok, more) = restore_entries_inv p ps players e in
    let (good, absent) = (acceptable_iff p players).0 ok in
    (good.hp_low, restore_entries-healthy ps (emplace p.player_id p players) more)

values-All : (m : Players) → All (λ p. pos 0 ≤ℤ p.hp) (values m) → All (λ e. pos 0 ≤ℤ (e.1).hp) m
values-All [] h = tt
values-All (e ∷ m) h = (h.0, values-All m h.1)

-- A game that has come to hold a negative health cannot be restored from its snapshot.
restore_unhealthy :
    (g old : Gamestate) (k : ℕ) (t : PlayerGameState)
    → find k g.players ≡ some t
    → t.hp ≤ℤ negsuc 0
    → restore old (snapshot g) ≡ none
unfolding restore snapshot
restore_unhealthy g old k t e low =
    elim (Option-cases (restore_entries (sort id_before (values g.players)) [])) [
      | inl fails ↦ ground (arith, fails)
      | inr (r, done) ↦ absurd (
          omega (
            arith,
            low,
            All-find (λ x. pos 0 ≤ℤ (x.1).hp) k g.players
                (values-All g.players
                  (sort-All_inv id_before _ (values g.players) (restore_entries-healthy _ [] done)))
                e,
          ))
    ]

-- A target whose health is less than the damage of an attack, which `restore` accepts, is left with
-- a negative health by an attack that succeeds, and the snapshot of the game is then refused.
pub attack_below_zero :
    (g : Gamestate) (i k : ℕ) (t : PlayerGameState)
    → IsValid g
    → find k g.players ≡ some t
    → t.hp ≤ℤ pos 9
    → (attack_player g i k).1.state ≡ success
    → (old : Gamestate) → restore old (snapshot (attack_player g i k).0) ≡ none
attack_below_zero g i k t v e low h old = elim (attack_player-effect g v i k) [
  | inl (t', e', _, found, _, _) ↦
      restore_unhealthy (attack_player g i k).0 old k (hit g i k t') (found k ∙ ground arith) (
        let same : t ≡ t' = ground arith in
        omega (
          arith,
          low,
          ap (λ p. pos_part p.hp) same,
          ap (λ p. neg_part p.hp) same,
          -ℤ_parts t'.hp (pos 10),
        ))
  | inr (refused, _, _) ↦ absurd (refused h)
]
