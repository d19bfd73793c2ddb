-- ===== src/Game/Invariant.antt =====
-- What holds of every game state of src/game_state.cpp.
use l_w.Base.{
  ℕ, suc, ◌+◌, ◌≤◌, ◌<◌, ◌≡◌, subst, inl, inr, Bool, true, List, [], ◌∷◌, none, some, length, ltb,
  arith, All, Option-cases, nat_eq,
}
use l_w.Int.{ℤ, pos, negsuc, ◌+ℤ◌, ◌-ℤ◌, ◌≤ℤ◌, -ℤ_parts}
use l_w.Map.{find, contains, emplace, assign, erase, Unique}
use l_w.Map.Laws.{
  emplace-Unique, assign-Unique, erase-Unique, length-emplace, length-assign, length-erase,
  length-assign-le, All-find, All-emplace, All-assign, All-erase,
}
use l_w.Sort.{sort}
use l_w.Sort.Laws.{length-sort, sort-All}
use l_w.Game.{
  PlayerGameState, Gamestate, Players, new, initialize, place, remove_player, move_player, restore,
  restore_entries, attack_player, strike, success, check_ids, acceptable,
}

-- An entry stands under its own id, on the board, with at most the initial health. A hit may take
-- the health below 0, but only by less than its damage.
pub record IsEntry (e : ℕ × PlayerGameState) : Type 0 where
  pub own_key : (e.1).player_id ≡ e.0
  pub nonzero : 0 < e.0
  pub x_low : pos 0 ≤ℤ (e.1).x
  pub x_high : (e.1).x ≤ℤ pos 100
  pub y_low : pos 0 ≤ℤ (e.1).y
  pub y_high : (e.1).y ≤ℤ pos 100
  pub hp_low : negsuc 8 ≤ℤ (e.1).hp
  pub hp_high : (e.1).hp ≤ℤ pos 100

pub record IsValid (g : Gamestate) : Type 0 where
  pub distinct : Unique g.players
  pub entries : All IsEntry g.players
  pub bounded : length g.players ≤ 101

pub new-IsValid : IsValid new
new-IsValid = record { distinct = tt; entries = tt; bounded = omega arith }

pub entry :
    {g : Gamestate} (v : IsValid g) (k : ℕ) {p : PlayerGameState}
    → find k g.players ≡ some p
    → IsEntry (k, p)
entry v k e = All-find IsEntry k _ v.entries e

pub assign-IsValid :
    (g : Gamestate) (k : ℕ) (p q : PlayerGameState)
    → IsValid g
    → find k g.players ≡ some p
    → IsEntry (k, q)
    → IsValid (record { players = assign k q g.players })
assign-IsValid g k p q v h e = record {
  distinct = assign-Unique k q g.players v.distinct;
  entries = All-assign IsEntry k q g.players v.entries e;
  bounded = omega (arith, length-assign k q g.players {old = p} h, v.bounded);
}

pub erase-IsValid :
    (g : Gamestate) (k : ℕ) (p : PlayerGameState)
    → IsValid g
    → find k g.players ≡ some p
    → IsValid (record { players = erase k g.players })
erase-IsValid g k p v h = record {
  distinct = erase-Unique k g.players v.distinct;
  entries = All-erase IsEntry k g.players v.entries;
  bounded = omega (arith, length-erase k g.players {old = p} h, v.bounded);
}

pub remove_player_present :
    (g : Gamestate) (k : ℕ) {p : PlayerGameState}
    → 0 < k
    → find k g.players ≡ some p
    → remove_player g k ≡ (record { players = erase k g.players }, success)
unfolding remove_player contains
remove_player_present g k h e = ground arith

pub remove_player-IsValid : (g : Gamestate) (k : ℕ) → IsValid g → IsValid (remove_player g k).0
unfolding remove_player contains
remove_player-IsValid g k v = elim (Option-cases (find k g.players)) [
  | inl absent ↦ ground (arith, absent)
  | inr (p, e) ↦ ground (arith, e, erase-IsValid g k p v e)
]

moved-IsEntry :
    (k : ℕ) (p : PlayerGameState) (dx dy : ℤ)
    → IsEntry (k, p)
    → pos 0 ≤ℤ p.x +ℤ dx
    → p.x +ℤ dx ≤ℤ pos 100
    → pos 0 ≤ℤ p.y +ℤ dy
    → p.y +ℤ dy ≤ℤ pos 100
    → IsEntry (k, record p { x = p.x +ℤ dx; y = p.y +ℤ dy })
moved-IsEntry k p dx dy e a b c d = record {
  own_key = e.own_key;
  nonzero = e.nonzero;
  x_low = a;
  x_high = b;
  y_low = c;
  y_high = d;
  hp_low = e.hp_low;
  hp_high = e.hp_high;
}

pub move_player-IsValid :
    (g : Gamestate) (k : ℕ) (dx dy : ℤ) → IsValid g → IsValid (move_player g k dx dy).0
unfolding move_player
move_player-IsValid g k dx dy v = elim (Option-cases (find k g.players)) [
  | inl absent ↦ ground (arith, absent)
  | inr (p, e) ↦ ground (
    arith,
    e,
    moved-IsEntry k p dx dy (entry v k e),
    assign-IsValid g k p (record p { x = p.x +ℤ dx; y = p.y +ℤ dy }) v e,
  )
]

-- A hit on a living target leaves an entry.
struck-IsEntry :
    (k : ℕ) (t : PlayerGameState)
    → IsEntry (k, t)
    → pos 1 ≤ℤ t.hp
    → IsEntry (k, record t { hp = t.hp -ℤ pos 10 })
struck-IsEntry k t e alive = omega (arith, e, -ℤ_parts t.hp (pos 10))

strike-IsValid :
    (g : Gamestate) (i k : ℕ) (a t : PlayerGameState)
    → IsValid g
    → find k g.players ≡ some t
    → IsValid (strike g i k a t).0
unfolding strike
strike-IsValid g i k a t v e = ground (
  arith,
  struck-IsEntry k t (entry v k e),
  assign-IsValid g k t (record t { hp = t.hp -ℤ pos 10 }) v e,
)

pub attack_player-IsValid : (g : Gamestate) (i k : ℕ) → IsValid g → IsValid (attack_player g i k).0
unfolding attack_player
attack_player-IsValid g i k v = elim (Option-cases (find i g.players)) [
  | inl absent ↦ ground (arith, absent)
  | inr (a, ea) ↦ elim (Option-cases (find k g.players)) [
    | inl absent ↦ ground (arith, ea, absent)
    | inr (t, et) ↦ ground (arith, ea, et, strike-IsValid g i k a t v et)
  ]
]

-- What the checking loop of `initialize` has found when it succeeds.
pub check_ids-nonzero :
    (check : List (ℕ × Bool)) (ids : List ℕ) → check_ids check ids ≡ success → All (λ k. 0 < k) ids
unfolding check_ids
check_ids-nonzero check [] h = tt
check_ids-nonzero check (id ∷ ids) h =
    (ground arith, check_ids-nonzero (emplace id true check) ids (ground arith))

place-IsValid :
    (n : ℕ) (ids : List ℕ) (players : Players)
    → All (λ k. 0 < k) ids
    → n + length ids ≤ 101
    → Unique players
    → All IsEntry players
    → length players ≤ n
    → IsValid (record { players = place n ids players })
unfolding place
place-IsValid n [] players h l u a b = record { distinct = u; entries = a; bounded = omega arith }
place-IsValid n (id ∷ ids) players h l u a b =
    place-IsValid (suc n) ids _ h.1 (omega arith) (assign-Unique id _ players u)
      (All-assign IsEntry id _ players a (omega (arith, h.0)))
      (omega (
        arith,
        length-assign-le id (record { player_id = id; x = pos n; y = pos 0; hp = pos 100 }) players,
      ))

pub initialize-IsValid : (g : Gamestate) (ids : List ℕ) → IsValid g → IsValid (initialize g ids).0
unfolding initialize
initialize-IsValid g [] v = v
initialize-IsValid g (id ∷ ids) v = ground (arith, placed)
  where
    all_ids : List ℕ
    all_ids = id ∷ ids

    placed :
        check_ids [] all_ids ≡ success
        → length all_ids ≤ 101
        → IsValid (record { players = place 0 (sort ltb all_ids) [] })
    placed h l =
        place-IsValid 0 (sort ltb all_ids) []
          (sort-All ltb _ all_ids (check_ids-nonzero [] all_ids h))
          (omega (arith, length-sort ltb all_ids)) tt tt (omega arith)

pub acceptable-IsEntry :
    (p : PlayerGameState) (players : Players)
    → acceptable p players ≡ true
    → IsEntry (p.player_id, p) × (find p.player_id players ≡ none)
unfolding acceptable contains
acceptable-IsEntry p players h = ground arith

pub restore_entries_inv :
    (p : PlayerGameState) (ps : List PlayerGameState) (players : Players) {result : Players}
    → restore_entries (p ∷ ps) players ≡ some result
    → (acceptable p players ≡ true)
      × (restore_entries ps (emplace p.player_id p players) ≡ some result)
unfolding restore_entries
restore_entries_inv p ps players e = ground arith

pub restore_entries-IsValid :
    (ps : List PlayerGameState) (players result : Players)
    → Unique players
    → All IsEntry players
    → length players + length ps ≤ 101
    → restore_entries ps players ≡ some result
    → IsValid (record { players = result })
unfolding restore_entries
restore_entries-IsValid [] players result u a b e =
    let same : players ≡ result = cc in
    subst (λ m. IsValid (record { players = m })) same
      (record { distinct = u; entries = a; bounded = omega arith })
restore_entries-IsValid (p ∷ ps) players result u a b e =
    let (ok, more) = restore_entries_inv p ps players e in
    let (good, absent) = acceptable-IsEntry p players ok in
    restore_entries-IsValid ps (emplace p.player_id p players) result
      (emplace-Unique p.player_id p players u absent)
      (All-emplace IsEntry p.player_id p players a good)
      (omega (arith, length-emplace p.player_id p players absent)) more

pub restore_inv :
    (g : Gamestate) (states : List PlayerGameState) {h : Gamestate}
    → restore g states ≡ some h
    → (length states ≤ 101) × (restore_entries states [] ≡ some h.players)
unfolding restore
restore_inv g states e = ground arith

-- Whatever entries are restored, if they are accepted the game is valid: at most 101 players, each
-- under its own id other than 0, on the board, with a health of at least -9 and at most 100.
pub restore-IsValid :
    (g : Gamestate) (states : List PlayerGameState) {h : Gamestate}
    → restore g states ≡ some h
    → IsValid h
restore-IsValid g states {h} e =
    let (few, done) = restore_inv g states e in
    restore_entries-IsValid states [] h.players tt tt (omega arith) done
