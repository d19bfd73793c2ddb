-- ===== src/Game/Initialize.antt =====
-- The start of a game in src/game_state.cpp: which id lists are accepted, and where players stand.
use l_w.Base.{
  ℕ, suc, ◌+◌, ◌≤◌, ◌<◌, ◌≡◌, ◌↔◌, refl, subst, inl, inr, ◌∙◌, Bool, true, false, List, [], ◌∷◌,
  none, some, length, ltb, if◌then◌else◌, arith, All, Bool-cases, nat_eq, ◌==◌, ◌||◌,
}
use l_w.Int.{pos}
use l_w.Map.{find, contains, emplace, assign}
use l_w.Map.Laws.{find-emplace, find-assign}
use l_w.Sort.{insert, sort}
use l_w.Sort.Laws.{IsSorted, sort-IsSorted, by_key, length-sort}
use l_w.Game.{PlayerGameState, Gamestate, Players, success, check_ids, place, initialize}

abbrev pub elem : ℕ → List ℕ → Bool
elem k [] = false
elem k (x ∷ xs) = x == k || elem k xs

-- The ids are not 0 and all different.
abbrev pub AreProper : List ℕ → Type 0
AreProper [] = Unit {0}
AreProper (k ∷ ks) = (0 < k) × (elem k ks ≡ false) × AreProper ks

-- How many ids are smaller.
abbrev pub rank : ℕ → List ℕ → ℕ
rank k [] = 0
rank k (x ∷ xs) = (if ltb x k then 1 else 0) + rank k xs

abbrev pub starter : ℕ → ℕ → PlayerGameState
starter k n = record { player_id = k; x = pos n; y = pos 0; hp = pos 100 }

abbrev Unseen : List (ℕ × Bool) → List ℕ → Type 0
Unseen check = All (λ k. find k check ≡ none)

-- The loop has seen no id that still comes.
Unseen-after :
    (k : ℕ) (check : List (ℕ × Bool)) (ks : List ℕ)
    → find k check ≡ none
    → (Unseen (emplace k true check) ks) ↔ (Unseen check ks × (elem k ks ≡ false))
Unseen-after k check [] h = (λ _. (tt, refl), λ _. tt)
Unseen-after k check (x ∷ xs) h = (
  λ u.
      let rest = (Unseen-after k check xs h).0 u.1 in
      (
        (ground (arith, find-emplace k x true check h, u.0), rest.0),
        ground (arith, find-emplace k x true check h, u.0, rest.1),
      ),
  λ (u, e). (
    ground (arith, find-emplace k x true check h, u.0),
    (Unseen-after k check xs h).1 (u.1, ground arith),
  ),
)

check_ids_iff :
    (check : List (ℕ × Bool)) (ks : List ℕ)
    → (check_ids check ks ≡ success) ↔ (AreProper ks × Unseen check ks)
unfolding check_ids contains
check_ids_iff check [] = (λ _. (tt, tt), λ _. refl)
check_ids_iff check (k ∷ ks) = (
  λ h.
      let absent : find k check ≡ none = ground arith in
      let rest = (check_ids_iff (emplace k true check) ks).0 (ground arith) in
      let (unseen, fresh) = (Unseen-after k check ks absent).0 rest.1 in
      ((ground arith, fresh, rest.0), (absent, unseen)),
  λ (p, u).
      let rest =
        (check_ids_iff (emplace k true check) ks).1
          (p.2, (Unseen-after k check ks u.0).1 (u.1, p.1)) in
      ground (arith, rest),
)

no-Unseen : (ks : List ℕ) → Unseen [] ks
unfolding find
no-Unseen [] = tt
no-Unseen (k ∷ ks) = (refl, no-Unseen ks)

-- A list of ids starts a game exactly if it is not empty, has at most 101 ids, none of them 0, and
-- no id twice.
pub initialize-success_iff :
    (g : Gamestate) (ids : List ℕ)
    → ((initialize g ids).1 ≡ success) ↔ ((1 ≤ length ids) × (length ids ≤ 101) × AreProper ids)
unfolding initialize
initialize-success_iff g [] = (λ h. ground arith, λ h. absurd (omega arith))
initialize-success_iff g (k ∷ ks) = (
  λ h. (omega arith, ground arith, ((check_ids_iff [] (k ∷ ks)).0 (ground arith)).0),
  λ (_, few, proper). ground (arith, (check_ids_iff [] (k ∷ ks)).1 (proper, no-Unseen (k ∷ ks))),
)

module _ (j : ℕ) where
  elem-insert : (k : ℕ) (ks : List ℕ) → elem j (insert ltb k ks) ≡ (k == j || elem j ks)
  unfolding insert
  elem-insert k [] = refl
  elem-insert k (x ∷ xs) = ground (arith, elem-insert k xs)

  elem-sort : (ks : List ℕ) → elem j (sort ltb ks) ≡ elem j ks
  unfolding sort
  elem-sort [] = refl
  elem-sort (k ∷ ks) = elem-insert k (sort ltb ks) ∙ (rw (elem-sort ks))

  rank-insert : (k : ℕ) (ks : List ℕ) → rank j (insert ltb k ks) ≡ rank j (k ∷ ks)
  unfolding insert
  rank-insert k [] = refl
  rank-insert k (x ∷ xs) = ground (arith, rank-insert k xs)

  rank-sort : (ks : List ℕ) → rank j (sort ltb ks) ≡ rank j ks
  unfolding sort
  rank-sort [] = refl
  rank-sort (k ∷ ks) = omega (arith, rank-insert k (sort ltb ks), rank-sort ks)

insert-AreProper :
    (k : ℕ) (ks : List ℕ) → 0 < k → elem k ks ≡ false → AreProper ks → AreProper (insert ltb k ks)
unfolding insert
insert-AreProper k [] h e p = (h, refl, tt)
insert-AreProper k (x ∷ xs) h e p = ground (arith, insert-AreProper k xs h, elem-insert x k xs)

sort-AreProper : (ks : List ℕ) → AreProper ks → AreProper (sort ltb ks)
unfolding sort
sort-AreProper [] p = tt
sort-AreProper (k ∷ ks) p =
    insert-AreProper k (sort ltb ks) p.0 (elem-sort k ks ∙ p.1) (sort-AreProper ks p.2)

-- In a sorted list nothing behind an id is smaller.
rank_head : (k : ℕ) (ks : List ℕ) → All (λ x. ltb x k ≡ false) ks → rank k ks ≡ 0
rank_head k [] h = refl
rank_head k (x ∷ xs) h = ground (arith, rank_head k xs h.1)

elem_All : (P : ℕ → Type 0) (j : ℕ) (ks : List ℕ) → All P ks → elem j ks ≡ true → P j
elem_All P j [] h e = cc
elem_All P j (x ∷ xs) h e = elim (Bool-cases (x == j)) [
  | inl same ↦ let eq : x ≡ j = ground arith in subst P eq h.0
  | inr other ↦ elem_All P j xs h.1 (ground arith)
]

find-place :
    (n : ℕ) (ks : List ℕ) (m : Players) (j : ℕ)
    → AreProper ks
    → IsSorted ltb ks
    → find j (place n ks m) ≡ (if elem j ks then some (starter j (n + rank j ks)) else find j m)
unfolding place
find-place n [] m j p s = refl
find-place n (k ∷ ks) m j p s = ground (
  arith,
  find-place (suc n) ks (assign k (starter k n) m) j p.2 s.1,
  find-assign k j (starter k n) m,
  rank_head k ks s.0,
  elem_All (λ x. ltb x k ≡ false) j ks s.0,
)

-- A game that starts has exactly the given players; each has 100 health and stands on the bottom
-- line, in the column that counts how many of the given ids are smaller than its own.
pub initialize_lem :
    (g : Gamestate) (ids : List ℕ)
    → (initialize g ids).1 ≡ success
    → (j : ℕ)
    → find j (initialize g ids).0.players
      ≡ (if elem j ids then some (starter j (rank j ids)) else none)
unfolding initialize find
initialize_lem g [] h j = ground arith
initialize_lem g (k ∷ ks) h j = ground (
  arith,
  (initialize-success_iff g (k ∷ ks)).0 h,
  find-place 0 (sort ltb (k ∷ ks)) [] j
      (sort-AreProper (k ∷ ks) ((initialize-success_iff g (k ∷ ks)).0 h).2)
      (sort-IsSorted ltb (by_key (λ i. i)) (k ∷ ks)),
  elem-sort j (k ∷ ks),
  rank-sort j (k ∷ ks),
)

assigned_absent :
    (k : ℕ) (p : PlayerGameState) (m : Players) (ks : List ℕ)
    → elem k ks ≡ false
    → All (λ j. find j m ≡ none) ks
    → All (λ j. find j (assign k p m) ≡ none) ks
assigned_absent k p m [] e a = tt
assigned_absent k p m (x ∷ ks) e a =
    (ground (arith, find-assign k x p m, a.0), assigned_absent k p m ks (ground arith) a.1)

length-assign_absent :
    (k : ℕ) (p : PlayerGameState) (m : Players)
    → find k m ≡ none
    → length (assign k p m) ≡ length m + 1
unfolding assign find
length-assign_absent k p [] h = omega arith
length-assign_absent k p (e ∷ m) h = ground (arith, length-assign_absent k p m)

length-place :
    (n : ℕ) (ks : List ℕ) (m : Players)
    → AreProper ks
    → All (λ j. find j m ≡ none) ks
    → length (place n ks m) ≡ length m + length ks
unfolding place
length-place n [] m p a = omega arith
length-place n (k ∷ ks) m p a = omega (
  arith,
  length-place (suc n) ks (assign k (starter k n) m) p.2
      (assigned_absent k (starter k n) m ks p.1 a.1),
  length-assign_absent k (starter k n) m a.0,
)

nobody : (ks : List ℕ) → All (λ j. find {V = PlayerGameState} j [] ≡ none) ks
unfolding find
nobody [] = tt
nobody (k ∷ ks) = (refl, nobody ks)

-- A game that starts has as many players as ids were given.
pub length-initialize :
    (g : Gamestate) (ids : List ℕ)
    → (initialize g ids).1 ≡ success
    → length (initialize g ids).0.players ≡ length ids
unfolding initialize
length-initialize g [] h = ground arith
length-initialize g (k ∷ ks) h = ground (
  arith,
  (initialize-success_iff g (k ∷ ks)).0 h,
  length-place 0 (sort ltb (k ∷ ks)) []
      (sort-AreProper (k ∷ ks) ((initialize-success_iff g (k ∷ ks)).0 h).2)
      (nobody (sort ltb (k ∷ ks))),
  length-sort ltb (k ∷ ks),
)
