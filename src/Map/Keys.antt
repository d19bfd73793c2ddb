-- ===== src/Map/Keys.antt =====
-- Maps with the same keys.
use l_w.Base.{
  ℕ, ◌≡◌, sym, ◌∙◌, inl, inr, true, List, [], ◌∷◌, none, some, length, arith, ◌==◌, nat_eq, is_some,
  Bool-cases, Option-cases,
}
use l_w.Map.{find, assign, erase, Unique}
use l_w.Map.Laws.{find-assign, find-erase, length-erase, erase-Unique}

module _ {ℓ κ} {V : Type ℓ} {W : Type κ} where
  abbrev pub SameKeys : List (ℕ × V) → List (ℕ × W) → Type 0
  SameKeys m n = (j : ℕ) → is_some (find j m) ≡ is_some (find j n)

  -- Every key of the first map is one of the second.
  abbrev pub Within : List (ℕ × V) → List (ℕ × W) → Type 0
  Within [] n = Unit
  Within ((k, v) ∷ m) n = (is_some (find k n) ≡ true) × Within m n

  pub erase-SameKeys :
      (k : ℕ) (m : List (ℕ × V)) (n : List (ℕ × W))
      → Unique m
      → Unique n
      → SameKeys m n
      → SameKeys (erase k m) (erase k n)
  erase-SameKeys k m n u w s j = ground (arith, find-erase k j m u, find-erase k j n w, s j)

  Within-erase :
      (k : ℕ) (m : List (ℕ × V)) (n : List (ℕ × W))
      → Unique n
      → find k m ≡ none
      → Within m n
      → Within m (erase k n)
  unfolding find
  Within-erase k [] n u h w = tt
  Within-erase k ((i, v) ∷ m) n u h w =
      (ground (arith, find-erase k i n u, w.0), Within-erase k m n u (ground arith) w.1)

  Within-forward :
      (m : List (ℕ × V)) (n : List (ℕ × W)) (j : ℕ)
      → Within m n
      → is_some (find j m) ≡ true
      → is_some (find j n) ≡ true
  unfolding find
  Within-forward [] n j w h = cc
  Within-forward ((k, v) ∷ m) n j w h = elim (Bool-cases (k == j)) [
    | inl same ↦ let e : k ≡ j = ground arith in rw (← e) w.0
    | inr other ↦ Within-forward m n j w.1 (ground arith)
  ]

  Within-back :
      (m : List (ℕ × V)) (n : List (ℕ × W)) (j : ℕ)
      → Unique m
      → Unique n
      → length m ≡ length n
      → Within m n
      → is_some (find j n) ≡ true
      → is_some (find j m) ≡ true
  unfolding find
  Within-back [] [] j u w l i h = cc
  Within-back [] (x ∷ n) j u w l i h = absurd (omega arith)
  Within-back ((k, v) ∷ m) n j u w l i h = elim (Option-cases (find k n)) [
    | inl missing ↦ absurd (ground (arith, i.0))
    | inr (x, there) ↦ elim (Bool-cases (k == j)) [
      | inl same ↦ ground arith
      | inr other ↦ rw other (
          Within-back m (erase k n) j u.1 (erase-Unique k n w)
            (omega (arith, length-erase k n {old = x} there)) (Within-erase k m n w u.0 i.1)
            (ground (arith, find-erase k j n w)))
    ]
  ]

  -- As many keys, all of them keys of the other map: then the keys are the same.
  pub Within-SameKeys :
      (m : List (ℕ × V)) (n : List (ℕ × W))
      → Unique m
      → Unique n
      → length m ≡ length n
      → Within m n
      → SameKeys m n
  Within-SameKeys m n u w l i j = elim (Bool-cases (is_some (find j n))) [
    | inl there ↦ Within-back m n j u w l i there ∙ sym there
    | inr missing ↦ elim (Bool-cases (is_some (find j m))) [
      | inl there ↦ absurd (cc (Within-forward m n j i there))
      | inr gone ↦ gone ∙ sym missing
    ]
  ]

module _ {ℓ} {V : Type ℓ} where
  pub assign-SameKeys :
      (k : ℕ) (m : List (ℕ × V)) (v : V) {old : V} → find k m ≡ some old → SameKeys (assign k v m) m
  assign-SameKeys k m v h j = ground (arith, find-assign k j v m)
