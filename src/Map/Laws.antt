-- ===== src/Map/Laws.antt =====
-- The laws of lookups in maps.
use l_w.Base.{
  ◌+◌, ◌≤◌, ◌≡◌, refl, subst, ◌∙◌, false, List, [], ◌∷◌, none, some, if◌then◌else◌, length, Eq, All,
  arith, inl, inr, Bool-cases,
}
use l_w.Map.{find, emplace, assign, erase, Unique}

module _ {ℓ κ} {K : Type ℓ} {V : Type κ} ⦃e : Eq K⦄ where
  pub find-emplace :
      (k j : K) (v : V) (m : List (K × V))
      → find k m ≡ none
      → find j (emplace k v m) ≡ (if e.beq k j then some v else find j m)
  unfolding find emplace
  find-emplace k j v [] h = refl
  find-emplace k j v ((i, w) ∷ m) h =
      ground (arith, e.beq_iff k j, e.beq_iff i k, e.beq_iff i j, find-emplace k j v m)

  pub find-assign :
      (k j : K) (v : V) (m : List (K × V))
      → find j (assign k v m) ≡ (if e.beq k j then some v else find j m)
  unfolding find assign
  find-assign k j v [] = refl
  find-assign k j v ((i, w) ∷ m) =
      ground (arith, e.beq_iff k j, e.beq_iff i k, e.beq_iff i j, find-assign k j v m)

  pub find-erase :
      (k j : K) (m : List (K × V))
      → Unique m
      → find j (erase k m) ≡ (if e.beq k j then none else find j m)
  unfolding find erase
  find-erase k j [] u = ground arith
  find-erase k j ((i, w) ∷ m) u =
      ground (arith, e.beq_iff k j, e.beq_iff i k, e.beq_iff i j, find-erase k j m u.1, same)
    where
      same : i ≡ j → find j m ≡ none
      same p = subst (λ t. find t m ≡ none) p u.0

  find-nil : (k : K) → find {V = V} k [] ≡ none
  unfolding find
  find-nil k = refl

  emplace-new :
      (k : K) (v : V) (i : K) (w : V) (m : List (K × V))
      → find k ((i, w) ∷ m) ≡ none
      → (e.beq i k ≡ false) × (find k m ≡ none) × (e.beq k i ≡ false)
  unfolding find
  emplace-new k v i w m h = ground (arith, e.beq_iff i k, e.beq_iff k i)

  pub emplace-Unique :
      (k : K) (v : V) (m : List (K × V)) → Unique m → find k m ≡ none → Unique (emplace k v m)
  unfolding emplace
  emplace-Unique k v [] u h = (h, tt)
  emplace-Unique k v ((i, w) ∷ m) u h =
      let (differs, absent, differs') = emplace-new k v i w m h in
      rw differs (find-emplace k i v m absent ∙ (rw differs' u.0), emplace-Unique k v m u.1 absent)

  pub assign-Unique : (k : K) (v : V) (m : List (K × V)) → Unique m → Unique (assign k v m)
  unfolding assign
  assign-Unique k v [] u = (find-nil k, tt)
  assign-Unique k v ((i, w) ∷ m) u = elim (Bool-cases (e.beq i k)) [
    | inl same ↦ rw same u
    | inr differs ↦ rw differs (
      find-assign k i v m ∙ ground (arith, e.beq_iff i k, e.beq_iff k i, u.0),
      assign-Unique k v m u.1,
    )
  ]

  pub erase-Unique : (k : K) (m : List (K × V)) → Unique m → Unique (erase k m)
  unfolding erase
  erase-Unique k [] u = tt
  erase-Unique k ((i, w) ∷ m) u = elim (Bool-cases (e.beq i k)) [
    | inl same ↦ rw same u.1
    | inr differs ↦ rw differs (
      find-erase k i m u.1 ∙ ground (arith, e.beq_iff i k, e.beq_iff k i, u.0),
      erase-Unique k m u.1,
    )
  ]

  pub erase_absent : (k : K) (m : List (K × V)) → find k m ≡ none → erase k m ≡ m
  unfolding erase find
  erase_absent k [] h = refl
  erase_absent k ((i, w) ∷ m) h = ground (arith, erase_absent k m)

  -- How the size changes.
  pub length-emplace :
      (k : K) (v : V) (m : List (K × V)) → find k m ≡ none → length (emplace k v m) ≡ length m + 1
  unfolding emplace find
  length-emplace k v [] h = omega arith
  length-emplace k v ((i, w) ∷ m) h = ground (arith, length-emplace k v m)

  pub length-assign :
      (k : K) (v : V) (m : List (K × V)) {old : V}
      → find k m ≡ some old
      → length (assign k v m) ≡ length m
  unfolding assign find
  length-assign k v [] h = cc
  length-assign k v ((i, w) ∷ m) {old} h = ground (arith, length-assign k v m {old = old})

  pub length-assign-le : (k : K) (v : V) (m : List (K × V)) → length (assign k v m) ≤ length m + 1
  unfolding assign
  length-assign-le k v [] = omega arith
  length-assign-le k v ((i, w) ∷ m) = ground (arith, length-assign-le k v m)

  pub length-erase :
      (k : K) (m : List (K × V)) {old : V} → find k m ≡ some old → length (erase k m) + 1 ≡ length m
  unfolding erase find
  length-erase k [] h = cc
  length-erase k ((i, w) ∷ m) {old} h = ground (arith, length-erase k m {old = old})

  -- What holds of every entry holds of the one that is found.
  pub All-find {μ} :
      (P : K × V → Type μ) (k : K) (m : List (K × V)) {v : V}
      → All P m
      → find k m ≡ some v
      → P (k, v)
  unfolding find
  All-find P k [] a h = cc
  All-find P k ((i, w) ∷ m) {v} a h = elim (Bool-cases (e.beq i k)) [
    | inl same ↦ let entry : (i, w) ≡ (k, v) = ground (arith, e.beq_iff i k) in subst P entry a.0
    | inr differs ↦ All-find P k m a.1 (ground arith)
  ]

  -- What holds of every entry that is found holds of all.
  pub find-All {μ} :
      (P : K × V → Type μ) (m : List (K × V))
      → Unique m
      → ((k : K) (v : V) → find k m ≡ some v → P (k, v))
      → All P m
  unfolding find
  find-All P [] u h = tt
  find-All P ((k, v) ∷ m) u h = (
    h k v (rw ((e.beq_iff k k).1 refl) refl),
    find-All P m u.1 (λ j w f. h j w (elim (Bool-cases (e.beq k j)) [
      | inr other ↦ rw other f
      | inl same ↦
          let here : k ≡ j = (e.beq_iff k j).0 same in
          absurd (ground (arith, subst (λ x. find x m ≡ none) here u.0))
    ])),
  )

  pub All-emplace {μ} :
      (P : K × V → Type μ) (k : K) (v : V) (m : List (K × V))
      → All P m
      → P (k, v)
      → All P (emplace k v m)
  unfolding emplace
  All-emplace P k v [] a p = (p, tt)
  All-emplace P k v ((i, w) ∷ m) a p = elim (Bool-cases (e.beq i k)) [
    | inl same ↦ rw same a
    | inr differs ↦ rw differs (a.0, All-emplace P k v m a.1 p)
  ]

  pub All-assign {μ} :
      (P : K × V → Type μ) (k : K) (v : V) (m : List (K × V))
      → All P m
      → P (k, v)
      → All P (assign k v m)
  unfolding assign
  All-assign P k v [] a p = (p, tt)
  All-assign P k v ((i, w) ∷ m) a p = elim (Bool-cases (e.beq i k)) [
    | inl same ↦
        rw same (let key : (k, v) ≡ (i, v) = ground (arith, e.beq_iff i k) in subst P key p, a.1)
    | inr differs ↦ rw differs (a.0, All-assign P k v m a.1 p)
  ]

  pub All-erase {μ} : (P : K × V → Type μ) (k : K) (m : List (K × V)) → All P m → All P (erase k m)
  unfolding erase
  All-erase P k [] a = tt
  All-erase P k ((i, w) ∷ m) a = elim (Bool-cases (e.beq i k)) [
    | inl same ↦ rw same a.1
    | inr differs ↦ rw differs (a.0, All-erase P k m a.1)
  ]

  pub find-assign_self : (k : K) (v : V) (m : List (K × V)) → find k (assign k v m) ≡ some v
  find-assign_self k v m = find-assign k k v m ∙ (rw ((e.beq_iff k k).1 refl))
