-- ===== src/Sort/Laws.antt =====
-- Sorting keeps the elements and puts them in order.
use mathlib.Core.List.{Perm}
use mathlib.Core.List.Perm
use l_w.Base.{
  ℕ, suc, ◌≡◌, refl, Bool, true, false, List, [], ◌∷◌, ltb, All, arith, Bool-cases, inl, inr,
  length, ap, ◌∙◌,
}
use l_w.Sort.{insert, sort}

-- What `std::sort` asks of a comparison.
pub record StrictWeak {ℓ} {A : Type ℓ} (lt : A → A → Bool) : Type ℓ where
  pub asymmetric : (a b : A) → lt a b ≡ true → lt b a ≡ false
  pub negative : (a b c : A) → lt b a ≡ false → lt c b ≡ false → lt c a ≡ false

pub by_key {ℓ} : {A : Type ℓ} (key : A → ℕ) → StrictWeak (λ a b. ltb (key a) (key b))
by_key key = record { asymmetric = λ a b h. ground arith; negative = λ a b c h k. ground arith }

module _ {ℓ} {A : Type ℓ} (lt : A → A → Bool) where
  insert-perm : (a : A) (xs : List A) → Perm (insert lt a xs) (a ∷ xs)
  unfolding insert
  insert-perm a [] = Perm.refl (a ∷ [])
  insert-perm a (x ∷ xs) = elim (Bool-cases (lt x a)) [
    | inl before ↦ rw before (Perm.trans (Perm.cons x (insert-perm a xs)) (Perm.swap a x xs))
    | inr behind ↦ rw behind (Perm.refl (a ∷ x ∷ xs))
  ]

  pub sort-perm : (xs : List A) → Perm (sort lt xs) xs
  unfolding sort
  sort-perm [] = Perm.refl []
  sort-perm (x ∷ xs) = Perm.trans (insert-perm x (sort lt xs)) (Perm.cons x (sort-perm xs))

  length-insert : (a : A) (xs : List A) → length (insert lt a xs) ≡ suc (length xs)
  unfolding insert
  length-insert a [] = refl
  length-insert a (x ∷ xs) = ground (arith, length-insert a xs)

  pub length-sort : (xs : List A) → length (sort lt xs) ≡ length xs
  unfolding sort
  length-sort [] = refl
  length-sort (x ∷ xs) = length-insert x (sort lt xs) ∙ ap suc (length-sort xs)

  pub insert-All {κ} :
      (P : A → Type κ) (a : A) (xs : List A) → P a → All P xs → All P (insert lt a xs)
  unfolding insert
  insert-All P a [] p h = (p, tt)
  insert-All P a (x ∷ xs) p h = elim (Bool-cases (lt x a)) [
    | inl before ↦ rw before (h.0, insert-All P a xs p h.1)
    | inr behind ↦ rw behind (p, h)
  ]

  pub sort-All {κ} : (P : A → Type κ) (xs : List A) → All P xs → All P (sort lt xs)
  unfolding sort
  sort-All P [] h = h
  sort-All P (x ∷ xs) h = insert-All P x (sort lt xs) h.0 (sort-All P xs h.1)

  insert-All_inv {κ} :
      (P : A → Type κ) (a : A) (xs : List A) → All P (insert lt a xs) → P a × All P xs
  unfolding insert
  insert-All_inv P a [] h = (h.0, tt)
  insert-All_inv P a (x ∷ xs) h = elim (Bool-cases (lt x a)) [
    | inl before ↦
        let h' = rw (before, insert) at h in
        let (p, rest) = insert-All_inv P a xs h'.1 in (p, (h'.0, rest))
    | inr behind ↦ rw (behind, insert) at h
  ]

  pub sort-All_inv {κ} : (P : A → Type κ) (xs : List A) → All P (sort lt xs) → All P xs
  unfolding sort
  sort-All_inv P [] h = h
  sort-All_inv P (x ∷ xs) h =
      let (p, rest) = insert-All_inv P x (sort lt xs) h in (p, sort-All_inv P xs rest)

  -- No element is before an earlier one.
  abbrev pub IsSorted : List A → Type 0
  IsSorted [] = Unit
  IsSorted (x ∷ xs) = All (λ y. lt y x ≡ false) xs × IsSorted xs

  module _ (w : StrictWeak lt) where
    All-behind :
        (a x : A) (xs : List A)
        → lt x a ≡ false
        → All (λ y. lt y x ≡ false) xs
        → All (λ y. lt y a ≡ false) xs
    All-behind a x [] h k = tt
    All-behind a x (y ∷ xs) h k = (w.negative a x y h k.0, All-behind a x xs h k.1)

    insert-IsSorted : (a : A) (xs : List A) → IsSorted xs → IsSorted (insert lt a xs)
    unfolding insert
    insert-IsSorted a [] h = (tt, tt)
    insert-IsSorted a (x ∷ xs) h = elim (Bool-cases (lt x a)) [
      | inl before ↦ rw before (
        insert-All (λ y. lt y x ≡ false) a xs (w.asymmetric x a before) h.0,
        insert-IsSorted a xs h.1,
      )
      | inr behind ↦ rw behind ((behind, All-behind a x xs behind h.0), h)
    ]

    pub sort-IsSorted : (xs : List A) → IsSorted (sort lt xs)
    unfolding sort
    sort-IsSorted [] = tt
    sort-IsSorted (x ∷ xs) = insert-IsSorted x (sort lt xs) (sort-IsSorted xs)
