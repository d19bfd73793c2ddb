-- ===== src/Sort.antt =====
-- `std::sort` with a comparison, as an insertion sort. The keys that the source sorts by are
-- distinct, so that the result does not depend on the algorithm.
pub mod Laws
use l_w.Base.{ℕ, Bool, List, [], ◌∷◌, if◌then◌else◌, ltb}

module _ {ℓ} {A : Type ℓ} (lt : A → A → Bool) where
  unfoldable pub insert : A → List A → List A
  insert a [] = a ∷ []
  insert a (x ∷ xs) = if lt x a then x ∷ insert a xs else a ∷ x ∷ xs

  unfoldable pub sort : List A → List A
  unfolding insert
  sort [] = []
  sort (x ∷ xs) = insert x (sort xs)
