-- ===== src/Map/Sorted.antt =====
-- Lists of records under distinct keys: looking one up, and sorting them by key.
use l_w.Base.{
  ℕ, ◌≡◌, refl, ◌∙◌, inl, inr, Bool, List, [], ◌∷◌, none, some, if◌then◌else◌, arith, ltb, ◌==◌,
  All, nat_eq, Bool-cases,
}
use l_w.Map.{find, Unique, values}
use l_w.Sort.{insert, sort}

module _ {ℓ} {A : Type ℓ} (key : A → ℕ) where
  abbrev pub with_keys : List A → List (ℕ × A)
  with_keys [] = []
  with_keys (x ∷ xs) = (key x, x) ∷ with_keys xs

  abbrev pub by_key_lt : A → A → Bool
  by_key_lt a b = ltb (key a) (key b)

  find-insert :
      (a : A) (xs : List A) (j : ℕ)
      → find (key a) (with_keys xs) ≡ none
      → find j (with_keys (insert by_key_lt a xs))
        ≡ (if key a == j then some a else find j (with_keys xs))
  unfolding find insert
  find-insert a [] j h = refl
  find-insert a (x ∷ xs) j h = ground (arith, find-insert a xs j)

  insert-Unique :
      (a : A) (xs : List A)
      → find (key a) (with_keys xs) ≡ none
      → Unique (with_keys xs)
      → Unique (with_keys (insert by_key_lt a xs))
  unfolding insert find
  insert-Unique a [] h u = (refl, tt)
  insert-Unique a (x ∷ xs) h u = elim (Bool-cases (by_key_lt x a)) [
    | inl before ↦ rw before (
      find-insert a xs (key x) (ground arith) ∙ ground (arith, u.0),
      insert-Unique a xs (ground arith) u.1,
    )
    | inr behind ↦ rw behind (h, u)
  ]

  -- Sorting by distinct keys changes no lookup, and keeps the keys distinct.
  pub find-sort :
      (xs : List A) (j : ℕ)
      → Unique (with_keys xs)
      → find j (with_keys (sort by_key_lt xs)) ≡ find j (with_keys xs)
  unfolding sort find
  find-sort [] j u = refl
  find-sort (x ∷ xs) j u =
      find-insert x (sort by_key_lt xs) j (find-sort xs (key x) u.1 ∙ u.0)
      ∙ ground (arith, find-sort xs j u.1)

  pub sort-Unique : (xs : List A) → Unique (with_keys xs) → Unique (with_keys (sort by_key_lt xs))
  unfolding sort
  sort-Unique [] u = u
  sort-Unique (x ∷ xs) u =
      insert-Unique x (sort by_key_lt xs) (find-sort xs (key x) u.1 ∙ u.0) (sort-Unique xs u.1)

  -- A map whose entries stand under their own keys is the list of its values.
  pub with_keys-values : (m : List (ℕ × A)) → All (λ e. key e.1 ≡ e.0) m → with_keys (values m) ≡ m
  with_keys-values [] h = refl
  with_keys-values ((k, a) ∷ m) h = λ i. (h.0 i, a) ∷ with_keys-values m h.1 i
