-- ===== src/Map.antt =====
-- `std::unordered_map` as an association list without repeated keys. The order of the list stands
-- for the table's order of iteration, which the standard leaves open: what is proved of a map is
-- stated by lookups, by membership or up to sorting.
pub mod Laws
pub mod Sorted
pub mod Keys
use l_w.Base.{
  ℕ, ◌≡◌, Bool, List, [], ◌∷◌, Option, none, some, if◌then◌else◌, length, map, is_some, Eq, All,
}

module _ {ℓ κ} {K : Type ℓ} {V : Type κ} ⦃e : Eq K⦄ where
  unfoldable pub find : K → List (K × V) → Option V
  find k [] = none
  find k ((j, w) ∷ m) = if e.beq j k then some w else find k m

  unfoldable pub contains : K → List (K × V) → Bool
  unfolding find
  contains k m = is_some (find k m)

  -- `emplace`: a key that is there keeps its value.
  unfoldable pub emplace : K → V → List (K × V) → List (K × V)
  emplace k v [] = (k, v) ∷ []
  emplace k v ((j, w) ∷ m) = if e.beq j k then (j, w) ∷ m else (j, w) ∷ emplace k v m

  -- `m[k] = v`, and an assignment through an iterator.
  unfoldable pub assign : K → V → List (K × V) → List (K × V)
  assign k v [] = (k, v) ∷ []
  assign k v ((j, w) ∷ m) = if e.beq j k then (j, v) ∷ m else (j, w) ∷ assign k v m

  unfoldable pub erase : K → List (K × V) → List (K × V)
  erase k [] = []
  erase k ((j, w) ∷ m) = if e.beq j k then m else (j, w) ∷ erase k m

  -- The keys are distinct.
  abbrev pub Unique : List (K × V) → Type κ
  Unique [] = Unit
  Unique ((j, w) ∷ m) = (find j m ≡ none) × Unique m

module _ {ℓ κ} {K : Type ℓ} {V : Type κ} where
  abbrev pub keys : List (K × V) → List K
  keys = map (λ p. p.0)

  abbrev pub values : List (K × V) → List V
  values = map (λ p. p.1)
