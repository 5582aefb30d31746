-- ===== src/OrderedMap.antt =====
-- `std::map` as src/fuse3.cpp uses it for Cache::FileTree: a list of pairs in the order of the keys.
pub mod Laws
pub mod Values
pub mod Order
use fuse3_p7zip.Base.{
  ◌≡◌, Bool, true, false, List, [], ◌∷◌, Option, none, some, Eq, ◌==◌, if◌then◌else◌,
}

abbrev pub OrderedMap {ℓ κ} : Type ℓ → Type κ → Type (ℓ ⊔ κ)
OrderedMap K V = List (K × V)

module _ {ℓ κ} {K : Type ℓ} {V : Type κ} ⦃e : Eq K⦄ where
  -- `find`
  unfoldable pub find : K → OrderedMap K V → Option V
  find k [] = none
  find k ((j, v) ∷ m) = if k == j then some v else find k m

  unfoldable pub contains : K → OrderedMap K V → Bool
  unfolding find
  contains k m = elim (find k m) [ none ↦ false | some _ ↦ true ]

  -- The value of a key that is there.
  replace : K → V → OrderedMap K V → OrderedMap K V
  replace k v [] = []
  replace k v ((j, w) ∷ m) = if k == j then (k, v) ∷ m else (j, w) ∷ replace k v m

  -- A new key goes before the first key that is greater.
  place : (K → K → Bool) → K → V → OrderedMap K V → OrderedMap K V
  place lt k v [] = (k, v) ∷ []
  place lt k v ((j, w) ∷ m) = if lt k j then (k, v) ∷ (j, w) ∷ m else (j, w) ∷ place lt k v m

  unfoldable pub insert_or_assign : (K → K → Bool) → K → V → OrderedMap K V → OrderedMap K V
  unfolding contains replace place
  insert_or_assign lt k v m = if contains k m then replace k v m else place lt k v m

  -- A key that is there keeps its value.
  unfoldable pub emplace : (K → K → Bool) → K → V → OrderedMap K V → OrderedMap K V
  unfolding contains place
  emplace lt k v m = if contains k m then m else place lt k v m
