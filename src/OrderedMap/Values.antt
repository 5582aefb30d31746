-- ===== src/OrderedMap/Values.antt =====
-- What holds of every value that a map of src/fuse3.cpp holds.
use fuse3_p7zip.Base.{Bool, [], ◌∷◌, Eq, ◌==◌, All, both}
use fuse3_p7zip.OrderedMap.{OrderedMap, contains, replace, place, insert_or_assign, emplace}

module _ {ℓ κ π} {K : Type ℓ} {V : Type κ} ⦃e : Eq K⦄ (P : V → Type π) where
  abbrev pub AllValues : OrderedMap K V → Type π
  AllValues m = All (λ p. P p.1) m

  All-replace : (k : K) (v : V) (m : OrderedMap K V) → P v → AllValues m → AllValues (replace k v m)
  unfolding replace
  All-replace k v [] p all = all
  All-replace k v ((j, w) ∷ m) p (here, later) =
      both AllValues (k == j) (p, later) (here, All-replace k v m p later)

  module _ (lt : K → K → Bool) (k : K) (v : V) where
    All-place : (m : OrderedMap K V) → P v → AllValues m → AllValues (place lt k v m)
    unfolding place
    All-place [] p all = (p, all)
    All-place ((j, w) ∷ m) p (here, later) =
        both AllValues (lt k j) (p, (here, later)) (here, All-place m p later)

    pub All-insert_or_assign :
        (m : OrderedMap K V) → P v → AllValues m → AllValues (insert_or_assign lt k v m)
    unfolding insert_or_assign
    All-insert_or_assign m p all =
        both AllValues (contains k m) (All-replace k v m p all) (All-place m p all)

    pub All-emplace : (m : OrderedMap K V) → P v → AllValues m → AllValues (emplace lt k v m)
    unfolding emplace
    All-emplace m p all = both AllValues (contains k m) all (All-place m p all)
