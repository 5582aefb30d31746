-- ===== src/OrderedMap/Laws.antt =====
-- What lookups see of the operations of a map.
use fuse3_p7zip.Base.{
  ◌≡◌, Bool, true, false, [], ◌∷◌, none, some, Eq, ◌==◌, arith, if◌then◌else◌, Bool-cases, inl, inr,
}
use fuse3_p7zip.OrderedMap.{OrderedMap, find, contains, replace, place, insert_or_assign, emplace}

module _ {ℓ κ} {K : Type ℓ} {V : Type κ} ⦃e : Eq K⦄ where
  find-replace :
      (k j : K) (v : V) (m : OrderedMap K V)
      → find j (replace k v m)
        ≡ (if j == k then (if contains k m then some v else none) else find j m)
  unfolding find replace contains
  find-replace k j v [] = ground arith
  find-replace k j v (_ ∷ m) = ground (arith, find-replace k j v m)

  find-place :
      (lt : K → K → Bool) (k j : K) (v : V) (m : OrderedMap K V)
      → contains k m ≡ false
      → find j (place lt k v m) ≡ (if j == k then some v else find j m)
  unfolding find place contains
  find-place lt k j v [] h = ground arith
  find-place lt k j v (_ ∷ m) h = ground (arith, find-place lt k j v m)

  module _ (lt : K → K → Bool) where
    pub find-insert_or_assign :
        (k j : K) (v : V) (m : OrderedMap K V)
        → find j (insert_or_assign lt k v m) ≡ (if j == k then some v else find j m)
    unfolding insert_or_assign contains
    find-insert_or_assign k j v m = ground (arith, find-replace k j v m, find-place lt k j v m)

    pub find-emplace :
        (k j : K) (v : V) (m : OrderedMap K V)
        → contains k m ≡ false
        → find j (emplace lt k v m) ≡ (if j == k then some v else find j m)
    unfolding emplace
    find-emplace k j v m h = ground (arith, find-place lt k j v m)

    pub emplace_present :
        (k : K) (v : V) (m : OrderedMap K V) → contains k m ≡ true → emplace lt k v m ≡ m
    unfolding emplace
    emplace_present k v m h = ground arith

  -- No key stands twice.
  abbrev pub NodupKeys : OrderedMap K V → Type κ
  NodupKeys [] = Unit
  NodupKeys ((k, _) ∷ m) = (find k m ≡ none) × NodupKeys m

  replace-NodupKeys : (k : K) (v : V) (m : OrderedMap K V) → NodupKeys m → NodupKeys (replace k v m)
  unfolding replace
  replace-NodupKeys k v [] u = u
  replace-NodupKeys k v ((j, w) ∷ m) u =
      ground (arith, find-replace k j v m, replace-NodupKeys k v m u.1)

  place-NodupKeys :
      (lt : K → K → Bool) (k : K) (v : V) (m : OrderedMap K V)
      → contains k m ≡ false
      → NodupKeys m
      → NodupKeys (place lt k v m)
  unfolding place contains find
  place-NodupKeys lt k v [] h u = ground arith
  place-NodupKeys lt k v ((j, w) ∷ m) h u =
      ground (arith, find-place lt k j v m, place-NodupKeys lt k v m)

  pub insert_or_assign-NodupKeys :
      (lt : K → K → Bool) (k : K) (v : V) (m : OrderedMap K V)
      → NodupKeys m
      → NodupKeys (insert_or_assign lt k v m)
  unfolding insert_or_assign
  insert_or_assign-NodupKeys lt k v m u =
      ground (arith, replace-NodupKeys k v m u, place-NodupKeys lt k v m)

  pub emplace-NodupKeys :
      (lt : K → K → Bool) (k : K) (v : V) (m : OrderedMap K V)
      → NodupKeys m
      → NodupKeys (emplace lt k v m)
  unfolding emplace
  emplace-NodupKeys lt k v m u = ground (arith, place-NodupKeys lt k v m)

  module _ (lt : K → K → Bool) where
    pub contains-insert_or_assign :
        (k j : K) (v : V) (m : OrderedMap K V)
        → contains j (insert_or_assign lt k v m) ≡ (if j == k then true else contains j m)
    unfolding contains
    contains-insert_or_assign k j v m = ground (arith, find-insert_or_assign lt k j v m)

    pub contains-emplace :
        (k j : K) (v : V) (m : OrderedMap K V)
        → contains j (emplace lt k v m) ≡ (if j == k then true else contains j m)
    contains-emplace k j v m = elim (Bool-cases (contains k m)) [
      | inl old ↦ rw (emplace_present lt k v m old) (ground (arith, old))
      | inr new ↦ unfold contains in ground (arith, find-emplace lt k j v m new)
    ]

    -- What is there is kept.
    pub find-emplace_kept :
        (k j : K) (v w : V) (m : OrderedMap K V)
        → find j m ≡ some w
        → find j (emplace lt k v m) ≡ some w
    unfolding contains
    find-emplace_kept k j v w m f = elim (Bool-cases (contains k m)) [
      | inl old ↦ rw (emplace_present lt k v m old) f
      | inr new ↦ ground (arith, find-emplace lt k j v m new, f)
    ]
