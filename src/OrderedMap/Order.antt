-- ===== src/OrderedMap/Order.antt =====
-- That the keys of a `std::map` of src/fuse3.cpp are sorted, and that the order of its keys is
-- decided by which they are.
use fuse3_p7zip.Base.{
  ◌≡◌, refl, sym, ap, ◌∙◌, subst, Bool, true, false, List, [], ◌∷◌, Eq, ◌==◌, All, arith,
  if◌then◌else◌, Bool-cases, inl, inr, both, eq_of_beq, beq_refl,
}
use mathlib.Core.Path.{ap₂}
use fuse3_p7zip.OrderedMap.{OrderedMap, find, contains, replace, place, insert_or_assign, emplace}

-- A strict total order, as a test.
pub record IsStrict {ℓ} {K : Type ℓ} (lt : K → K → Bool) : Type ℓ where
  pub irrefl : (a : K) → lt a a ≡ false
  pub trans : (a b c : K) → lt a b ≡ true → lt b c ≡ true → lt a c ≡ true
  pub total : (a b : K) → lt a b ≡ false → lt b a ≡ false → a ≡ b

module _ {ℓ κ} {K : Type ℓ} {V : Type κ} where
  abbrev pub keys : OrderedMap K V → List K
  keys [] = []
  keys ((k, v) ∷ m) = k ∷ keys m

module _ {ℓ} {K : Type ℓ} (lt : K → K → Bool) where
  -- Every key is below all that come after it.
  abbrev pub IsAscending : List K → Type 0
  IsAscending [] = Unit
  IsAscending (k ∷ ks) = All (λ j. lt k j ≡ true) ks × IsAscending ks

module _ {ℓ} {K : Type ℓ} ⦃e : Eq K⦄ where
  unfoldable pub has : K → List K → Bool
  has k [] = false
  has k (j ∷ js) = if k == j then true else has k js

  has_self : (k : K) (ks : List K) → has k (k ∷ ks) ≡ true
  unfolding has
  has_self k ks = rw (beq_refl k) refl

module _ {ℓ} {K : Type ℓ} ⦃e : Eq K⦄ (lt : K → K → Bool) (strict : IsStrict lt) where
  place_key : K → List K → List K
  place_key k [] = k ∷ []
  place_key k (j ∷ js) = if lt k j then k ∷ j ∷ js else j ∷ place_key k js

  below-All :
      (k j : K) (js : List K)
      → lt k j ≡ true
      → All (λ x. lt j x ≡ true) js
      → All (λ x. lt k x ≡ true) js
  below-All k j [] l all = tt
  below-All k j (x ∷ js) l (here, later) = (strict.trans k j x l here, below-All k j js l later)

  All-place_key :
      (j k : K) (ks : List K)
      → lt j k ≡ true
      → All (λ x. lt j x ≡ true) ks
      → All (λ x. lt j x ≡ true) (place_key k ks)
  unfolding place_key
  All-place_key j k [] l all = (l, tt)
  All-place_key j k (x ∷ ks) l (here, later) =
      both (All (λ y. lt j y ≡ true)) (lt k x) (l, (here, later))
        (here, All-place_key j k ks l later)

  other_way : (k j : K) → (k == j) ≡ false → lt k j ≡ false → lt j k ≡ true
  other_way k j n l = elim (Bool-cases (lt j k)) [
    | inl above ↦ above
    | inr same ↦ ground (arith, strict.total k j l same, n)
  ]

  place_key-IsAscending :
      (k : K) (ks : List K) → has k ks ≡ false → IsAscending lt ks → IsAscending lt (place_key k ks)
  unfolding place_key has
  place_key-IsAscending k [] n asc = (tt, tt)
  place_key-IsAscending k (j ∷ js) n (above, asc) = elim (Bool-cases (k == j)) [
    | inl same ↦ absurd (ground (arith, same))
    | inr other ↦ elim (Bool-cases (lt k j)) [
      | inl l ↦ rw l ((l, below-All k j js l above), (above, asc))
      | inr l ↦ rw l (
        All-place_key j k js (other_way k j other l) above,
        place_key-IsAscending k js (ground (arith, other)) asc,
      )
    ]
  ]

  not_has_below : (k : K) (js : List K) → All (λ x. lt k x ≡ true) js → has k js ≡ false
  unfolding has
  not_has_below k [] all = refl
  not_has_below k (j ∷ js) (here, later) = elim (Bool-cases (k == j)) [
    | inl same ↦
        let own : lt k k ≡ true = ap (lt k) (eq_of_beq k j same) ∙ here in
        absurd (ground (arith, own, strict.irrefl k))
    | inr other ↦ rw other (not_has_below k js later)
  ]

  -- A key below the head of a sorted list does not stand in it.
  not_has_lower :
      (k j : K) (js : List K) → lt k j ≡ true → IsAscending lt (j ∷ js) → has k (j ∷ js) ≡ false
  not_has_lower k j js l (above, asc) = not_has_below k (j ∷ js) (l, below-All k j js l above)

  abbrev pub SameKeys : List K → List K → Type ℓ
  SameKeys ks js = (k : K) → has k ks ≡ has k js

  tails_SameKeys :
      (k : K) (ks js : List K)
      → IsAscending lt (k ∷ ks)
      → IsAscending lt (k ∷ js)
      → SameKeys (k ∷ ks) (k ∷ js)
      → SameKeys ks js
  unfolding has
  tails_SameKeys k ks js a b same x = elim (Bool-cases (x == k)) [
    | inl q ↦
        subst (λ y. has y ks ≡ has y js) (sym (eq_of_beq x k q))
          (not_has_below k ks a.0 ∙ sym (not_has_below k js b.0))
    | inr q ↦ ground (arith, q, same x)
  ]

  -- Two sorted lists of the same keys are one list.
  pub IsAscending-eq :
      (ks js : List K) → IsAscending lt ks → IsAscending lt js → SameKeys ks js → ks ≡ js
  unfolding has
  IsAscending-eq [] [] a b same = refl
  IsAscending-eq [] (j ∷ js) a b same = let nothing : false ≡ true = same j ∙ has_self j js in cc
  IsAscending-eq (k ∷ ks) [] a b same =
      let nothing : false ≡ true = sym (same k) ∙ has_self k ks in cc
  IsAscending-eq (k ∷ ks) (j ∷ js) a b same = elim (Bool-cases (lt k j)) [
    | inl l ↦
        let wrong : true ≡ false = sym (has_self k ks) ∙ (same k ∙ not_has_lower k j js l b) in cc
    | inr l ↦ elim (Bool-cases (lt j k)) [
      | inl l' ↦
          let wrong : true ≡ false =
            sym (has_self j js) ∙ (sym (same j) ∙ not_has_lower j k ks l' a) in
          cc
      | inr l' ↦
          let head : k ≡ j = strict.total k j l l' in
          let b' : IsAscending lt (k ∷ js) = subst (λ x. IsAscending lt (x ∷ js)) (sym head) b in
          let same' : SameKeys (k ∷ ks) (k ∷ js) =
            subst (λ x. SameKeys (k ∷ ks) (x ∷ js)) (sym head) same in
          ap₂ ◌∷◌ head (IsAscending-eq ks js a.1 b'.1 (tails_SameKeys k ks js a b' same'))
    ]
  ]

  module _ {κ} {V : Type κ} where
    keys-replace : (k : K) (v : V) (m : OrderedMap K V) → keys (replace k v m) ≡ keys m
    unfolding replace
    keys-replace k v [] = refl
    keys-replace k v ((j, w) ∷ m) = elim (Bool-cases (k == j)) [
      | inl q ↦ rw q (ap (λ x. x ∷ keys m) (eq_of_beq k j q))
      | inr q ↦ rw q (ap (◌∷◌ j) (keys-replace k v m))
    ]

    keys-place : (k : K) (v : V) (m : OrderedMap K V) → keys (place lt k v m) ≡ place_key k (keys m)
    unfolding place place_key
    keys-place k v [] = refl
    keys-place k v ((j, w) ∷ m) = elim (Bool-cases (lt k j)) [
      | inl q ↦ rw q refl
      | inr q ↦ rw q (ap (◌∷◌ j) (keys-place k v m))
    ]

    pub has-keys : (k : K) (m : OrderedMap K V) → has k (keys m) ≡ contains k m
    unfolding has contains find
    has-keys k [] = refl
    has-keys k ((j, w) ∷ m) = ground (arith, has-keys k m)

    place-IsAscending :
        (k : K) (v : V) (m : OrderedMap K V)
        → contains k m ≡ false
        → IsAscending lt (keys m)
        → IsAscending lt (keys (place lt k v m))
    place-IsAscending k v m n asc =
        subst (IsAscending lt) (sym (keys-place k v m))
          (place_key-IsAscending k (keys m) (has-keys k m ∙ n) asc)

    pub insert_or_assign-IsAscending :
        (k : K) (v : V) (m : OrderedMap K V)
        → IsAscending lt (keys m)
        → IsAscending lt (keys (insert_or_assign lt k v m))
    unfolding insert_or_assign
    insert_or_assign-IsAscending k v m asc = elim (Bool-cases (contains k m)) [
      | inl q ↦ rw q (subst (IsAscending lt) (sym (keys-replace k v m)) asc)
      | inr q ↦ rw q (place-IsAscending k v m q asc)
    ]

    pub emplace-IsAscending :
        (k : K) (v : V) (m : OrderedMap K V)
        → IsAscending lt (keys m)
        → IsAscending lt (keys (emplace lt k v m))
    unfolding emplace
    emplace-IsAscending k v m asc = elim (Bool-cases (contains k m)) [
      | inl q ↦ rw q asc
      | inr q ↦ rw q (place-IsAscending k v m q asc)
    ]
