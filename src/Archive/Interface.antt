-- ===== src/Archive/Interface.antt =====
-- IArchive of include/7zip.hpp: the items of an archive as a range of iterators, what its callers
-- rely on, and the range-based `for` over it.
use fuse3_p7zip.Base.{
  ℕ, zero, suc, ◌+◌, ◌<◌, ◌≡◌, refl, ap, inl, inr, ◌∙◌, Bool, true, false, Option, none, some, ◌==◌,
  nat_eq, arith,
}
use fuse3_p7zip.Base.Outcome.{Outcome, ok, ◌>>=◌, Outcome-cases}

pub record IArchive {ℓ} (It : Type ℓ) : Type ℓ where
  pub empty : Bool
  pub size : ℕ
  pub begin : It
  pub end : It
  pub at : ℕ → Outcome It
  pub advance : It → Outcome It
  pub equal : It → It → Bool

-- The iterators stand behind 0, 1, ... items: `begin` behind none, `++` moves on by one item, `end`
-- is behind the last and no iterator before is equal to it, and `at` gives the one of an item.
pub record Enumerates {ℓ} {It : Type ℓ} (arc : IArchive It) : Type ℓ where
  pub place : ℕ → It
  pub begins : arc.begin ≡ place 0
  pub advances : (i : ℕ) → i < arc.size → arc.advance (place i) ≡ ok (place (i + 1))
  pub goes_on : (i : ℕ) → i < arc.size → arc.equal (place i) arc.end ≡ false
  pub ends : arc.equal (place arc.size) arc.end ≡ true
  pub gives :
      (i : ℕ) → i < arc.size → (it : It) × (arc.at i ≡ ok it) × (arc.equal it (place i) ≡ true)
  pub is_empty : arc.empty ≡ (arc.size == 0)

module _ {ℓ κ} {It : Type ℓ} {S : Type κ} (arc : IArchive It) (body : It → S → Outcome S) where
  -- `for (auto it = begin(); it != end(); ++it)`; `none` means that the fuel ran out.
  unfoldable pub for_each : ℕ → It → S → Outcome (Option S)
  for_each zero it s = ok none
  for_each (suc fuel) it s = elim (arc.equal it arc.end) [
    | true ↦ ok (some s)
    | false ↦ do t ← body it s; next ← arc.advance it; for_each fuel next t
  ]

  module _ (e : Enumerates arc) where
    -- The body for that many items, from one on, until it throws.
    abbrev pub visit : ℕ → ℕ → S → Outcome S
    visit zero i s = ok s
    visit (suc n) i s = body (e.place i) s >>= λ t. visit n (i + 1) t

    for_each-from :
        (n i fuel : ℕ) (s : S)
        → n + i ≡ arc.size
        → n < fuel
        → for_each fuel (e.place i) s ≡ (visit n i s >>= λ t. ok (some t))
    unfolding for_each
    for_each-from n i zero s end lt = absurd (omega arith)
    for_each-from zero i (suc fuel) s end lt =
        let same : i ≡ arc.size = omega arith in
        let stops : arc.equal (e.place i) arc.end ≡ true = rw same e.ends in
        rw (for_each, stops) refl
    for_each-from (suc n) i (suc fuel) s end lt = elim (Outcome-cases (body (e.place i) s)) [
      | inl (t, done) ↦
          rw (for_each, e.goes_on i (omega arith), done, e.advances i (omega arith))
            (for_each-from n (i + 1) fuel t (omega arith) (omega arith))
      | inr (inl (m, fails)) ↦ rw (for_each, e.goes_on i (omega arith), fails) refl
      | inr (inr faults) ↦ rw (for_each, e.goes_on i (omega arith), faults) refl
    ]

    -- The loop visits each item once and in order, until the body throws, and never runs out of
    -- fuel.
    pub for_each-visit :
        (s : S) → for_each (suc arc.size) arc.begin s ≡ (visit arc.size 0 s >>= λ t. ok (some t))
    for_each-visit s =
        ap (λ it. for_each (suc arc.size) it s) e.begins
        ∙ for_each-from arc.size 0 (suc arc.size) s (omega arith) (omega arith)
