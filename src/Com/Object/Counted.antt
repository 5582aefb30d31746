-- ===== src/Com/Object/Counted.antt =====
-- Memory whose counters are the numbers of references that there are, and what the counters become
-- when a pointer takes or drops one.
use fuse3_p7zip.Base.{
  ℕ, ◌+◌, ◌≤◌, ◌<◌, ◌≡◌, refl, ap, ◌∙◌, Option, none, some, ◌==◌, nat_eq, if◌then◌else◌, Bool-cases,
  eq_of_beq, beq_refl, true, false, inl, inr, arith, sym,
}
use fuse3_p7zip.Base.Outcome.{ok}
use fuse3_p7zip.Com.{word32, add_ref, release}
use fuse3_p7zip.Com.Object.{
  destroy, Ptr, null, Memory, set_counter, new_object, take_ref, drop_ref, same, copy, move, swap,
  assign, assign_moved,
}
use fuse3_p7zip.Com.Object.Occurrences.{points, points_self, points_le}

-- The counter of an object with that many references.
abbrev pub counter_of : ℕ → Option ℕ
counter_of n = if n == 0 then none else some n

-- Every object has a counter that is the number of its references, and is deleted just if there
-- are none.
pub record Counts (m : Memory) (refs : ℕ → ℕ) : Type 0 where
  pub counted : (a : ℕ) → m.counter a ≡ counter_of (refs a)
  pub fresh : (a : ℕ) → m.next ≤ a → refs a ≡ 0

counter_of-live : (n : ℕ) → 0 < n → counter_of n ≡ some n
counter_of-live n lt = ground arith

add_ref-below : (n : ℕ) → n + 1 < word32 → add_ref n ≡ n + 1
unfolding add_ref
add_ref-below n lt = omega arith

release-counter_of : (n k : ℕ) → n ≡ k + 1 → n < word32 → release n ≡ counter_of k
unfolding release
release-counter_of n k e lt = ground arith

-- What an object's counter is, if a pointer to it is among the references.
counted_at : (m : Memory) (f : ℕ → ℕ) (b : ℕ) → Counts m f → 0 < f b → m.counter b ≡ some (f b)
counted_at m f b c lt = c.counted b ∙ counter_of-live (f b) lt

pub Counts-cong : (m : Memory) (f g : ℕ → ℕ) → ((a : ℕ) → f a ≡ g a) → Counts m f → Counts m g
Counts-cong m f g e c = record {
  counted = λ a. c.counted a ∙ ap counter_of (e a);
  fresh = λ a le. sym (e a) ∙ c.fresh a le;
}

pub take_ref-Counts :
    (p : Ptr) (m : Memory) (f g : ℕ → ℕ)
    → Counts m f
    → ((a : ℕ) → points p a ≤ f a)
    → ((a : ℕ) → f a + 1 < word32)
    → ((a : ℕ) → g a ≡ f a + points p a)
    → (m' : Memory) × (take_ref p m ≡ ok m') × Counts m' g
unfolding take_ref
take_ref-Counts none m f g c live bound e = (
  m,
  refl,
  record {
    counted = λ a. ground (arith, c.counted a, e a);
    fresh = λ a le. omega (arith, c.fresh a le, e a);
  },
)
take_ref-Counts (some b) m f g c live bound e =
    let lt : 0 < f b = omega (arith, live b, points_self b) in
    (
      set_counter b (some (f b + 1)) m,
      rw (counted_at m f b c lt, take_ref)
          (ap (λ n. ok (set_counter b (some n) m)) (add_ref-below (f b) (bound b))),
      record {
        counted = λ a. ground (arith, c.counted a, e a);
        fresh = λ a le. ground (arith, c.fresh a, e a, c.fresh b);
      },
    )

pub drop_ref-Counts :
    (p : Ptr) (m : Memory) (f g : ℕ → ℕ)
    → Counts m f
    → ((a : ℕ) → f a < word32)
    → ((a : ℕ) → f a ≡ g a + points p a)
    → (m' : Memory) × (drop_ref p m ≡ ok m') × Counts m' g
unfolding drop_ref
drop_ref-Counts none m f g c bound e = (
  m,
  refl,
  record {
    counted = λ a. ground (arith, c.counted a, e a);
    fresh = λ a le. omega (arith, c.fresh a le, e a);
  },
)
drop_ref-Counts (some b) m f g c bound e =
    let one : f b ≡ g b + 1 = omega (arith, e b, points_self b) in
    (
      set_counter b (counter_of (g b)) m,
      rw (counted_at m f b c (omega arith), drop_ref)
          (ap (λ n. ok (set_counter b n m)) (release-counter_of (f b) (g b) one (bound b))),
      record {
        counted = λ a. ground (arith, c.counted a, e a);
        fresh = λ a le. omega (arith, c.fresh a le, e a);
      },
    )

pub new_object-Counts :
    (m : Memory) (f g : ℕ → ℕ)
    → Counts m f
    → ((a : ℕ) → g a ≡ f a + points (new_object m).0 a)
    → Counts (new_object m).1 g
unfolding new_object set_counter
new_object-Counts m f g c e = record {
  counted = λ a. ground (arith, c.counted a, e a, c.fresh a);
  fresh = λ a le. ground (arith, c.fresh a, e a);
}

same-eq : (p q : Ptr) → same p q ≡ true → p ≡ q
unfolding same
same-eq none none e = refl
same-eq none (some b) e = cc
same-eq (some a) none e = cc
same-eq (some a) (some b) e = ap some (eq_of_beq a b e)

pub same_refl : (p : Ptr) → same p p ≡ true
unfolding same
same_refl none = refl
same_refl (some a) = beq_refl a

-- What an operation on a pointer makes of the references.
module _ (m : Memory) (f g : ℕ → ℕ) (c : Counts m f) (bound : (a : ℕ) → f a + 1 < word32) where
  pub assign-Counts :
      (this other : Ptr)
      → ((a : ℕ) → f a + points other a ≡ g a + points this a)
      → ((a : ℕ) → points other a ≤ f a)
      → (m' : Memory) × (assign this other m ≡ ok (other, m')) × Counts m' g
  unfolding assign copy swap destroy
  assign-Counts this other e live = elim (Bool-cases (same this other)) [
    | inl s ↦
        let eq : this ≡ other = same-eq this other s in
        (
          m,
          rw (s, assign) (ap (λ p. ok (p, m)) eq),
          Counts-cong m f g (λ a. omega (arith, e a, ap (λ p. points p a) eq)) c,
        )
    | inr d ↦
        let both : ℕ → ℕ = λ a. f a + points other a in
        let (m₁, e₁, c₁) = take_ref-Counts other m f both c live bound (λ a. refl) in
        let (m₂, e₂, c₂) =
          drop_ref-Counts this m₁ both g c₁ (λ a. omega (arith, bound a, points_le other a)) e in
        (m₂, rw (d, assign, e₁, e₂) refl, c₂)
  ]

  -- Between pointers to different objects; between pointers to one, nothing is done.
  pub assign_moved-Counts :
      (this other : Ptr)
      → same this other ≡ false
      → ((a : ℕ) → f a ≡ g a + points this a)
      → (m' : Memory) × (assign_moved this other m ≡ ok ((other, null), m')) × Counts m' g
  unfolding assign_moved move swap destroy
  assign_moved-Counts this other d e =
      let (m', eq, c') = drop_ref-Counts this m f g c (λ a. omega (arith, bound a)) e in
      (m', rw (d, assign_moved, eq) refl, c')
