-- ===== src/Com/Object/Runs.antt =====
-- Programs over Objects, as lists of steps.
use fuse3_p7zip.Base.{
  ℕ, ◌+◌, ◌≤◌, ◌<◌, ◌≡◌, refl, ap, subst, ◌∙◌, List, [], ◌∷◌, none, true, All, nat_eq, length,
  arith,
}
use fuse3_p7zip.Base.Outcome.{ok}
use fuse3_p7zip.Com.{word32}
use fuse3_p7zip.Com.Object.{Ptr, null}
use fuse3_p7zip.Com.Object.Program.{
  State, Op, declares, creates, copies, converts, assigns_converted, moves, assigns, assigns_moved,
  swaps, releases, receives, attaches, detaches, makes, destroys, in_scope, objects_after,
  bare_after, all_in_scope, run, start,
}
use fuse3_p7zip.Com.Object.Occurrences.{points, occurrences}
use fuse3_p7zip.Com.Object.Counted.{counter_of}
use fuse3_p7zip.Com.Object.Steps.{references, IsCounted, Keeps}
use fuse3_p7zip.Com.Object.Steps.Copies.{
  declares-Keeps, creates-Keeps, copies-Keeps, converts-Keeps, assigns_converted-Keeps, moves-Keeps,
  assigns-Keeps, assigns_moved-Keeps, swaps-Keeps,
}
use fuse3_p7zip.Com.Object.Steps.Releases.{
  releases-Keeps, receives-Keeps, attaches-Keeps, detaches-Keeps, makes-Keeps, destroys-Keeps,
}

module _ (s : State) (c : IsCounted s) (bound : length s.objects + length s.bare + 1 < word32) where
  -- A step that is in scope.
  step-Keeps : (op : Op) → in_scope op (length s.objects) (length s.bare) ≡ true → Keeps op s
  unfolding in_scope
  step-Keeps declares e = declares-Keeps s c bound
  step-Keeps creates e = creates-Keeps s c bound
  step-Keeps (copies j) e = copies-Keeps s c bound j e
  step-Keeps (converts j) e = converts-Keeps s c bound j e
  step-Keeps (moves j) e = moves-Keeps s c bound j e
  step-Keeps (assigns i j) e = assigns-Keeps s c bound i j (ground arith) (ground arith)
  step-Keeps (assigns_converted i j) e =
      assigns_converted-Keeps s c bound i j (ground arith) (ground arith)
  step-Keeps (assigns_moved i j) e = assigns_moved-Keeps s c bound i j (ground arith) (ground arith)
  step-Keeps (swaps i j) e = swaps-Keeps s c bound i j (ground arith) (ground arith)
  step-Keeps (releases i) e = releases-Keeps s c bound i e
  step-Keeps (receives i) e = receives-Keeps s c bound i e
  step-Keeps (attaches i j) e = attaches-Keeps s c bound i j (ground arith) (ground arith)
  step-Keeps (detaches i) e = detaches-Keeps s c bound i e
  step-Keeps makes e = makes-Keeps s c bound
  step-Keeps (destroys i) e = destroys-Keeps s c bound i e

after_le : (op : Op) (n k : ℕ) → objects_after op n + bare_after op k ≤ n + k + 1
unfolding objects_after bare_after
after_le declares n k = omega arith
after_le creates n k = omega arith
after_le (copies j) n k = omega arith
after_le (converts j) n k = omega arith
after_le (moves j) n k = omega arith
after_le (assigns i j) n k = omega arith
after_le (assigns_converted i j) n k = omega arith
after_le (assigns_moved i j) n k = omega arith
after_le (swaps i j) n k = omega arith
after_le (releases i) n k = omega arith
after_le (receives i) n k = omega arith
after_le (attaches i j) n k = omega arith
after_le (detaches i) n k = omega arith
after_le makes n k = omega arith
after_le (destroys i) n k = omega arith

-- A program over Objects that names only pointers that are declared, from a state whose counters
-- are right, and with fewer than 2^32 pointers and steps together, never touches an object that is
-- deleted, and ends with counters that are right: the counter of every object is the number of
-- pointers that own a reference to it, and it is deleted just if there are none.
pub run-IsCounted :
    (ops : List Op) (s : State)
    → IsCounted s
    → all_in_scope ops (length s.objects) (length s.bare) ≡ true
    → length s.objects + length s.bare + length ops < word32
    → (s' : State) × (run ops s ≡ ok s') × IsCounted s'
unfolding run all_in_scope
run-IsCounted [] s c scope bound = (s, refl, c)
run-IsCounted (op ∷ ops) s c scope bound =
    let (s₁, e₁, c₁, n₁, k₁) = step-Keeps s c (omega arith) op (ground arith) in
    let rest : all_in_scope ops (length s₁.objects) (length s₁.bare) ≡ true =
      rw (n₁, k₁) (ground arith) in
    let (s₂, e₂, c₂) =
      run-IsCounted ops s₁ c₁ rest
        (omega (arith, n₁, k₁, after_le op (length s.objects) (length s.bare))) in
    (s₂, rw (run, e₁) e₂, c₂)

counter_of_zero : counter_of 0 ≡ none
unfolding nat_eq
counter_of_zero = refl

pub start-IsCounted : IsCounted start
unfolding nat_eq
start-IsCounted = record { counted = λ a. refl; fresh = λ a le. refl }

occurrences-null : (ps : List Ptr) (a : ℕ) → All (λ p. p ≡ null) ps → occurrences ps a ≡ 0
occurrences-null [] a h = refl
occurrences-null (p ∷ ps) a h = omega (arith, ap (λ q. points q a) h.0, occurrences-null ps a h.1)

-- A program of fewer than 2^32 steps that starts with no pointer, names only pointers that are
-- declared, and ends with every pointer that is left null, has deleted every object.
pub run-frees :
    (ops : List Op) (s : State) (a : ℕ)
    → all_in_scope ops 0 0 ≡ true
    → length ops < word32
    → run ops start ≡ ok s
    → All (λ p. p ≡ null) s.objects
    → All (λ p. p ≡ null) s.bare
    → s.memory.counter a ≡ none
run-frees ops s a scope bound e objects bare =
    let (s', e', c) = run-IsCounted ops start start-IsCounted scope (omega arith) in
    let eq : s' ≡ s = cc in
    let c' : IsCounted s = subst IsCounted eq c in
    let none_left : references s a ≡ 0 =
      omega (arith, occurrences-null s.objects a objects, occurrences-null s.bare a bare) in
    c'.counted a ∙ ap counter_of none_left ∙ counter_of_zero
