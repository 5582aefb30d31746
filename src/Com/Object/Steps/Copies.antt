-- ===== src/Com/Object/Steps/Copies.antt =====
-- The steps that make Objects, copy, move and exchange them.
use fuse3_p7zip.Base.{
  ℕ, ◌+◌, ◌<◌, ◌≡◌, ◌≢◌, refl, ap, ◌∙◌, inl, inr, List, [], ◌∷◌, ◌++◌, true, nat_eq, ltb, length,
  length-append, Bool-cases, arith,
}
use fuse3_p7zip.Com.{word32}
use fuse3_p7zip.Com.Object.{
  convert, assign, assign_converted, Ptr, null, new_object, same, copy, move, swap, assign_moved,
}
use fuse3_p7zip.Com.Object.Program.{
  State, set, declares, creates, copies, converts, assigns_converted, moves, assigns, assigns_moved,
  swaps, step, objects_after, bare_after,
}
use fuse3_p7zip.Com.Object.Occurrences.{
  points, occurrences, occurrences-append, occurrences-set, occurrences-set_both, points_of_elem,
  length-set, elem_unique,
}
use fuse3_p7zip.Com.Object.Counted.{
  Counts-cong, take_ref-Counts, new_object-Counts, assign-Counts, assign_moved-Counts, same_refl,
}
use fuse3_p7zip.Com.Object.Steps.{references, IsCounted, references_bound, at_below, Keeps}

module _ (s : State) (c : IsCounted s) (bound : length s.objects + length s.bare + 1 < word32) where
  pub declares-Keeps : Keeps declares s
  unfolding step objects_after bare_after
  declares-Keeps = (
    _,
    refl,
    Counts-cong s.memory (references s) _ (λ a. omega (arith, occurrences-append s.objects null a))
        c,
    length-append s.objects (null ∷ []),
    refl,
  )

  pub creates-Keeps : Keeps creates s
  unfolding step objects_after bare_after
  creates-Keeps =
      let p : Ptr = (new_object s.memory).0 in
      (
        _,
        refl,
        new_object-Counts s.memory (references s) _ c
            (λ a. omega (arith, occurrences-append s.objects p a)),
        length-append s.objects (p ∷ []),
        refl,
      )

  pub copies-Keeps : (j : ℕ) → ltb j (length s.objects) ≡ true → Keeps (copies j) s
  unfolding step objects_after bare_after copy
  copies-Keeps j e =
      let (p, g, r) = at_below s.objects j e in
      let (m, eq, c') =
        take_ref-Counts p s.memory (references s)
          (λ a. occurrences (s.objects ++ p ∷ []) a + occurrences s.bare a) c
          (λ a. omega (arith, points_of_elem s.objects j p a g)) (λ a. references_bound s a bound)
          (λ a. omega (arith, occurrences-append s.objects p a)) in
      (
        record s { memory = m; objects = s.objects ++ p ∷ [] },
        rw (step, r, eq) refl,
        c',
        length-append s.objects (p ∷ []),
        refl,
      )

  pub converts-Keeps : (j : ℕ) → ltb j (length s.objects) ≡ true → Keeps (converts j) s
  unfolding step objects_after bare_after copy convert
  converts-Keeps j e = copies-Keeps j e

  pub moves-Keeps : (j : ℕ) → ltb j (length s.objects) ≡ true → Keeps (moves j) s
  unfolding step objects_after bare_after move
  moves-Keeps j e =
      let (p, g, r) = at_below s.objects j e in
      let ps : List Ptr = set s.objects j null in
      (
        record s { objects = ps ++ p ∷ [] },
        rw (step, r) refl,
        Counts-cong s.memory (references s) _
            (λ a. omega (arith, occurrences-append ps p a, occurrences-set s.objects j null p a g))
            c,
        omega (arith, length-append ps (p ∷ []), length-set s.objects j null),
        refl,
      )

  pub assigns-Keeps :
      (i j : ℕ)
      → ltb i (length s.objects) ≡ true
      → ltb j (length s.objects) ≡ true
      → Keeps (assigns i j) s
  unfolding step objects_after bare_after
  assigns-Keeps i j e₁ e₂ =
      let (p, gp, rp) = at_below s.objects i e₁ in
      let (q, gq, rq) = at_below s.objects j e₂ in
      let after : State = record s { objects = set s.objects i q } in
      let (m, eq, c') =
        assign-Counts s.memory (references s) (references after) c (λ a. references_bound s a bound)
          p q (λ a. omega (arith, occurrences-set s.objects i q p a gp))
          (λ a. omega (arith, points_of_elem s.objects j q a gq)) in
      (record after { memory = m }, rw (step, rp, rq, eq) refl, c', length-set s.objects i q, refl)

  pub assigns_converted-Keeps :
      (i j : ℕ)
      → ltb i (length s.objects) ≡ true
      → ltb j (length s.objects) ≡ true
      → Keeps (assigns_converted i j) s
  unfolding step objects_after bare_after assign assign_converted copy convert
  assigns_converted-Keeps i j e₁ e₂ = assigns-Keeps i j e₁ e₂

  pub assigns_moved-Keeps :
      (i j : ℕ)
      → ltb i (length s.objects) ≡ true
      → ltb j (length s.objects) ≡ true
      → Keeps (assigns_moved i j) s
  unfolding step objects_after bare_after assign_moved
  assigns_moved-Keeps i j e₁ e₂ =
      let (p, gp, rp) = at_below s.objects i e₁ in
      let (q, gq, rq) = at_below s.objects j e₂ in
      elim (Bool-cases (same p q)) [
        | inl d ↦ (
          record s { objects = set (set s.objects j q) i p },
          rw (step, rp, rq, assign_moved, d) refl,
          Counts-cong s.memory (references s) _
              (λ a. omega (arith, occurrences-set_both s.objects i j p q p q a gp gq (λ _. refl)))
              c,
          length-set (set s.objects j q) i p ∙ length-set s.objects j q,
          refl,
        )
        | inr d ↦
            let apart : i ≢ j = λ e.
              let eq : p ≡ q = elem_unique s.objects i j p q gp gq e in
              let t : same p q ≡ true = ap (λ r. same r q) eq ∙ same_refl q in cc in
            let after : State = record s { objects = set (set s.objects j null) i q } in
            let (m, eq, c') =
              assign_moved-Counts s.memory (references s) (references after) c
                (λ a. references_bound s a bound) p q d
                (λ a. omega (
                  arith,
                  occurrences-set_both s.objects i j p q q null a gp gq (λ e. absurd (apart e)),
                )) in
            (
              record after { memory = m },
              rw (step, rp, rq, eq) refl,
              c',
              length-set (set s.objects j null) i q ∙ length-set s.objects j null,
              refl,
            )
      ]

  pub swaps-Keeps :
      (i j : ℕ)
      → ltb i (length s.objects) ≡ true
      → ltb j (length s.objects) ≡ true
      → Keeps (swaps i j) s
  unfolding step objects_after bare_after swap
  swaps-Keeps i j e₁ e₂ =
      let (p, gp, rp) = at_below s.objects i e₁ in
      let (q, gq, rq) = at_below s.objects j e₂ in
      (
        record s { objects = set (set s.objects j p) i q },
        rw (step, rp, rq) refl,
        Counts-cong s.memory (references s) _
            (λ a. omega (
              arith,
              occurrences-set_both s.objects i j p q q p a gp gq
                  (λ e. ap (λ r. points r a) (elem_unique s.objects i j p q gp gq e)),
            ))
            c,
        length-set (set s.objects j p) i q ∙ length-set s.objects j p,
        refl,
      )
