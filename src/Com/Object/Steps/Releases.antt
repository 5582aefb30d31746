-- ===== src/Com/Object/Steps/Releases.antt =====
-- The steps that release an Object, and those between Objects and bare pointers.
use fuse3_p7zip.Base.{
  ℕ, ◌+◌, ◌<◌, ◌≡◌, refl, [], ◌∷◌, ◌++◌, true, nat_eq, ltb, length, length-append, arith,
}
use fuse3_p7zip.Com.{word32}
use fuse3_p7zip.Com.Object.{address_of, destroy, Ptr, null, new_object, attach, detach}
use fuse3_p7zip.Com.Object.Program.{
  State, set, remove_at, releases, receives, attaches, detaches, makes, destroys, step,
  objects_after, bare_after,
}
use fuse3_p7zip.Com.Object.Occurrences.{
  occurrences-append, occurrences-set, occurrences-remove_at, length-set, length-remove_at,
}
use fuse3_p7zip.Com.Object.Counted.{Counts-cong, drop_ref-Counts, new_object-Counts}
use fuse3_p7zip.Com.Object.Steps.{references, IsCounted, references_bound, at_below, Keeps}

module _ (s : State) (c : IsCounted s) (bound : length s.objects + length s.bare + 1 < word32) where
  pub releases-Keeps : (i : ℕ) → ltb i (length s.objects) ≡ true → Keeps (releases i) s
  unfolding step objects_after bare_after
  releases-Keeps i e =
      let (p, g, r) = at_below s.objects i e in
      let after : State = record s { objects = set s.objects i null } in
      let (m, eq, c') =
        drop_ref-Counts p s.memory (references s) (references after) c
          (λ a. omega (arith, references_bound s a bound))
          (λ a. omega (arith, occurrences-set s.objects i null p a g)) in
      (record after { memory = m }, rw (step, r, eq) refl, c', length-set s.objects i null, refl)

  pub receives-Keeps : (i : ℕ) → ltb i (length s.objects) ≡ true → Keeps (receives i) s
  unfolding step objects_after bare_after address_of
  receives-Keeps i e =
      let (p, g, r) = at_below s.objects i e in
      let between : State = record s { objects = set s.objects i null } in
      let (m, eq, c') =
        drop_ref-Counts p s.memory (references s) (references between) c
          (λ a. omega (arith, references_bound s a bound))
          (λ a. omega (arith, occurrences-set s.objects i null p a g)) in
      let q : Ptr = (new_object m).0 in
      let after : State = record s { objects = set s.objects i q } in
      (
        record after { memory = (new_object m).1 },
        rw (step, r, eq) refl,
        new_object-Counts m (references between) (references after) c' (λ a.
            omega
              (arith, occurrences-set s.objects i null p a g, occurrences-set s.objects i q p a g)),
        length-set s.objects i q,
        refl,
      )

  pub attaches-Keeps :
      (i j : ℕ)
      → ltb i (length s.objects) ≡ true
      → ltb j (length s.bare) ≡ true
      → Keeps (attaches i j) s
  unfolding step objects_after bare_after attach
  attaches-Keeps i j e₁ e₂ =
      let (p, gp, rp) = at_below s.objects i e₁ in
      let (q, gq, rq) = at_below s.bare j e₂ in
      let after : State = record s { objects = set s.objects i q; bare = set s.bare j null } in
      let (m, eq, c') =
        drop_ref-Counts p s.memory (references s) (references after) c
          (λ a. omega (arith, references_bound s a bound))
          (λ a.
            omega (
              arith,
              occurrences-set s.objects i q p a gp,
              occurrences-set s.bare j null q a gq,
            )) in
      (
        record after { memory = m },
        rw (step, rp, rq, attach, eq) refl,
        c',
        length-set s.objects i q,
        length-set s.bare j null,
      )

  pub detaches-Keeps : (i : ℕ) → ltb i (length s.objects) ≡ true → Keeps (detaches i) s
  unfolding step objects_after bare_after detach
  detaches-Keeps i e =
      let (p, g, r) = at_below s.objects i e in
      (
        record s { objects = set s.objects i null; bare = s.bare ++ p ∷ [] },
        rw (step, r) refl,
        Counts-cong s.memory (references s) _
            (λ a.
              omega (arith, occurrences-set s.objects i null p a g, occurrences-append s.bare p a))
            c,
        length-set s.objects i null,
        length-append s.bare (p ∷ []),
      )

  pub makes-Keeps : Keeps makes s
  unfolding step objects_after bare_after
  makes-Keeps =
      let p : Ptr = (new_object s.memory).0 in
      (
        _,
        refl,
        new_object-Counts s.memory (references s) _ c
            (λ a. omega (arith, occurrences-append s.bare p a)),
        refl,
        length-append s.bare (p ∷ []),
      )

  pub destroys-Keeps : (i : ℕ) → ltb i (length s.objects) ≡ true → Keeps (destroys i) s
  unfolding step objects_after bare_after destroy
  destroys-Keeps i e =
      let (p, g, r) = at_below s.objects i e in
      let after : State = record s { objects = remove_at s.objects i } in
      let (m, eq, c') =
        drop_ref-Counts p s.memory (references s) (references after) c
          (λ a. omega (arith, references_bound s a bound))
          (λ a. omega (arith, occurrences-remove_at s.objects i p a g)) in
      (
        record after { memory = m },
        rw (step, r, eq) refl,
        c',
        length-remove_at s.objects i (ground arith),
        refl,
      )
