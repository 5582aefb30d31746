-- ===== src/Com/Object/Steps.antt =====
-- What it is for a step of a program over Objects to keep the counters.
pub mod Copies
pub mod Releases
use fuse3_p7zip.Base.{
  ℕ, zero, suc, ◌+◌, ◌-◌, ◌≤◌, ◌<◌, ◌≡◌, ◌≢◌, refl, ap, sym, ◌∙◌, inl, inr, List, [], ◌∷◌, ◌++◌,
  Option, none, some, Bool, true, false, All, ◌==◌, nat_eq, if◌then◌else◌, ltb, ◌&&◌, not,
  get_elem?, length, length-append, Bool-cases, arith,
}
use fuse3_p7zip.Base.Outcome.{Outcome, ok, fault, ◌>>=◌}
use fuse3_p7zip.Com.{word32}
use fuse3_p7zip.Com.Object.{
  Ptr, null, Memory, new_object, take_ref, drop_ref, same, copy, move, swap, assign, assign_moved,
  attach, detach,
}
use fuse3_p7zip.Com.Object.Program.{
  State, set, remove_at, Op, declares, creates, copies, moves, assigns, assigns_moved, swaps,
  releases, receives, attaches, detaches, makes, destroys, at, step, in_scope, objects_after,
  bare_after, all_in_scope, run, start,
}
use fuse3_p7zip.Com.Object.Occurrences.{
  points, occurrences, points_le, points_self, occurrences-append, occurrences-set,
  occurrences-remove_at, occurrences-length, occurrences-set_both, get_elem?-below, points_of_elem,
  length-set, length-remove_at, elem_unique,
}
use fuse3_p7zip.Com.Object.Counted.{
  counter_of, Counts, Counts-cong, take_ref-Counts, drop_ref-Counts, new_object-Counts,
  assign-Counts, assign_moved-Counts, same_refl,
}

-- How many pointers own a reference to the object.
abbrev pub references : State → ℕ → ℕ
references s a = occurrences s.objects a + occurrences s.bare a

-- Every object has a counter that is the number of pointers that own a reference to it, and is
-- deleted just if there are none.
abbrev pub IsCounted : State → Type 0
IsCounted s = Counts s.memory (references s)

pub references_bound :
    (s : State) (a : ℕ)
    → length s.objects + length s.bare + 1 < word32
    → references s a + 1 < word32
references_bound s a lt = omega (arith, occurrences-length s.objects a, occurrences-length s.bare a)

pub at_below :
    (ps : List Ptr) (i : ℕ)
    → ltb i (length ps) ≡ true
    → (p : Ptr) × (get_elem? ps i ≡ some p) × (at ps i ≡ ok p)
unfolding at
at_below ps i e = let (p, g) = get_elem?-below ps i (ground arith) in (p, g, rw (at, g) refl)

-- The step returns a state whose counters are right, and as many pointers as it declares.
abbrev pub Keeps : Op → State → Type 0
Keeps op s =
    (s' : State) × (step op s ≡ ok s')
    × IsCounted s'
    × (length s'.objects ≡ objects_after op (length s.objects))
    × (length s'.bare ≡ bare_after op (length s.bare))
