-- ===== src/Fuse/Tree/Enumerates.antt =====
-- That ImplArchive (src/7zip/Archive.cpp) is an IArchive.
use fuse3_p7zip.Base.{
  some, zero, suc, inl, inr, Bool-cases, Bool, ℕ, ◌<◌, ◌≡◌, refl, ap, ◌∙◌, ◌+◌, true, false, leb,
  arith, nat_eq, ◌==◌,
}
use fuse3_p7zip.Base.Outcome.{Outcome, ok, ◌>>=◌, Outcome-cases}
use fuse3_p7zip.Host.{Host, IsDocumented}
use fuse3_p7zip.Archive.Interface.{IArchive, Enumerates, for_each, visit, for_each-visit}
use fuse3_p7zip.Archive.Iterator.{
  Archive, Iterator, iterator_at, advance, begin_iterator, end_iterator, iterator_eq, at,
}
use fuse3_p7zip.Archive.Iterator.Laws.{at_never_throws}
use fuse3_p7zip.Archive.Opening.Callbacks.{is_empty}
use fuse3_p7zip.Fuse.Tree.{FileTree, read_entry, add_entry, root_tree, fill_tree, build_tree}
use fuse3_p7zip.Fuse.Tree.Fill.{IsOpen, walk, walk-eq-end, advance-walk}

abbrev impl_archive : Host → Archive → IArchive Iterator
impl_archive h a = record {
  empty = is_empty a;
  size = a.size;
  begin = begin_iterator a;
  end = end_iterator;
  at = at h a;
  advance = advance;
  equal = iterator_eq;
}

module _ (h : Host) (a : Archive) (o : IsOpen a) (d : IsDocumented h) where
  begin-walk : begin_iterator a ≡ walk a 0
  unfolding begin_iterator
  begin-walk = refl

  goes_on : (i : ℕ) → i < a.size → iterator_eq (walk a i) end_iterator ≡ false
  goes_on i lt = let not_yet : leb a.size i ≡ false = ground arith in walk-eq-end a i o ∙ not_yet

  ends : iterator_eq (walk a a.size) end_iterator ≡ true
  ends = let last : leb a.size a.size ≡ true = ground arith in walk-eq-end a a.size o ∙ last

  iterator_at-walk : (i : ℕ) → i < a.size → iterator_eq (iterator_at a i) (walk a i) ≡ true
  unfolding iterator_eq iterator_at
  iterator_at-walk i lt = ground arith

  is_empty-eq : is_empty a ≡ (a.size == 0)
  unfolding is_empty
  is_empty-eq = refl

  abbrev impl_archive-Enumerates : Enumerates (impl_archive h a)
  impl_archive-Enumerates = record {
    place = walk a;
    begins = begin-walk;
    advances = λ i lt. advance-walk a i o lt;
    goes_on = goes_on;
    ends = ends;
    gives = λ i lt. (iterator_at a i, at_never_throws h a i d, iterator_at-walk i lt);
    is_empty = is_empty-eq;
  }

module _ (h : Host) (a : Archive) where
  -- The body of the loop in Fuse::execute.
  abbrev add_item : Iterator → FileTree → Outcome FileTree
  add_item it tree = do e ← read_entry h a it; ok (add_entry e tree)

  fill_tree-for_each :
      (fuel : ℕ) (it : Iterator) (tree : FileTree)
      → fill_tree h a fuel it tree ≡ for_each (impl_archive h a) add_item fuel it tree
  unfolding fill_tree for_each
  fill_tree-for_each zero it tree = refl
  fill_tree-for_each (suc fuel) it tree = elim (Bool-cases (iterator_eq it end_iterator)) [
    | inl stops ↦ rw (fill_tree, for_each, stops) refl
    | inr goes ↦ elim (Outcome-cases (read_entry h a it)) [
      | inl (e, reads) ↦ elim (Outcome-cases (advance it)) [
        | inl (next, moves) ↦
            rw (fill_tree, for_each, goes, reads, moves)
              (fill_tree-for_each fuel next (add_entry e tree))
        | inr (inl (m, fails)) ↦ rw (fill_tree, for_each, goes, reads, fails) refl
        | inr (inr faults) ↦ rw (fill_tree, for_each, goes, reads, faults) refl
      ]
      | inr (inl (m, fails)) ↦ rw (fill_tree, for_each, goes, fails) refl
      | inr (inr faults) ↦ rw (fill_tree, for_each, goes, faults) refl
    ]
  ]

  -- That many items, from one on: each is read and added, until one cannot be read.
  abbrev pub add_items : ℕ → ℕ → FileTree → Outcome FileTree
  add_items zero i tree = ok tree
  add_items (suc n) i tree = do
    e ← read_entry h a (walk a i)
    add_items n (i + 1) (add_entry e tree)

  visit-add_items :
      (o : IsOpen a) (d : IsDocumented h) (n i : ℕ) (tree : FileTree)
      → visit (impl_archive h a) add_item (impl_archive-Enumerates h a o d) n i tree
        ≡ add_items n i tree
  visit-add_items o d zero i tree = refl
  visit-add_items o d (suc n) i tree = elim (Outcome-cases (read_entry h a (walk a i))) [
    | inl (e, reads) ↦ rw reads (visit-add_items o d n (i + 1) (add_entry e tree))
    | inr (inl (m, fails)) ↦ rw fails refl
    | inr (inr faults) ↦ rw faults refl
  ]

  -- For an archive at an address that is not null, with fewer than 2^32 items, and HRESULT codes
  -- as documented, build_tree reads the items one after the other, from 0 up to their number, and
  -- adds each to the tree of the root; it stops with the exception or the fault of the first that
  -- cannot be read, and never runs out of fuel.
  pub build_tree-add_items :
      (allow_other : Bool)
      → IsOpen a
      → IsDocumented h
      → build_tree h a allow_other
        ≡ (add_items a.size 0 (root_tree allow_other a.stat) >>= λ tree. ok (some tree))
  unfolding build_tree
  build_tree-add_items allow_other o d =
      let start = root_tree allow_other a.stat in
      fill_tree-for_each (suc a.size) (begin_iterator a) start
      ∙ (for_each-visit (impl_archive h a) add_item (impl_archive-Enumerates h a o d) start
          ∙ ap (λ t. t >>= λ tree. ok (some tree)) (visit-add_items o d a.size 0 start))
