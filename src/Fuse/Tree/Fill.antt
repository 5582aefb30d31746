-- ===== src/Fuse/Tree/Fill.antt =====
-- The loop over the items in Fuse::execute (src/fuse3.cpp).
use fuse3_p7zip.Base.{
  ℕ, zero, suc, ◌+◌, ◌≤◌, ◌<◌, Bytes, ◌≡◌, ◌≢◌, refl, All, Bool, List, [], ◌∷◌, ◌++◌, none, some,
  nat_eq, arith, inl, inr, leb, Bool-cases,
}
use fuse3_p7zip.Base.Outcome.{ok, Outcome-cases, Ensures, >>=-Ensures, of_Ensures, returned}
use fuse3_p7zip.Host.{Host}
use fuse3_p7zip.Archive.Iterator.{
  Archive, Iterator, word32, advance, begin_iterator, end_iterator, iterator_eq,
}
use fuse3_p7zip.Fuse.Stat.{Stat}
use fuse3_p7zip.FilePath.{FilePath, FilePath-eq, root, is_empty, concat, to_string}
use fuse3_p7zip.FilePath.Laws.{IsRooted, IsProper, append-IsRooted, from_string-IsProper}
use fuse3_p7zip.Fuse.Tree.Closure.{IsClosed, add_entries-IsClosed, root_tree-IsClosed}
use fuse3_p7zip.OrderedMap.{find}
use fuse3_p7zip.OrderedMap.Laws.{NodupKeys}
use fuse3_p7zip.Fuse.Tree.Entries.{
  add_entries-NodupKeys, root_tree-NodupKeys, last_node, find-last_node,
}
use fuse3_p7zip.Fuse.Tree.{Node}
use fuse3_p7zip.Fuse.Tree.{
  FileTree, Entry, read_entry, add_entry, add_entries, add_extension, root_tree, make_entry,
  fill_tree, build_tree,
}

-- What the handler's constructor and a UInt32 give for nothing.
pub record IsOpen (a : Archive) : Type 0 where
  pub has_address : a.address ≢ 0
  pub has_size : a.size < word32

-- The iterator after `i` steps.
abbrev pub walk : Archive → ℕ → Iterator
walk a i = record { seq = some a; index = i; at_end = leb a.size i }

pub walk-eq-end :
    (a : Archive) (i : ℕ) → IsOpen a → iterator_eq (walk a i) end_iterator ≡ leb a.size i
unfolding iterator_eq end_iterator
walk-eq-end a i o = ground arith

pub advance-walk :
    (a : Archive) (i : ℕ) → IsOpen a → i < a.size → advance (walk a i) ≡ ok (walk a (i + 1))
unfolding advance
advance-walk a i o lt = ground arith

make_entry-IsRooted :
    (it : Iterator) (path name : FilePath) (s : Stat)
    → IsRooted path
    → IsProper name.names
    → IsRooted (make_entry it path name s).path
unfolding make_entry
make_entry-IsRooted it path name s a n = elim (Bool-cases (is_empty name)) [
  | inl e ↦ rw e a
  | inr e ↦ rw e (append-IsRooted path name a n)
]

add_extension-IsProper :
    (name : FilePath) (ext : Bytes) → IsProper name.names → IsProper (add_extension name ext).names
unfolding add_extension concat
add_extension-IsProper name [] p = p
add_extension-IsProper name (c ∷ ext) p = from_string-IsProper (to_string name ++ (b'.' ∷ c ∷ ext))

root-IsRooted : IsRooted root
root-IsRooted = (refl, tt)

module _ (h : Host) (a : Archive) where
  -- The entries of the items from `i` on, as they are read.
  abbrev pub Reads : ℕ → List Entry → Type 0
  Reads i [] = i ≡ a.size
  Reads i (e ∷ es) = (i < a.size) × (read_entry h a (walk a i) ≡ ok e) × Reads (i + 1) es

  fill_tree-Reads :
      (es : List Entry) (i fuel : ℕ) (tree : FileTree)
      → IsOpen a
      → Reads i es
      → a.size < fuel + i
      → fill_tree h a fuel (walk a i) tree ≡ ok (some (add_entries es tree))
  unfolding fill_tree add_entries
  fill_tree-Reads [] i zero tree o r f = absurd (omega arith)
  fill_tree-Reads (e ∷ es) i zero tree o r f = absurd (omega arith)
  fill_tree-Reads [] i (suc fuel) tree o r f = ground (arith, walk-eq-end a i o)
  fill_tree-Reads (e ∷ es) i (suc fuel) tree o (lt, read, rest) f = ground (
    arith,
    walk-eq-end a i o,
    advance-walk a i o lt,
    fill_tree-Reads es (i + 1) fuel (add_entry e tree) o rest (omega arith),
  )

  -- For an archive at an address that is not null, with fewer than 2^32 items that can all be
  -- read, build_tree returns the tree of the root with the entry of each item added once and in
  -- order.
  pub build_tree-Reads :
      (allow_other : Bool) (es : List Entry)
      → IsOpen a
      → Reads 0 es
      → build_tree h a allow_other ≡ ok (some (add_entries es (root_tree allow_other a.stat)))
  unfolding build_tree begin_iterator
  build_tree-Reads allow_other es o r =
      fill_tree-Reads es 0 (suc a.size) (root_tree allow_other a.stat) o r (omega arith)

  fill_tree_ends :
      (fuel i : ℕ) (tree : FileTree)
      → IsOpen a
      → i ≤ a.size
      → a.size < fuel + i
      → fill_tree h a fuel (walk a i) tree ≢ ok none
  unfolding fill_tree
  fill_tree_ends zero i tree o lt f e = absurd (omega arith)
  fill_tree_ends (suc fuel) i tree o lt f e = elim (Bool-cases (leb a.size i)) [
    | inl over ↦ ground (arith, walk-eq-end a i o)
    | inr more ↦ elim (Outcome-cases (read_entry h a (walk a i))) [
      | inl (entry, read) ↦ ground (
        arith,
        walk-eq-end a i o,
        advance-walk a i o (ground arith),
        fill_tree_ends fuel (i + 1) (add_entry entry tree) o (ground arith) (omega arith),
      )
      | inr (inl (m, read)) ↦ ground (arith, walk-eq-end a i o)
      | inr (inr read) ↦ ground (arith, walk-eq-end a i o)
    ]
  ]

  -- For an archive at an address that is not null, with fewer than 2^32 items, build_tree never
  -- runs out of fuel: the loop ends by its own test, or because reading an item throws or is
  -- undefined.
  pub build_tree_ends : (allow_other : Bool) → IsOpen a → build_tree h a allow_other ≢ ok none
  unfolding build_tree begin_iterator
  build_tree_ends allow_other o =
      fill_tree_ends (suc a.size) 0 (root_tree allow_other a.stat) o (omega arith) (omega arith)

  abbrev InRoot : Entry → Type 0
  InRoot e = IsRooted e.path

  read_entry-InRoot : (it : Iterator) → Ensures InRoot (read_entry h a it)
  unfolding read_entry
  read_entry-InRoot it =
      search
        (
          >>=-Ensures, returned, make_entry-IsRooted, append-IsRooted, root-IsRooted,
          from_string-IsProper, add_extension-IsProper,
        )
        depth 14

  -- Every key is a path from the root, of proper names.
  pub read_entry-IsRooted : (it : Iterator) {e : Entry} → read_entry h a it ≡ ok e → IsRooted e.path
  read_entry-IsRooted it = of_Ensures InRoot (read_entry h a it) (read_entry-InRoot it)

  pub Reads-IsRooted : (es : List Entry) (i : ℕ) → Reads i es → All (λ e. IsRooted e.path) es
  Reads-IsRooted [] i r = tt
  Reads-IsRooted (e ∷ es) i (lt, read, rest) =
      (read_entry-IsRooted (walk a i) read, Reads-IsRooted es (i + 1) rest)

  pub entries-IsClosed :
      (allow_other : Bool) (es : List Entry)
      → Reads 0 es
      → IsClosed (add_entries es (root_tree allow_other a.stat))
  entries-IsClosed allow_other es r =
      add_entries-IsClosed es _ (Reads-IsRooted es 0 r) (root_tree-IsClosed allow_other a.stat)

  pub entries-NodupKeys :
      (allow_other : Bool) (es : List Entry)
      → NodupKeys (add_entries es (root_tree allow_other a.stat))
  entries-NodupKeys allow_other es =
      add_entries-NodupKeys es _ (root_tree-NodupKeys allow_other a.stat)

  -- For an archive at an address that is not null, with fewer than 2^32 items that can all be
  -- read, build_tree returns a tree: every path of it lies in a directory that it has, up to the
  -- root, no path is there twice, and a path of several items has the node of the last one.
  pub build_tree-IsClosed :
      (allow_other : Bool) (es : List Entry)
      → IsOpen a
      → Reads 0 es
      → (tree : FileTree) × (build_tree h a allow_other ≡ ok (some tree))
        × IsClosed tree
        × NodupKeys tree
        × ((k : FilePath) (v : Node) → last_node k es ≡ some v → find k tree ≡ some v)
  build_tree-IsClosed allow_other es o r = (
    add_entries es (root_tree allow_other a.stat),
    build_tree-Reads allow_other es o r,
    entries-IsClosed allow_other es r,
    entries-NodupKeys allow_other es,
    λ k v l. find-last_node es k v _ l,
  )
