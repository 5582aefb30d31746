-- ===== src/Fuse/Tree/Paths.antt =====
-- Which paths the tree of Fuse::execute (src/fuse3.cpp) has, and that they are sorted.
use fuse3_p7zip.Base.{
  ℕ, zero, suc, ◌≡◌, refl, sym, subst, ◌∙◌, Bool, true, List, [], ◌∷◌, ◌==◌, length, ◌⊎◌, inl, inr,
  ◌↔◌, both, some, beq_refl,
}
use fuse3_p7zip.Base.Outcome.{ok}
use fuse3_p7zip.Host.{Host}
use fuse3_p7zip.FilePath.{FilePath, FilePath-eq, root, is_empty, parent_path, path_lt}
use fuse3_p7zip.FilePath.Order.{path_lt-IsStrict}
use fuse3_p7zip.OrderedMap.{contains, emplace}
use fuse3_p7zip.OrderedMap.Laws.{contains-emplace, contains-insert_or_assign}
use fuse3_p7zip.OrderedMap.Order.{
  keys, IsAscending, insert_or_assign-IsAscending, emplace-IsAscending,
}
use fuse3_p7zip.Archive.Iterator.{Archive, end_iterator}
use fuse3_p7zip.Fuse.Stat.{Stat}
use fuse3_p7zip.Fuse.Tree.{
  FileTree, Node, Entry, directory_of, add_parents, add_entry, add_entries, root_tree, root_stat,
  build_tree,
}
use fuse3_p7zip.Fuse.Tree.Closure.{Has, IsClosed, Has-emplace, Has-insert, root_tree-Has, only_root}
use fuse3_p7zip.Fuse.Tree.Fill.{IsOpen, Reads, build_tree-Reads, entries-IsClosed}

-- A path, or a directory above it.
pub data IsUp (k : FilePath) : FilePath → Type 0 where
  here : IsUp k k
  above : {p : FilePath} → IsUp k (parent_path p) → IsUp k p

abbrev pub HasPath : FilePath → List Entry → Type 0
HasPath p [] = ⊥
HasPath p (e ∷ es) = (e.path ≡ p) ⊎ HasPath p es

-- On the way to the path of an item.
abbrev pub OnWay : FilePath → List Entry → Type 0
OnWay k es = (p : FilePath) × HasPath p es × IsUp k p

OnWay-later : (k : FilePath) (e : Entry) (es : List Entry) → OnWay k es → OnWay k (e ∷ es)
OnWay-later k e es (p, m, u) = (p, inr m, u)

-- Nothing is added but what lies on the way.
Has-add_parents :
    (fuel : ℕ) (p k : FilePath) (s : Stat) (tree : FileTree)
    → Has (add_parents fuel p s tree) k
    → Has tree k ⊎ IsUp k p
unfolding add_parents
Has-add_parents zero p k s tree m = inl m
Has-add_parents (suc fuel) p k s tree m =
    both (λ t. Has t k → Has tree k ⊎ IsUp k p) (is_empty p) inl
      (both (λ t. Has t k → Has tree k ⊎ IsUp k p) (p == root) inl
        (both (λ t. Has t k → Has tree k ⊎ IsUp k p) (contains p tree) inl
          (λ n. split (
            Has-add_parents fuel (parent_path p) k (directory_of s)
              (emplace path_lt p (end_iterator, directory_of s) tree) n))))
      m
  where
    own : (k ≡ p) ⊎ Has tree k → Has tree k ⊎ IsUp k p
    own (inl e) = inr (subst (IsUp k) e here)
    own (inr old) = inl old

    split :
        Has (emplace path_lt p (end_iterator, directory_of s) tree) k ⊎ IsUp k (parent_path p)
        → Has tree k ⊎ IsUp k p
    split (inl m) = own (Has-emplace p k (directory_of s) tree m)
    split (inr u) = inr (above u)

Has-add_entry :
    (e : Entry) (k : FilePath) (tree : FileTree)
    → Has (add_entry e tree) k
    → Has tree k ⊎ IsUp k e.path
unfolding add_entry
Has-add_entry e k tree m =
    elim (Has-add_parents (length (parent_path e.path).names) (parent_path e.path) k e.node.1 _ m) [
      | inl before ↦ elim (Has-insert e.path k e.node tree before) [
        | inl same ↦ inr (subst (IsUp k) same here)
        | inr old ↦ inl old
      ]
      | inr u ↦ inr (above u)
    ]

Has-add_entries :
    (es : List Entry) (k : FilePath) (tree : FileTree)
    → Has (add_entries es tree) k
    → Has tree k ⊎ OnWay k es
unfolding add_entries
Has-add_entries [] k tree m = inl m
Has-add_entries (e ∷ es) k tree m = elim (Has-add_entries es k (add_entry e tree) m) [
  | inl before ↦ elim (Has-add_entry e k tree before) [
    | inl old ↦ inl old
    | inr u ↦ inr (e.path, inl refl, u)
  ]
  | inr w ↦ inr (OnWay-later k e es w)
]

-- Nothing is lost.
add_parents-Has :
    (fuel : ℕ) (p k : FilePath) (s : Stat) (tree : FileTree)
    → Has tree k
    → Has (add_parents fuel p s tree) k
unfolding add_parents
add_parents-Has zero p k s tree m = m
add_parents-Has (suc fuel) p k s tree m =
    both (λ t. Has t k) (is_empty p) m
      (both (λ t. Has t k) (p == root) m
        (both (λ t. Has t k) (contains p tree) m
          (add_parents-Has fuel (parent_path p) k (directory_of s)
            (emplace path_lt p (end_iterator, directory_of s) tree)
            (contains-emplace path_lt p k (end_iterator, directory_of s) tree
              ∙ both (λ b. b ≡ true) (k == p) refl m))))

add_entry-Has : (e : Entry) (k : FilePath) (tree : FileTree) → Has tree k → Has (add_entry e tree) k
unfolding add_entry
add_entry-Has e k tree m =
    add_parents-Has (length (parent_path e.path).names) (parent_path e.path) k e.node.1 _ (
      contains-insert_or_assign path_lt e.path k e.node tree
      ∙ both (λ b. b ≡ true) (k == e.path) refl m)

add_entry-Has_own : (e : Entry) (tree : FileTree) → Has (add_entry e tree) e.path
unfolding add_entry
add_entry-Has_own e tree =
    add_parents-Has (length (parent_path e.path).names) (parent_path e.path) e.path e.node.1 _
      (contains-insert_or_assign path_lt e.path e.path e.node tree ∙ rw (beq_refl e.path) refl)

add_entries-Has :
    (es : List Entry) (k : FilePath) (tree : FileTree) → Has tree k → Has (add_entries es tree) k
unfolding add_entries
add_entries-Has [] k tree m = m
add_entries-Has (e ∷ es) k tree m =
    add_entries-Has es k (add_entry e tree) (add_entry-Has e k tree m)

add_entries-HasPath :
    (es : List Entry) (p : FilePath) (tree : FileTree) → HasPath p es → Has (add_entries es tree) p
unfolding add_entries
add_entries-HasPath [] p tree m = absurd m
add_entries-HasPath (e ∷ es) p tree (inl same) =
    add_entries-Has es p (add_entry e tree)
      (subst (Has (add_entry e tree)) same (add_entry-Has_own e tree))
add_entries-HasPath (e ∷ es) p tree (inr later) = add_entries-HasPath es p (add_entry e tree) later

IsUp-Has : {k p : FilePath} (tree : FileTree) → IsClosed tree → IsUp k p → Has tree p → Has tree k
IsUp-Has tree c here m = m
IsUp-Has {p = p} tree c (above u) m = IsUp-Has tree c u (c.parent p m)

-- The keys ascend, as those of a `std::map`.
abbrev pub IsSorted : FileTree → Type 0
IsSorted tree = IsAscending path_lt (keys tree)

add_parents-IsSorted :
    (fuel : ℕ) (p : FilePath) (s : Stat) (tree : FileTree)
    → IsSorted tree
    → IsSorted (add_parents fuel p s tree)
unfolding add_parents
add_parents-IsSorted zero p s tree asc = asc
add_parents-IsSorted (suc fuel) p s tree asc = both IsSorted (is_empty p) asc (
    both IsSorted (p == root) asc (
      both IsSorted (contains p tree) asc (
        add_parents-IsSorted fuel (parent_path p) (directory_of s)
          (emplace path_lt p (end_iterator, directory_of s) tree)
          (emplace-IsAscending path_lt path_lt-IsStrict p (end_iterator, directory_of s) tree
            asc))))

add_entries-IsSorted :
    (es : List Entry) (tree : FileTree) → IsSorted tree → IsSorted (add_entries es tree)
unfolding add_entries add_entry
add_entries-IsSorted [] tree asc = asc
add_entries-IsSorted (e ∷ es) tree asc = add_entries-IsSorted es _ (
    add_parents-IsSorted (length (parent_path e.path).names) (parent_path e.path) e.node.1 _
      (insert_or_assign-IsAscending path_lt path_lt-IsStrict e.path e.node tree asc))

module _ (h : Host) (a : Archive) (allow_other : Bool) (es : List Entry) (is_open : IsOpen a)
    (reads : Reads h a 0 es) where
  abbrev pub tree_of : FileTree
  tree_of = add_entries es (root_tree allow_other a.stat)

  tree_of-IsSorted : IsSorted tree_of
  unfolding root_tree
  tree_of-IsSorted = add_entries-IsSorted es _ (
      emplace-IsAscending path_lt path_lt-IsStrict {V = Node} root
        (end_iterator, root_stat allow_other a.stat) [] tt)

  tree_of-Has : (k : FilePath) → Has tree_of k ↔ ((k ≡ root) ⊎ OnWay k es)
  tree_of-Has k = (to (k), from k)
    where
      to : (j : FilePath) → Has tree_of j → (j ≡ root) ⊎ OnWay j es
      to j m = elim (Has-add_entries es j (root_tree allow_other a.stat) m) [
        | inl old ↦ inl (only_root allow_other a.stat j old)
        | inr w ↦ inr w
      ]

      from : (j : FilePath) → (j ≡ root) ⊎ OnWay j es → Has tree_of j
      from j (inl e) =
          add_entries-Has es j (root_tree allow_other a.stat)
            (subst (Has (root_tree allow_other a.stat)) (sym e) (root_tree-Has allow_other a.stat))
      from j (inr (p, m, u)) =
          IsUp-Has tree_of (entries-IsClosed h a allow_other es reads) u
            (add_entries-HasPath es p (root_tree allow_other a.stat) m)

  -- For an archive at an address that is not null, with fewer than 2^32 items that can all be
  -- read, build_tree returns the tree of the root with the entry of each item added once and in
  -- order; the paths of that tree are the root, those of the items and those of the directories
  -- above them, and no others; and they stand in ascending order, so none stands twice.
  pub build_tree-Has :
      (build_tree h a allow_other ≡ ok (some tree_of))
      × ((k : FilePath) → Has tree_of k ↔ ((k ≡ root) ⊎ OnWay k es))
      × IsSorted tree_of
  build_tree-Has =
      (build_tree-Reads h a allow_other es is_open reads, tree_of-Has, tree_of-IsSorted)
