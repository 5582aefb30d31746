-- ===== src/Fuse/Tree/Closure.antt =====
-- The directories above the paths of the tree of Fuse::execute (src/fuse3.cpp).
use fuse3_p7zip.Base.{
  ℕ, zero, suc, ◌≤◌, Bytes, ◌≡◌, refl, All, Bool, true, List, [], ◌∷◌, ◌==◌, length, arith, ◌⊎◌,
  inl, inr, Bool-cases, eq_of_beq, beq_refl, subst, sym, ◌∙◌,
}
use fuse3_p7zip.FilePath.{FilePath, FilePath-eq, root, parent_path, path_lt}
use fuse3_p7zip.FilePath.Laws.{
  is_empty_absolute, root_of_no_names, length-init, IsRooted, parent_path-IsRooted,
}
use fuse3_p7zip.OrderedMap.{contains, insert_or_assign, emplace}
use fuse3_p7zip.OrderedMap.Laws.{contains-insert_or_assign, contains-emplace}
use fuse3_p7zip.Fuse.Stat.{Stat}
use fuse3_p7zip.Archive.Iterator.{end_iterator}
use fuse3_p7zip.Fuse.Tree.{
  FileTree, Node, Entry, directory_of, add_parents, add_entry, add_entries, root_tree, root_stat,
}

abbrev pub Has : FileTree → FilePath → Type 0
Has tree k = contains k tree ≡ true

pub record IsClosed (tree : FileTree) : Type 0 where
  pub has_root : Has tree root
  pub rooted : (k : FilePath) → Has tree k → IsRooted k
  pub parent : (k : FilePath) → Has tree k → Has tree (parent_path k)

-- Closed but for one directory that may be missing.
record IsClosedBut (p : FilePath) (tree : FileTree) : Type 0 where
  has_root : Has tree root
  rooted : (k : FilePath) → Has tree k → IsRooted k
  parent : (k : FilePath) → Has tree k → (Has tree (parent_path k)) ⊎ (parent_path k ≡ p)

close : (p : FilePath) (tree : FileTree) → IsClosedBut p tree → Has tree p → IsClosed tree
close p tree c h = record {
  has_root = c.has_root;
  rooted = c.rooted;
  parent = λ k m. go k (c.parent k m);
}
  where
    go :
        (k : FilePath) → (Has tree (parent_path k)) ⊎ (parent_path k ≡ p) → Has tree (parent_path k)
    go k (inl here) = here
    go k (inr e) = subst (λ q. Has tree q) (sym e) h

pub Has-emplace :
    (p k : FilePath) (s : Stat) (tree : FileTree)
    → Has (emplace path_lt p (end_iterator, s) tree) k
    → (k ≡ p) ⊎ Has tree k
Has-emplace p k s tree m = elim (Bool-cases (k == p)) [
  | inl e ↦ inl (eq_of_beq k p e)
  | inr e ↦ inr (ground (arith, e, contains-emplace path_lt p k (end_iterator, s) tree))
]

pub Has-insert :
    (p k : FilePath) (v : Node) (tree : FileTree)
    → Has (insert_or_assign path_lt p v tree) k
    → (k ≡ p) ⊎ Has tree k
Has-insert p k v tree m = elim (Bool-cases (k == p)) [
  | inl e ↦ inl (eq_of_beq k p e)
  | inr e ↦ inr (ground (arith, e, contains-insert_or_assign path_lt p k v tree))
]

emplace-IsClosedBut :
    (p : FilePath) (s : Stat) (tree : FileTree)
    → IsRooted p
    → IsClosedBut p tree
    → IsClosedBut (parent_path p) (emplace path_lt p (end_iterator, s) tree)
emplace-IsClosedBut p s tree a c = record {
  has_root = ground (arith, contains-emplace path_lt p root (end_iterator, s) tree, c.has_root);
  rooted = λ k m. elim (Has-emplace p k s tree m) [
    | inl e ↦ subst IsRooted (sym e) a
    | inr old ↦ c.rooted k old
  ];
  parent = λ k m. ground (
    arith,
    contains-emplace path_lt p k (end_iterator, s) tree,
    contains-emplace path_lt p (parent_path k) (end_iterator, s) tree,
    c.parent k,
  );
}

no_names : (ns : List Bytes) → length ns ≤ 0 → ns ≡ []
no_names [] n = refl
no_names (x ∷ ns) n = absurd (omega arith)

add_parents-IsClosed :
    (fuel : ℕ) (p : FilePath) (s : Stat) (tree : FileTree)
    → length p.names ≤ fuel
    → IsRooted p
    → IsClosedBut p tree
    → IsClosed (add_parents fuel p s tree)
unfolding add_parents parent_path
add_parents-IsClosed zero p s tree n a c =
    close p tree c (rw (root_of_no_names p a.0 (no_names p.names n)) c.has_root)
add_parents-IsClosed (suc fuel) p s tree n a c = ground (
  arith,
  is_empty_absolute p a.0,
  close p tree c,
  c.has_root,
  length-init p.names,
  add_parents-IsClosed fuel (parent_path p) (directory_of s)
      (emplace path_lt p (end_iterator, directory_of s) tree) (omega (arith, length-init p.names))
      (parent_path-IsRooted p a) (emplace-IsClosedBut p (directory_of s) tree a c),
)

insert-IsClosedBut :
    (p : FilePath) (v : Node) (tree : FileTree)
    → IsRooted p
    → IsClosed tree
    → IsClosedBut (parent_path p) (insert_or_assign path_lt p v tree)
insert-IsClosedBut p v tree a c = record {
  has_root = ground (arith, contains-insert_or_assign path_lt p root v tree, c.has_root);
  rooted = λ k m. elim (Has-insert p k v tree m) [
    | inl e ↦ subst IsRooted (sym e) a
    | inr old ↦ c.rooted k old
  ];
  parent = λ k m. ground (
    arith,
    contains-insert_or_assign path_lt p k v tree,
    contains-insert_or_assign path_lt p (parent_path k) v tree,
    c.parent k,
  );
}

pub add_entry-IsClosed :
    (e : Entry) (tree : FileTree) → IsRooted e.path → IsClosed tree → IsClosed (add_entry e tree)
unfolding add_entry parent_path
add_entry-IsClosed e tree a c =
    add_parents-IsClosed _ (parent_path e.path) e.node.1 _ (omega arith)
      (parent_path-IsRooted e.path a) (insert-IsClosedBut e.path e.node tree a c)

-- Whatever items are added to it, a closed tree stays closed.
pub add_entries-IsClosed :
    (es : List Entry) (tree : FileTree)
    → All (λ e. IsRooted e.path) es
    → IsClosed tree
    → IsClosed (add_entries es tree)
unfolding add_entries
add_entries-IsClosed [] tree a c = c
add_entries-IsClosed (e ∷ es) tree (a, as') c =
    add_entries-IsClosed es (add_entry e tree) as' (add_entry-IsClosed e tree a c)

module _ (allow_other : Bool) (s : Stat) where
  pub only_root : (k : FilePath) → Has (root_tree allow_other s) k → k ≡ root
  unfolding root_tree contains
  only_root k m = elim (Bool-cases (k == root)) [
    | inl e ↦ eq_of_beq k root e
    | inr e ↦ absurd (
        ground (
          arith,
          e,
          contains-emplace {V = Node} path_lt root k (end_iterator, root_stat allow_other s) [],
          m,
        ))
  ]

  pub root_tree-Has : Has (root_tree allow_other s) root
  unfolding root_tree
  root_tree-Has =
      contains-emplace {V = Node} path_lt root root (end_iterator, root_stat allow_other s) []
      ∙ rw (beq_refl root)

  pub root_tree-IsClosed : IsClosed (root_tree allow_other s)
  unfolding parent_path
  root_tree-IsClosed = record {
    has_root = root_tree-Has;
    rooted = λ k m. subst IsRooted (sym (only_root k m)) (refl, tt);
    parent = λ k m. rw (only_root k m) root_tree-Has;
  }
