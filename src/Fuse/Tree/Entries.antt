-- ===== src/Fuse/Tree/Entries.antt =====
-- The keys and the nodes of the tree of Fuse::execute (src/fuse3.cpp), by the items.
use fuse3_p7zip.Base.{
  ℕ, zero, suc, ◌≡◌, refl, ◌∙◌, sym, Bool, false, List, [], ◌∷◌, Option, none, some, ◌==◌,
  if◌then◌else◌, length, arith, Bool-cases, Option-cases, eq_of_beq, inl, inr, beq_refl,
}
use mathlib.Core.Path.{subst₂}
use fuse3_p7zip.FilePath.{FilePath, FilePath-eq, root, parent_path, path_lt}
use fuse3_p7zip.OrderedMap.{find, emplace}
use fuse3_p7zip.OrderedMap.Laws.{
  find-insert_or_assign, find-emplace_kept, NodupKeys, insert_or_assign-NodupKeys,
  emplace-NodupKeys,
}
use fuse3_p7zip.Archive.Iterator.{end_iterator}
use fuse3_p7zip.Fuse.Stat.{Stat}
use fuse3_p7zip.Fuse.Tree.{
  FileTree, Node, Entry, directory_of, add_parents, add_entry, add_entries, root_tree, root_stat,
}

add_parents-NodupKeys :
    (fuel : ℕ) (p : FilePath) (s : Stat) (tree : FileTree)
    → NodupKeys tree
    → NodupKeys (add_parents fuel p s tree)
unfolding add_parents
add_parents-NodupKeys zero p s tree u = u
add_parents-NodupKeys (suc fuel) p s tree u = ground (
  arith,
  add_parents-NodupKeys fuel (parent_path p) (directory_of s)
      (emplace path_lt p (end_iterator, directory_of s) tree)
      (emplace-NodupKeys path_lt p (end_iterator, directory_of s) tree u),
)

pub add_entries-NodupKeys :
    (es : List Entry) (tree : FileTree) → NodupKeys tree → NodupKeys (add_entries es tree)
unfolding add_entries add_entry
add_entries-NodupKeys [] tree u = u
add_entries-NodupKeys (e ∷ es) tree u = add_entries-NodupKeys es _ (
    add_parents-NodupKeys (length (parent_path e.path).names) (parent_path e.path) e.node.1 _
      (insert_or_assign-NodupKeys path_lt e.path e.node tree u))

pub root_tree-NodupKeys : (allow_other : Bool) (s : Stat) → NodupKeys (root_tree allow_other s)
unfolding root_tree
root_tree-NodupKeys allow_other s =
    emplace-NodupKeys path_lt root (end_iterator, root_stat allow_other s) [] tt

-- What is there is kept by the loop over the parents.
find-add_parents :
    (fuel : ℕ) (p k : FilePath) (s : Stat) (v : Node) (tree : FileTree)
    → find k tree ≡ some v
    → find k (add_parents fuel p s tree) ≡ some v
unfolding add_parents
find-add_parents zero p k s v tree f = f
find-add_parents (suc fuel) p k s v tree f = ground (
  arith,
  find-add_parents fuel (parent_path p) k (directory_of s) v
      (emplace path_lt p (end_iterator, directory_of s) tree)
      (find-emplace_kept path_lt p k (end_iterator, directory_of s) v tree f),
)

find-add_entry_own : (e : Entry) (tree : FileTree) → find e.path (add_entry e tree) ≡ some e.node
unfolding add_entry
find-add_entry_own e tree =
    find-add_parents _ (parent_path e.path) e.path e.node.1 e.node _
      (find-insert_or_assign path_lt e.path e.path e.node tree ∙ rw (beq_refl e.path) refl)

find-add_entry_other :
    (e : Entry) (k : FilePath) (v : Node) (tree : FileTree)
    → (k == e.path) ≡ false
    → find k tree ≡ some v
    → find k (add_entry e tree) ≡ some v
unfolding add_entry
find-add_entry_other e k v tree other f =
    find-add_parents _ (parent_path e.path) k e.node.1 v _
      (find-insert_or_assign path_lt e.path k e.node tree ∙ ground (arith, other, f))

-- The node of the last entry of a path.
unfoldable pub last_node : FilePath → List Entry → Option Node
unfolding FilePath-eq
last_node k [] = none
last_node k (e ∷ es) = elim (last_node k es) [
  | some v ↦ some v
  | none ↦ if k == e.path then some e.node else none
]

last_node-none :
    (k : FilePath) (e : Entry) (es : List Entry)
    → last_node k (e ∷ es) ≡ none
    → (last_node k es ≡ none) × ((k == e.path) ≡ false)
unfolding last_node
last_node-none k e es l = elim (Option-cases (last_node k es)) [
  | inl before ↦ (before, ground (arith, before))
  | inr (w, later) ↦ absurd (ground (arith, later))
]

last_node_here :
    (k : FilePath) (e : Entry) (es : List Entry) {v : Node}
    → last_node k es ≡ none
    → last_node k (e ∷ es) ≡ some v
    → (e.path ≡ k) × (e.node ≡ v)
unfolding last_node
last_node_here k e es before l = elim (Bool-cases (k == e.path)) [
  | inl same ↦ (sym (eq_of_beq k e.path same), ground (arith, before, same))
  | inr other ↦ absurd (ground (arith, before, other))
]

last_node_later :
    (k : FilePath) (e : Entry) (es : List Entry) {v w : Node}
    → last_node k es ≡ some w
    → last_node k (e ∷ es) ≡ some v
    → last_node k es ≡ some v
unfolding last_node
last_node_later k e es later l = ground (arith, later)

find-kept :
    (es : List Entry) (k : FilePath) (v : Node) (tree : FileTree)
    → last_node k es ≡ none
    → find k tree ≡ some v
    → find k (add_entries es tree) ≡ some v
unfolding add_entries
find-kept [] k v tree l f = f
find-kept (e ∷ es) k v tree l f =
    let (before, other) = last_node-none k e es l in
    find-kept es k v (add_entry e tree) before (find-add_entry_other e k v tree other f)

found_own :
    (e : Entry) (k : FilePath) (v : Node) (tree : FileTree)
    → (e.path ≡ k) × (e.node ≡ v)
    → find k (add_entry e tree) ≡ some v
found_own e k v tree (p, n) =
    subst₂ (λ q w. find q (add_entry e tree) ≡ some w) p n (find-add_entry_own e tree)

-- A path that entries have holds the node of the last of them, whatever the tree held, and
-- whatever directories had to be made up.
pub find-last_node :
    (es : List Entry) (k : FilePath) (v : Node) (tree : FileTree)
    → last_node k es ≡ some v
    → find k (add_entries es tree) ≡ some v
unfolding add_entries
find-last_node [] k v tree l = absurd (unfold last_node in cc)
find-last_node (e ∷ es) k v tree l = elim (Option-cases (last_node k es)) [
  | inl before ↦
      find-kept es k v (add_entry e tree) before
        (found_own e k v tree (last_node_here k e es before l))
  | inr (w, later) ↦ find-last_node es k v (add_entry e tree) (last_node_later k e es later l)
]
