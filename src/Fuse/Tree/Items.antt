-- ===== src/Fuse/Tree/Items.antt =====
-- Which items the nodes of the tree of Fuse::execute (src/fuse3.cpp) are about.
use fuse3_p7zip.Base.{
  ℕ, zero, suc, ◌+◌, ◌<◌, ◌≡◌, sym, subst, All, Bool, List, [], ◌∷◌, both, length, ◌==◌,
}
use fuse3_p7zip.Base.Outcome.{Ensures, >>=-Ensures, of_Ensures, returned}
use fuse3_p7zip.Host.{Host}
use fuse3_p7zip.FilePath.{FilePath, FilePath-eq, root, is_empty, parent_path, path_lt}
use fuse3_p7zip.OrderedMap.{contains, emplace}
use fuse3_p7zip.OrderedMap.Values.{AllValues, All-insert_or_assign, All-emplace}
use fuse3_p7zip.Archive.Iterator.{Archive, Iterator, end_iterator}
use fuse3_p7zip.Fuse.Stat.{Stat}
use fuse3_p7zip.Fuse.Tree.{
  FileTree, Node, Entry, directory_of, add_parents, add_entry, add_entries, root_tree, root_stat,
  read_entry,
}
use fuse3_p7zip.Fuse.Tree.Fill.{Reads, walk}

module _ (P : Node → Type 0) (made_up : (s : Stat) → P (end_iterator, s)) where
  All-add_parents :
      (fuel : ℕ) (p : FilePath) (s : Stat) (tree : FileTree)
      → AllValues P tree
      → AllValues P (add_parents fuel p s tree)
  unfolding add_parents
  All-add_parents zero p s tree all = all
  All-add_parents (suc fuel) p s tree all = both (AllValues P) (is_empty p) all (
      both (AllValues P) (p == root) all (
        both (AllValues P) (contains p tree) all (
          All-add_parents fuel (parent_path p) (directory_of s)
            (emplace path_lt p (end_iterator, directory_of s) tree)
            (All-emplace P path_lt p (end_iterator, directory_of s) tree (made_up (directory_of s))
              all))))

  pub All-add_entries :
      (es : List Entry) (tree : FileTree)
      → All (λ e. P e.node) es
      → AllValues P tree
      → AllValues P (add_entries es tree)
  unfolding add_entries add_entry
  All-add_entries [] tree ps all = all
  All-add_entries (e ∷ es) tree (p, ps) all = All-add_entries es (add_entry e tree) ps (
      All-add_parents (length (parent_path e.path).names) (parent_path e.path) e.node.1 _
        (All-insert_or_assign P path_lt e.path e.node tree p all))

  pub All-root_tree : (allow_other : Bool) (s : Stat) → AllValues P (root_tree allow_other s)
  unfolding root_tree
  All-root_tree allow_other s =
      All-emplace P path_lt root (end_iterator, root_stat allow_other s) []
        (made_up (root_stat allow_other s)) tt

module _ (h : Host) (a : Archive) where
  read_entry-node : (it : Iterator) → Ensures (λ e. e.node.0 ≡ it) (read_entry h a it)
  unfolding read_entry
  read_entry-node it = search (>>=-Ensures, returned) depth 14

  -- What holds of every item holds of the item of every entry.
  pub All-Reads :
      (Q : Iterator → Type 0)
      → ((i : ℕ) → i < a.size → Q (walk a i))
      → (es : List Entry) (i : ℕ) → Reads h a i es
      → All (λ e. Q e.node.0) es
  All-Reads Q q [] i r = tt
  All-Reads Q q (e ∷ es) i (lt, read, rest) = (
    subst Q
        (sym (
          of_Ensures (λ e. e.node.0 ≡ walk a i) (read_entry h a (walk a i))
            (read_entry-node (walk a i)) read))
        (q i lt),
    All-Reads Q q es (i + 1) rest,
  )
