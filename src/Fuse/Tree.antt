-- ===== src/Fuse/Tree.antt =====
-- The file tree of Fuse::execute (src/fuse3.cpp), up to the mount.
pub mod Closure
pub mod Entries
pub mod Fill
pub mod Items
pub mod Paths
pub mod Enumerates
pub mod Modes
use fuse3_p7zip.Base.{
  ℕ, zero, suc, ◌+◌, Bytes, codes, ◌≡◌, Bool, true, false, ◌&&◌, List, [], ◌∷◌, ◌++◌, Option, none,
  some, ◌==◌, nat_eq, list_eq, if◌then◌else◌, length,
}
use fuse3_p7zip.Base.Int.{ℤ, int64}
use fuse3_p7zip.Base.Outcome.{Outcome, ok, throws, fault, ◌>>=◌}
use fuse3_p7zip.Host.{Host}
use fuse3_p7zip.FilePath.{
  FilePath, FilePath-eq, root, from_string, is_empty, parent_path, append, concat, path_lt,
}
use fuse3_p7zip.OrderedMap.{OrderedMap, contains, insert_or_assign, emplace}
use fuse3_p7zip.Fuse.Stat.{Stat, Timespec, as_directory, as_regular, as_root, open_to_others}
use fuse3_p7zip.Archive.Iterator
use fuse3_p7zip.Archive.Iterator.{
  Archive, Iterator, end_iterator, begin_iterator, advance, iterator_eq,
}
use fuse3_p7zip.Archive.ProposedName.{proposed_name}

-- Cache::FileTree
abbrev pub Node : Type 0
Node = Iterator × Stat

abbrev pub FileTree : Type 0
FileTree = OrderedMap FilePath Node

-- What the tree takes from one item: its key and its node.
pub record Entry : Type 0 where
  pub path : FilePath
  pub node : Node

-- The stat of a directory that has to be made up above an item, from the one before.
abbrev pub directory_of : Stat → Stat
directory_of s = record s { mode = as_directory s.mode }

-- The loop over the parents: it ends at the root, at an empty path, or at a path that is there.
-- Each round takes a name off, so the number of names is fuel enough.
unfoldable pub add_parents : ℕ → FilePath → Stat → FileTree → FileTree
unfolding FilePath-eq is_empty contains emplace path_lt parent_path
add_parents zero p s tree = tree
add_parents (suc fuel) p s tree =
    let rest =
      add_parents fuel (parent_path p) (directory_of s)
        (emplace path_lt p (end_iterator, directory_of s) tree) in
    if is_empty p then tree else if p == root then tree else if contains p tree then tree else rest

-- One round of the loop over the items, from `insert_or_assign` on.
unfoldable pub add_entry : Entry → FileTree → FileTree
unfolding add_parents insert_or_assign path_lt parent_path
add_entry e tree =
    let parent = parent_path e.path in
    add_parents (length parent.names) parent e.node.1 (insert_or_assign path_lt e.path e.node tree)

unfoldable pub add_entries : List Entry → FileTree → FileTree
unfolding add_entry
add_entries [] tree = tree
add_entries (e ∷ es) tree = add_entries es (add_entry e tree)

unfoldable pub root_stat : Bool → Stat → Stat
unfolding as_root open_to_others
root_stat allow_other s = record s {
  mode = if allow_other then open_to_others (as_root s.mode) else as_root s.mode;
}

-- `cache.tree.emplace(root, ...)` on the empty tree
unfoldable pub root_tree : Bool → Stat → FileTree
unfolding root_stat emplace path_lt
root_tree allow_other s = emplace path_lt root (end_iterator, root_stat allow_other s) []

-- The key of an item from its path, its name and its extension.
unfoldable pub add_extension : FilePath → Bytes → FilePath
unfolding concat
add_extension name [] = name
add_extension name (c ∷ ext) = concat name (b'.' ∷ c ∷ ext)

unfoldable pub entry_path : FilePath → FilePath → FilePath
unfolding append is_empty
entry_path path name = if is_empty name then path else append path name

unfoldable pub entry_stat : Stat → Bool → ℕ → Timespec → Timespec → Timespec → Stat
unfolding as_directory as_regular
entry_stat s is_dir size atime mtime ctime = record s {
  mode = if is_dir then as_directory s.mode else as_regular s.mode;
  size = int64 size;
  atim = atime;
  mtim = mtime;
  ctim = ctime;
}

unfoldable pub make_entry : Iterator → FilePath → FilePath → Stat → Entry
unfolding entry_path as_directory
make_entry it path name stat = record { path = entry_path path name; node = (it, stat) }

module _ (h : Host) (a : Archive) where
  -- `root == path && it.name().empty() ? arc->proposed_name() : it.name()`
  name_or_proposed : FilePath → Bytes → Outcome Bytes
  unfolding FilePath-eq list_eq nat_eq proposed_name
  name_or_proposed path name = if path == root && name == [] then proposed_name a else ok name

  -- The body of the loop, as far as it reads the item.
  unfoldable pub read_entry : Iterator → Outcome Entry
  unfolding name_or_proposed append from_string add_extension make_entry entry_stat
  read_entry it = do
    item_path ← Iterator.path h it
    let path = append root (from_string item_path)
    item_name ← Iterator.name h it
    chosen ← name_or_proposed path item_name
    ext ← Iterator.extension h it
    size ← Iterator.size h it
    atime ← Iterator.atime h it
    mtime ← Iterator.mtime h it
    ctime ← Iterator.ctime h it
    is_dir ← Iterator.is_dir h it
    let stat = entry_stat a.stat is_dir size atime mtime ctime
    ok (make_entry it path (add_extension (from_string chosen) ext) stat)

  -- `for (auto it = arc->begin(); it != arc->end(); ++it)`; `none` means that the fuel ran out.
  unfoldable pub fill_tree : ℕ → Iterator → FileTree → Outcome (Option FileTree)
  unfolding read_entry add_entry advance iterator_eq end_iterator
  fill_tree zero it tree = ok none
  fill_tree (suc fuel) it tree = elim (iterator_eq it end_iterator) [
    | true ↦ ok (some tree)
    | false ↦ do e ← read_entry it; next ← advance it; fill_tree fuel next (add_entry e tree)
  ]

  unfoldable pub build_tree : Bool → Outcome (Option FileTree)
  unfolding fill_tree root_tree begin_iterator
  build_tree allow_other = fill_tree (suc a.size) (begin_iterator a) (root_tree allow_other a.stat)
