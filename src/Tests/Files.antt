-- ===== src/Tests/Files.antt =====
-- The tree of the archive, and the callbacks over it.
use fuse3_p7zip.Base.{codes, ◌≡◌, ◌≢◌, ◌↔◌, refl, true, List, [], ◌∷◌, some, nat_eq, arith}
use fuse3_p7zip.Base.Int.{pos}
use fuse3_p7zip.Base.Outcome.{ok, ◌>>=◌}
use fuse3_p7zip.FilePath.{FilePath, FilePath-eq, slash, from_string, to_string}
use fuse3_p7zip.FilePath.Laws.{Lacks}
use fuse3_p7zip.FilePath.Child.{child}
use fuse3_p7zip.OrderedMap.{find, contains}
use fuse3_p7zip.OrderedMap.Laws.{NodupKeys}
use fuse3_p7zip.Fuse.Stat
use fuse3_p7zip.Fuse.Stat.{Stat, format_of, directory, regular}
use fuse3_p7zip.Archive.Iterator
use fuse3_p7zip.Fuse.Tree.{FileTree, Node, Entry, read_entry, build_tree, add_entries, root_tree}
use fuse3_p7zip.Fuse.Tree.Closure.{Has, IsClosed, add_entries-IsClosed, root_tree-IsClosed}
use fuse3_p7zip.Fuse.Tree.Entries.{last_node, add_entries-NodupKeys, root_tree-NodupKeys}
use fuse3_p7zip.Fuse.Tree.Fill.{IsOpen, Reads, build_tree-IsClosed}
use fuse3_p7zip.Fuse.Tree.Enumerates.{add_items, build_tree-add_items}
use fuse3_p7zip.Fuse.Operations.{cb_getattr, cb_readdir, enoent, enotdir}
use fuse3_p7zip.Fuse.Operations.Listing.{In, readdir-getattr, readdir-getattr_found}
use fuse3_p7zip.Tests.{host, host-IsDocumented, archive, archive_stat, item}

abbrev pub stat_0 : Stat
stat_0 = record archive_stat { mode = 0o100664; size = pos 3 }

abbrev stat_1 : Stat
stat_1 = record archive_stat { mode = 0o040775; size = pos 0 }

abbrev pub d : FilePath
d = record { absolute = true; names = codes "d" ∷ [] }

abbrev pub entry_0 : Entry
entry_0 = record {
  path = record { absolute = true; names = codes "d" ∷ codes "f" ∷ [] };
  node = (item 0, stat_0);
}

abbrev pub entry_1 : Entry
entry_1 = record {
  path = record { absolute = true; names = codes "e" ∷ [] };
  node = (item 1, stat_1);
}

abbrev pub entries : List Entry
entries = entry_0 ∷ entry_1 ∷ []

read_0 : read_entry host archive (item 0) ≡ ok entry_0
unfolding read_entry from_string Iterator.path Iterator.name Iterator.extension Iterator.size
    Iterator.atime Iterator.mtime Iterator.ctime Iterator.is_dir Stat.or_permissions
read_0 = refl

read_1 : read_entry host archive (item 1) ≡ ok entry_1
unfolding read_entry from_string Iterator.path Iterator.name Iterator.extension Iterator.size
    Iterator.atime Iterator.mtime Iterator.ctime Iterator.is_dir Stat.or_permissions
read_1 = refl

pub archive-IsOpen : IsOpen archive
archive-IsOpen = record { has_address = λ e. omega arith; has_size = omega arith }

pub reads : Reads host archive 0 entries
reads = (omega arith, read_0, (omega arith, read_1, refl))

abbrev pub tree : FileTree
tree = add_entries entries (root_tree true archive_stat)

pub tree-IsClosed : IsClosed tree
tree-IsClosed =
    add_entries-IsClosed entries (root_tree true archive_stat)
      (
        (refl, ((λ e. cc), ((λ e. omega arith), tt), ((λ e. omega arith), tt))),
        ((refl, ((λ e. omega arith), tt)), tt),
      )
      (root_tree-IsClosed true archive_stat)

pub tree-NodupKeys : NodupKeys tree
tree-NodupKeys =
    add_entries-NodupKeys entries (root_tree true archive_stat)
      (root_tree-NodupKeys true archive_stat)

build_tree-IsClosed_example :
    (t : FileTree) × (build_tree host archive true ≡ ok (some t))
    × IsClosed t
    × NodupKeys t
    × ((k : FilePath) (v : Node) → last_node k entries ≡ some v → find k t ≡ some v)
build_tree-IsClosed_example = build_tree-IsClosed host archive true entries archive-IsOpen reads

tree-Has : Has tree d
unfolding add_entries root_tree contains FilePath-eq
tree-Has = refl

readdir-getattr_example : In (codes "f", some stat_0) (cb_readdir tree (to_string d)).1 ↔ (
    (codes "f" ≢ [])
    × Lacks slash (codes "f")
    × (cb_getattr tree (to_string (child d (codes "f"))) ≡ (pos 0, stat_0)))
readdir-getattr_example =
    readdir-getattr tree d (codes "f") stat_0 tree-IsClosed tree-NodupKeys refl
      (((λ e. cc), ((λ e. omega arith), tt)), tt) tree-Has

readdir-getattr_found_example :
    ((cb_readdir tree (codes "/z")).0 ≡ enotdir) ↔ ((cb_getattr tree (codes "/z")).0 ≡ enoent)
readdir-getattr_found_example = readdir-getattr_found tree (codes "/z") tree-IsClosed

build_tree-add_items_example :
    build_tree host archive true
    ≡ (add_items host archive archive.size 0 (root_tree true archive.stat) >>= λ t. ok (some t))
build_tree-add_items_example =
    build_tree-add_items host archive true archive-IsOpen host-IsDocumented
