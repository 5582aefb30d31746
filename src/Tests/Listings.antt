-- ===== src/Tests/Listings.antt =====
-- Two archives of the same paths, in another order, and what their directories list.
use fuse3_p7zip.Base.{
  ℕ, zero, suc, Bytes, codes, ◌≡◌, refl, false, ◌↔◌, ◌⊎◌, inl, inr, true, List, [], ◌∷◌, some, drop,
  arith,
}
use fuse3_p7zip.Base.Int.{pos}
use fuse3_p7zip.Base.Outcome.{ok}
use fuse3_p7zip.FilePath.{FilePath, root, bytes_lt, from_string}
use fuse3_p7zip.OrderedMap.Order.{IsAscending}
use fuse3_p7zip.Fuse.Stat
use fuse3_p7zip.Archive.Iterator.{Archive, Iterator}
use fuse3_p7zip.Archive.Iterator
use fuse3_p7zip.Fuse.Tree.{FileTree, Entry, build_tree, read_entry, add_entries, root_tree}
use fuse3_p7zip.Fuse.Tree.Closure.{Has}
use fuse3_p7zip.Fuse.Tree.Fill.{IsOpen, Reads}
use fuse3_p7zip.Fuse.Tree.Paths.{IsSorted, OnWay, HasPath, build_tree-Has}
use fuse3_p7zip.Fuse.Operations.{cb_readdir}
use fuse3_p7zip.Fuse.Operations.Names.{
  names_of, listed, SamePaths, readdir-IsAscending, readdir-SamePaths,
}
use fuse3_p7zip.Tests.{host, archive, properties, handler}
use fuse3_p7zip.Tests.Files.{tree, entries, entry_0, entry_1, archive-IsOpen, reads}

-- The second item first.
abbrev swapped : ℕ → ℕ
swapped zero = 1
swapped (suc n) = 0

abbrev other_archive : Archive
other_archive = record archive {
  handler = record handler { get_property = λ index. properties (swapped index) };
}

abbrev other_item : ℕ → Iterator
other_item n = record { seq = some other_archive; index = n; at_end = false }

abbrev other_entries : List Entry
other_entries =
    record entry_1 { node = (other_item 0, entry_1.node.1) }
    ∷ record entry_0 { node = (other_item 1, entry_0.node.1) }
    ∷ []

other_archive-IsOpen : IsOpen other_archive
other_archive-IsOpen = record { has_address = λ e. omega arith; has_size = omega arith }

other_reads : Reads host other_archive 0 other_entries
unfolding read_entry from_string Iterator.path Iterator.name Iterator.extension Iterator.size
    Iterator.atime Iterator.mtime Iterator.ctime Iterator.is_dir Stat.or_permissions
other_reads = (omega arith, refl, (omega arith, refl, refl))

same_paths : SamePaths entries other_entries
same_paths p = (to p, from p)
  where
    to : (q : FilePath) → HasPath q entries → HasPath q other_entries
    to q (inl e) = inr (inl e)
    to q (inr (inl e)) = inl e
    to q (inr (inr n)) = absurd n

    from : (q : FilePath) → HasPath q other_entries → HasPath q entries
    from q (inl e) = inr (inl e)
    from q (inr (inl e)) = inl e
    from q (inr (inr n)) = absurd n

build_tree-Has_example :
    (build_tree host archive true ≡ ok (some tree))
    × ((k : FilePath) → Has tree k ↔ ((k ≡ root) ⊎ OnWay k entries))
    × IsSorted tree
build_tree-Has_example = build_tree-Has host archive true entries archive-IsOpen reads

tree-IsSorted : IsSorted tree
tree-IsSorted = build_tree-Has_example.2

readdir-IsAscending_example :
    IsAscending bytes_lt (names_of (drop 2 (cb_readdir tree (codes "/")).1))
readdir-IsAscending_example = readdir-IsAscending tree (codes "/") tree-IsSorted

readdir-SamePaths_example :
    (t : FileTree) × (u : FileTree) × (build_tree host archive true ≡ ok (some t))
    × (build_tree host other_archive true ≡ ok (some u))
    × ((path : Bytes) → listed (cb_readdir t path) ≡ listed (cb_readdir u path))
readdir-SamePaths_example =
    readdir-SamePaths host archive other_archive true entries other_entries archive-IsOpen
      other_archive-IsOpen reads other_reads same_paths

root_lists :
    listed (cb_readdir tree (codes "/"))
    ≡ (pos 0, codes "." ∷ codes ".." ∷ codes "d" ∷ codes "e" ∷ [])
unfolding cb_readdir add_entries root_tree
root_lists = refl
