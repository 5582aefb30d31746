-- ===== src/Fuse/Operations/View.antt =====
-- The directories of a mounted archive as a function of the set of the paths of its items alone: a
-- quotient that forgets their order and how often each stands (Fuse::execute and cb_readdir of
-- src/fuse3.cpp).
use fuse3_p7zip.Base.{Bytes, ◌≡◌, refl, Bool, List, some}
use fuse3_p7zip.Base.Int.{ℤ}
use fuse3_p7zip.Base.Outcome.{ok}
use fuse3_p7zip.Host.{Host}
use fuse3_p7zip.Archive.Iterator.{Archive}
use fuse3_p7zip.Fuse.Tree.{FileTree, Entry, build_tree}
use fuse3_p7zip.Fuse.Tree.Fill.{IsOpen, Reads}
use fuse3_p7zip.Fuse.Tree.Paths.{tree_of, build_tree-Has}
use fuse3_p7zip.Fuse.Operations.{cb_readdir}
use fuse3_p7zip.Fuse.Operations.Names.{listed, SamePaths, tree_of-SamePaths}
use mathlib.Core.Quot
use mathlib.Core.Quot.{Quot}

-- An archive whose items can all be read.
pub record Readable (h : Host) : Type 0 where
  pub archive : Archive
  pub items : List Entry
  pub is_open : IsOpen archive
  pub reads : Reads h archive 0 items

module _ (h : Host) where
  abbrev SameItems : Readable h → Readable h → Type 0
  SameItems r s = SamePaths r.items s.items

  -- What is in an archive.
  abbrev Contents : Type 0
  Contents = Quot SameItems

  module _ (allow_other : Bool) where
    abbrev tree : Readable h → FileTree
    tree r = tree_of h r.archive allow_other r.items r.is_open r.reads

    listing-IsSet : IsSet (ℤ × List Bytes)
    listing-IsSet = hlevel

    directory : Bytes → Contents → ℤ × List Bytes
    directory path =
        Quot.lift listing-IsSet (λ r. listed (cb_readdir (tree r) path))
          (λ r s same.
            tree_of-SamePaths h r.archive s.archive allow_other r.items s.items r.is_open s.is_open
              r.reads s.reads same path)

    -- The tree of an archive is built, and its directories are those of its contents.
    directory-readdir :
        (r : Readable h) (path : Bytes)
        → (t : FileTree) × (build_tree h r.archive allow_other ≡ ok (some t))
          × (directory path (Quot.mk r) ≡ listed (cb_readdir t path))
    unfolding directory
    directory-readdir r path =
        (tree r, (build_tree-Has h r.archive allow_other r.items r.is_open r.reads).0, refl)
