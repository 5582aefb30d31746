-- ===== src/Fuse/Loop/Spec.antt =====
-- What a read-only file system promises: the answers to requests, by the nodes that it has and the
-- contents of the files that are open.
use fuse3_p7zip.Base.{
  ℕ, ◌<◌, ◌^◌, Bytes, ◌≡◌, ◌≢◌, ◌↔◌, refl, Bool, true, false, List, [], ◌∷◌, Option, none, some,
  ◌==◌, nat_eq, if◌then◌else◌, length,
}
use fuse3_p7zip.Base.Int.{pos}
use fuse3_p7zip.FilePath.{FilePath, slash, from_string, to_string}
use fuse3_p7zip.FilePath.Laws.{Lacks, IsPlain}
use fuse3_p7zip.FilePath.Child.{child}
use fuse3_p7zip.Fuse.Stat.{Stat}
use fuse3_p7zip.Fuse.Operations.{Filled, zero_stat, enoent, e2big, enotdir}
use fuse3_p7zip.Fuse.Operations.Reads.{slice}
use fuse3_p7zip.Fuse.Operations.Listing.{In}
use fuse3_p7zip.Fuse.Loop.{
  Request, getattr, readdir, opens, reads, releases, Answer, attributes, entries, handle, contents,
  released,
}

-- The nodes, with what an open gives if one can be opened, and the limit on their size.
pub record FileSystem : Type 0 where
  pub node : FilePath → Option (Stat × Option Bytes)
  pub refused : Stat → Bool

-- The contents of each open handle.
pub record Opens : Type 0 where
  pub holds : ℕ → Option Bytes

abbrev pub set_holds : (ℕ → Option Bytes) → ℕ → Option Bytes → ℕ → Option Bytes
set_holds holds fh bytes k = if k == fh then bytes else holds k

module _ (fs : FileSystem) where
  -- What may be asked: a canonical path of a directory, a node that can be opened, a handle that is
  -- open, a size that an `int` can tell, and an offset that a `long` can. `operator new` gives no
  -- address that is the handle of an open file.
  abbrev pub IsLegal : Request → Opens → Type 0
  IsLegal (getattr path) o = Unit
  IsLegal (readdir path) o =
      (d : FilePath) × (path ≡ to_string d) × (d.absolute ≡ true) × IsPlain d.names
  IsLegal (opens path address) o =
      (o.holds address ≡ none)
      × ((stat : Stat) → fs.node (from_string path) ≡ some (stat, none) → fs.refused stat ≡ true)
  IsLegal (reads size offset fh) o =
      (bytes : Bytes) × (n : ℕ) × (o.holds fh ≡ some bytes)
      × (offset ≡ pos n)
      × (size < 2 ^ 31)
      × (n < 2 ^ 63)
  IsLegal (releases fh) o = (bytes : Bytes) × (o.holds fh ≡ some bytes)

  open_file : Stat → Option Bytes → ℕ → Opens → Opens
  open_file stat none address o = o
  open_file stat (some bytes) address o =
      if fs.refused stat then o else record { holds = set_holds o.holds address (some bytes) }

  open_node : Option (Stat × Option Bytes) → ℕ → Opens → Opens
  unfolding open_file
  open_node none address o = o
  open_node (some (stat, bytes)) address o = open_file stat bytes address o

  -- What is open after a request.
  unfoldable pub after : Request → Opens → Opens
  unfolding open_node
  after (opens path address) o = open_node (fs.node (from_string path)) address o
  after (releases fh) o = record o { holds = set_holds o.holds fh none }
  after _ o = o

  pub after_missing :
      (path : Bytes) (address : ℕ) (o : Opens)
      → fs.node (from_string path) ≡ none
      → after (opens path address) o ≡ o
  unfolding after open_node
  after_missing path address o e = rw (e, open_node) refl

  pub after_refused :
      (path : Bytes) (address : ℕ) (o : Opens) (stat : Stat) (c : Option Bytes)
      → fs.node (from_string path) ≡ some (stat, c)
      → fs.refused stat ≡ true
      → after (opens path address) o ≡ o
  unfolding after open_node open_file
  after_refused path address o stat none e r = rw (e, open_node) refl
  after_refused path address o stat (some bytes) e r = rw (e, open_node, r) refl

  pub after_opened :
      (path : Bytes) (address : ℕ) (o : Opens) (stat : Stat) (bytes : Bytes)
      → fs.node (from_string path) ≡ some (stat, some bytes)
      → fs.refused stat ≡ false
      → after (opens path address) o ≡ record { holds = set_holds o.holds address (some bytes) }
  unfolding after open_node open_file
  after_opened path address o stat bytes e r = rw (e, open_node, r) refl

  -- The answers.
  pub data Allows (o : Opens) : Request → Answer → Type 0 where
    attributes_missing :
        (path : Bytes)
        → fs.node (from_string path) ≡ none
        → Allows o (getattr path) (attributes enoent zero_stat)
    attributes_of :
        (path : Bytes) (stat : Stat) (bytes : Option Bytes)
        → fs.node (from_string path) ≡ some (stat, bytes)
        → Allows o (getattr path) (attributes (pos 0) stat)
    entries_missing :
        (d : FilePath) → fs.node d ≡ none → Allows o (readdir (to_string d)) (entries enotdir [])
    -- A name stands in a directory with a stat just if the node below has that stat.
    entries_of :
        (d : FilePath) (stat : Stat) (bytes : Option Bytes) (filled : List Filled)
        → fs.node d ≡ some (stat, bytes)
        → ((n : Bytes) (s : Stat)
            → In (n, some s) filled ↔ (
                (n ≢ [])
                × Lacks slash n
                × ((c : Option Bytes) × (fs.node (child d n) ≡ some (s, c)))))
        → Allows o (readdir (to_string d)) (entries (pos 0) filled)
    open_missing :
        (path : Bytes) (address : ℕ)
        → fs.node (from_string path) ≡ none
        → Allows o (opens path address) (handle enoent none)
    open_refused :
        (path : Bytes) (address : ℕ) (stat : Stat) (bytes : Option Bytes)
        → fs.node (from_string path) ≡ some (stat, bytes)
        → fs.refused stat ≡ true
        → Allows o (opens path address) (handle e2big none)
    open_gives :
        (path : Bytes) (address : ℕ) (stat : Stat) (bytes : Bytes)
        → fs.node (from_string path) ≡ some (stat, some bytes)
        → fs.refused stat ≡ false
        → Allows o (opens path address) (handle (pos 0) (some address))
    read_slice :
        (size n fh : ℕ) (bytes : Bytes)
        → o.holds fh ≡ some bytes
        → Allows o
            (reads size (pos n) fh)
            (contents (pos (length (slice size n bytes))) (slice size n bytes))
    release_done : (fh : ℕ) → Allows o (releases fh) (released (pos 0))

  abbrev pub AllLegal : List Request → Opens → Type 0
  AllLegal [] o = Unit
  AllLegal (r ∷ rs) o = IsLegal r o × AllLegal rs (after r o)

  abbrev pub AllAllowed : List Request → List Answer → Opens → Type 0
  AllAllowed [] [] o = Unit
  AllAllowed [] (_ ∷ _) o = ⊥
  AllAllowed (_ ∷ _) [] o = ⊥
  AllAllowed (r ∷ rs) (a ∷ answers) o = Allows o r a × AllAllowed rs answers (after r o)
