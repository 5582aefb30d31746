-- ===== src/Fuse/Operations.antt =====
-- The callbacks of Fuse::Operations (src/fuse3.cpp). One thread runs them, one after the other.
pub mod Listing
pub mod Handles
pub mod Reads
pub mod Opening
pub mod Whole
pub mod Names
pub mod View
use fuse3_p7zip.Base.{
  ℕ, zero, suc, ◌+◌, Bytes, codes, ◌≡◌, Bool, true, false, ◌&&◌, List, [], ◌∷◌, Option, none, some,
  ◌==◌, nat_eq, list_eq, if◌then◌else◌, length, not,
}
use fuse3_p7zip.Base.Int.{ℤ, pos, negsuc, int64, int32, uint64, ltz}
use fuse3_p7zip.Base.Outcome.{Outcome, ok, throws, fault, ◌>>=◌}
use fuse3_p7zip.Host.{Host, Sys}
use fuse3_p7zip.FilePath.{FilePath, FilePath-eq, from_string, parent_path, filename}
use fuse3_p7zip.OrderedMap.{OrderedMap, find, contains}
use fuse3_p7zip.Text.Strtoll.{strtoll}
use fuse3_p7zip.Stdio.{File, Whence, fseek}
use fuse3_p7zip.Stream.Write.{file_write_stream}
use fuse3_p7zip.Fuse.Stat.{Stat, Timespec}
use fuse3_p7zip.Fuse.Tree.{FileTree, Node}
use fuse3_p7zip.Archive.Iterator.{Iterator, Archive}
use fuse3_p7zip.Archive.Extractor

-- `Cache`, and the streams that open file handles point to, by address. `tmpfile` gives the next
-- temporary file.
pub record Session : Type 0 where
  pub tree : FileTree
  pub password : Bytes
  pub files : ℕ → Option File
  pub tmpfile : Sys File

-- -ENOENT, -E2BIG and -ENOTDIR
abbrev pub enoent : ℤ
enoent = negsuc 1

abbrev pub e2big : ℤ
e2big = negsuc 6

abbrev pub enotdir : ℤ
enotdir = negsuc 19

abbrev no_time : Timespec
no_time = record { sec = pos 0; nsec = pos 0 }

-- `memset(stbuf, 0, sizeof(struct stat))`
abbrev pub zero_stat : Stat
zero_stat = record {
  mode = 0;
  size = pos 0;
  atim = no_time;
  mtim = no_time;
  ctim = no_time;
  ino = 0;
  nlink = 0;
  uid = 0;
  gid = 0;
}

-- The result and `*stbuf`.
unfoldable pub cb_getattr : FileTree → Bytes → ℤ × Stat
unfolding find FilePath-eq from_string
cb_getattr tree path = elim (find (from_string path) tree) [
  | none ↦ (enoent, zero_stat)
  | some (it, stat) ↦ (pos 0, stat)
]

-- One call of `filler`: a name, and the stat if there is one.
abbrev pub Filled : Type 0
Filled = Bytes × Option Stat

-- The loop over the tree.
unfoldable pub fill_children : FilePath → FileTree → List Filled
unfolding FilePath-eq list_eq nat_eq parent_path filename
fill_children path [] = []
fill_children path ((p, (it, stat)) ∷ tree) =
    let rest = fill_children path tree in
    if path == parent_path p && not (filename p == []) then (filename p, some stat) ∷ rest else rest

-- The result and the calls of `filler`.
unfoldable pub cb_readdir : FileTree → Bytes → ℤ × List Filled
unfolding contains FilePath-eq list_eq nat_eq from_string fill_children
cb_readdir tree p =
    if not (p == codes "/") && not (contains (from_string p) tree)
    then (enotdir, [])
    else (pos 0, (codes ".", none) ∷ (codes "..", none) ∷ fill_children (from_string p) tree)

-- What the address `fh` holds is set.
abbrev pub set_file : (ℕ → Option File) → ℕ → Option File → ℕ → Option File
set_file files fh f k = if k == fh then f else files k

module _ (h : Host) where
  -- FUSE3_P7ZIP_MAX_OPEN_SIZE: whether a file of that size is refused.
  unfoldable pub too_big : Stat → Bool
  unfolding strtoll
  too_big stat = elim (h.getenv (codes "FUSE3_P7ZIP_MAX_OPEN_SIZE")) [
    | none ↦ false
    | some limit ↦ ltz (strtoll limit) stat.size
  ]

  -- `ci_iterator::extract`: an iterator with no archive is followed all the same.
  unfoldable pub extract : Iterator → Session → Outcome File
  unfolding Extractor.execute
  extract it s = elim it.seq [
    | none ↦ fault
    | some a ↦ Extractor.execute h a.handler s.password it.index s.tmpfile
  ]

  -- The session, the result and `fi->fh`, which is the address that `operator new` gives to the new
  -- stream, if there is to be one.
  unfoldable pub cb_open : Session → Bytes → ℕ → Outcome (Session × ℤ × Option ℕ)
  unfolding find FilePath-eq from_string too_big extract
  cb_open s path address = elim (find (from_string path) s.tree) [
    | none ↦ ok (s, enoent, none)
    | some (it, stat) ↦
        if too_big stat
        then ok (s, e2big, none)
        else (extract it s >>= λ f.
            ok (record s { files = set_file s.files address (some f) }, pos 0, some address))
  ]

-- `fi->fh` is followed unchecked. The session, the result and the bytes put into `buf`.
unfoldable pub cb_read : Session → ℕ → ℤ → ℕ → Outcome (Session × ℤ × Bytes)
unfolding nat_eq
cb_read s size offset fh = elim (s.files fh) [
  | none ↦ fault
  | some f ↦
      let (g, _) = file_write_stream.seek (uint64 offset) Whence.set f in
      let (k, bytes) = file_write_stream.read size g in
      ok (record s { files = set_file s.files fh (some k) }, int32 (length bytes), bytes)
]

-- `delete file`
unfoldable pub cb_release : Session → ℕ → Outcome (Session × ℤ)
unfolding nat_eq
cb_release s fh = elim (s.files fh) [
  | none ↦ fault
  | some f ↦ ok (record s { files = set_file s.files fh none }, pos 0)
]

-- `fuse_get_context()->private_data` goes on to be that.
unfoldable pub cb_init : Session → Session
cb_init private_data = private_data

unfoldable pub cb_destroy : Session → Session
cb_destroy private_data = private_data
