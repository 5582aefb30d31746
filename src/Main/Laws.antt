-- ===== src/Main/Laws.antt =====
-- The session that `main` (src/main.cpp) mounts.
use fuse3_p7zip.Base.{ℕ, ◌≡◌, refl, List, none, some}
use fuse3_p7zip.Base.Outcome.{ok}
use fuse3_p7zip.Host.{Host, Sys}
use fuse3_p7zip.FilePath.{FilePath, FilePath-eq, from_string}
use fuse3_p7zip.OrderedMap.{find}
use fuse3_p7zip.OrderedMap.Laws.{NodupKeys}
use fuse3_p7zip.Stdio.{File}
use fuse3_p7zip.Stream.Read.{Disk}
use fuse3_p7zip.Archive.Iterator.{Archive}
use fuse3_p7zip.Archive.Opening.{Library, open_file}
use fuse3_p7zip.Fuse.Tree.{FileTree, Node, Entry, build_tree}
use fuse3_p7zip.Fuse.Tree.Closure.{IsClosed}
use fuse3_p7zip.Fuse.Tree.Entries.{last_node}
use fuse3_p7zip.Fuse.Tree.Fill.{IsOpen, Reads, build_tree-IsClosed}
use fuse3_p7zip.Fuse.Operations.{Session}
use fuse3_p7zip.Main.{Request, with_encoding, new_session, mount}

pub mount_lem :
    (h : Host) (lib : Library) (disk : Disk) (address : ℕ) (r : Request) (tmpfile : Sys File)
    (a : Archive) (tree : FileTree)
    → open_file (with_encoding h r.path) lib disk address (from_string r.path) ≡ ok a
    → build_tree (with_encoding h r.path) a r.allow_other ≡ ok (some tree)
    → mount h lib disk address r tmpfile ≡ ok (some (new_session tree r.password tmpfile))
unfolding mount
mount_lem h lib disk address r tmpfile a tree opens builds = rw (opens, builds) refl

-- If the archive is opened, its address is not null, and it has fewer than 2^32 items that can all
-- be read, with the code page of its path in the environment, a session is mounted: no stream is
-- open, every path of its tree lies in a directory that it has, up to the root, no path is there
-- twice, and a path of several items has the node of the last one.
mount-IsClosed :
    (h : Host) (lib : Library) (disk : Disk) (address : ℕ) (r : Request) (tmpfile : Sys File)
    (a : Archive) (es : List Entry)
    → open_file (with_encoding h r.path) lib disk address (from_string r.path) ≡ ok a
    → IsOpen a
    → Reads (with_encoding h r.path) a 0 es
    → (s : Session) × (mount h lib disk address r tmpfile ≡ ok (some s))
      × ((fh : ℕ) → s.files fh ≡ none)
      × IsClosed s.tree
      × NodupKeys s.tree
      × ((k : FilePath) (v : Node) → last_node k es ≡ some v → find k s.tree ≡ some v)
unfolding new_session
mount-IsClosed h lib disk address r tmpfile a es opens is_open reads =
    let (tree, builds, closed, once, last) =
      build_tree-IsClosed (with_encoding h r.path) a r.allow_other es is_open reads in
    (
      new_session tree r.password tmpfile,
      mount_lem h lib disk address r tmpfile a tree opens builds,
      (λ fh. refl),
      closed,
      once,
      last,
    )
