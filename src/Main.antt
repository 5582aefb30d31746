-- ===== src/Main.antt =====
-- `main` of src/main.cpp from the opening of the archive on, and Fuse::execute of src/fuse3.cpp up to
-- the mount.
pub mod Laws
pub mod Serving
pub mod Process
use fuse3_p7zip.Base.{ℕ, Bytes, Bool, Option, none, some}
use fuse3_p7zip.Base.Outcome.{Outcome, ok, ◌>>=◌}
use fuse3_p7zip.Host.{Host, Sys}
use fuse3_p7zip.FilePath.{from_string}
use fuse3_p7zip.Stdio.{File}
use fuse3_p7zip.Stream.Read.{Disk}
use fuse3_p7zip.Archive.Opening.{Library, open_file}
use fuse3_p7zip.Codepage.{detect_encoding}
use fuse3_p7zip.Fuse.Tree.{FileTree, build_tree}
use fuse3_p7zip.Fuse.Operations.{Session}

-- What the command line gives: the archive, the password, and `allow_other`.
pub record Request : Type 0 where
  pub path : Bytes
  pub password : Bytes
  pub allow_other : Bool

-- The host with the code page of the path in its environment.
abbrev pub with_encoding : Host → Bytes → Host
with_encoding h path = record h { getenv = detect_encoding h.getenv path }

-- `Cache`, with no file open
unfoldable pub new_session : FileTree → Bytes → Sys File → Session
new_session tree password tmpfile = record {
  tree = tree;
  password = password;
  files = λ fh. none;
  tmpfile = tmpfile;
}

-- The session that is mounted; `none` means that the fuel of the loop over the items ran out.
unfoldable pub mount : Host → Library → Disk → ℕ → Request → Sys File → Outcome (Option Session)
unfolding open_file build_tree new_session
mount h lib disk address r tmpfile = do
  a ← open_file (with_encoding h r.path) lib disk address (from_string r.path)
  built ← build_tree (with_encoding h r.path) a r.allow_other
  ok (elim built [ none ↦ none | some tree ↦ some (new_session tree r.password tmpfile) ])
