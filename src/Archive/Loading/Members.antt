-- ===== src/Archive/Loading/Members.antt =====
-- The members of ImplLib (src/7zip/Library.cpp) that read it, and `open`, which is `open_path` here.
use fuse3_p7zip.Base.{ℕ, List}
use fuse3_p7zip.Base.Outcome.{Outcome}
use fuse3_p7zip.Host.{Host}
use fuse3_p7zip.FilePath.{FilePath}
use fuse3_p7zip.Stream.Read.{Disk}
use fuse3_p7zip.Archive.Format.{Format}
use fuse3_p7zip.Archive.Method.{Method}
use fuse3_p7zip.Archive.Iterator.{Archive}
use fuse3_p7zip.Archive.Opening.{open_file}
use fuse3_p7zip.Archive.Loading.{Code, Lib, library_of}

unfoldable pub path : Lib → FilePath
path lib = lib.dynamic.path

unfoldable pub formats : Lib → List Format
formats lib = lib.formats

unfoldable pub methods : Lib → List Method
methods lib = lib.methods

-- An archive, at the address that it gets.
unfoldable pub open_path : Host → Code → Lib → Disk → ℕ → FilePath → Outcome Archive
unfolding open_file library_of
open_path h c lib disk address path = open_file h (library_of c lib) disk address path
