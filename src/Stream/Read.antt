-- ===== src/Stream/Read.antt =====
-- FileReadStream of src/7zip/ReadStream.cpp.
use fuse3_p7zip.Base.{ℕ, Bytes, codes, Option, none, some, if◌then◌else◌, length, ◌++◌}
use fuse3_p7zip.Base.Int.{ℤ, pos}
use fuse3_p7zip.Base.Outcome.{Outcome, ok, ◌>>=◌}
use fuse3_p7zip.Host.{Host, Sys}
use fuse3_p7zip.Exception.{check_errno}
use fuse3_p7zip.FilePath.{FilePath, to_string}
use fuse3_p7zip.Stdio.{File, Whence, fread, fseek}
use fuse3_p7zip.Fuse.Stat.{Stat}

pub record ReadStream : Type 0 where
  pub path : FilePath
  pub stat : Stat
  pub file : File

-- The file system: `fopen(path, "r")` and `lstat(path)`. A failed `lstat` leaves a Stat that the
-- constructor never set.
pub record Disk : Type 0 where
  pub fopen : FilePath → Sys File
  pub lstat : FilePath → Stat

-- `check_error`: 1 is no failure code.
unfoldable pub check_error : File → ℤ
check_error f = if f.error then pos 1 else pos 0

-- The constructor.
unfoldable pub open_stream : Host → Disk → FilePath → Outcome ReadStream
unfolding check_errno to_string
open_stream h disk path = do
  file ← check_errno h (disk.fopen path) (codes "fopen: " ++ to_string path)
  ok (record { path = path; stat = disk.lstat path; file = file })

-- `Read`: the code, the bytes and `*processedSize`.
unfoldable pub read : ℕ → ReadStream → ReadStream × ℤ × Bytes × ℕ
unfolding fread check_error
read size s =
    let (file, bytes) = fread size s.file in
    (record s { file = file }, check_error file, bytes, length bytes)

-- `Seek`: the code and `*newPosition`, which a failed call leaves alone.
unfoldable pub seek : ℤ → Whence → ReadStream → ReadStream × ℤ × Option ℕ
unfolding fseek check_error
seek offset origin s =
    let (file, success) = fseek offset origin s.file in
    if success
    then (record s { file = file }, pos 0, some file.position)
    else (record s { file = file }, check_error file, none)

-- `path` and `stat`
unfoldable pub path_of : ReadStream → FilePath
path_of s = s.path

unfoldable pub stat_of : ReadStream → Stat
stat_of s = s.stat
