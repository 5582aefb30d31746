-- ===== src/Stream/Write.antt =====
-- FileWriteStream of src/7zip/WriteStream.cpp, and `check_error` of that file.
pub mod Laws
pub mod Implements
use fuse3_p7zip.Base.{ℕ, Bytes, codes, none, some, if◌then◌else◌}
use fuse3_p7zip.Base.Int.{ℤ, pos, int64}
use fuse3_p7zip.Base.Outcome.{Outcome, ok, throws, noexcept}
use fuse3_p7zip.Host.{Host, Sys}
use fuse3_p7zip.Exception.{check_errno}
use fuse3_p7zip.Stream.Interface.{IFile}
use fuse3_p7zip.Stdio.{File, Whence, fread, fwrite, fseek, ftruncate}

unfoldable pub check_error : File → ℤ
check_error f = if f.error then pos 1 else pos 0

-- The constructor, over the result of `tmpfile()`.
unfoldable pub open_temporary : Host → Sys File → Outcome File
unfolding check_errno
open_temporary h tmpfile = check_errno h tmpfile (codes "tmpfile: ")

-- `Write`: the file, the code and `*processedSize`.
unfoldable pub write_com : Bytes → File → File × ℤ × ℕ
unfolding check_error
write_com bytes f = let (g, written) = fwrite bytes f in (g, check_error g, written)

-- `Seek`: the result of `fseek` is not looked at, and `*newPosition` is where the stream stands.
unfoldable pub seek_com : ℤ → Whence → File → File × ℤ × ℕ
unfolding fseek check_error
seek_com offset origin f = let (g, _) = fseek offset origin f in (g, check_error g, g.position)

-- `SetSize`, which is noexcept: a failed `ftruncate` throws, and that ends the process. The position
-- is kept.
unfoldable pub set_size : ℕ → File → Outcome (File × ℤ)
unfolding ftruncate fseek check_error noexcept
set_size n f = noexcept (elim (ftruncate n f) [
  | none ↦ throws (codes "ftruncate")
  | some g ↦ let (k, _) = fseek (pos f.position) Whence.set g in ok (k, check_error k)
])

-- The members of IFile.
unfoldable pub read : ℕ → File → File × Bytes
unfolding fread
read size f = fread size f

unfoldable pub write : Bytes → File → File × ℕ
unfolding fwrite
write bytes f = fwrite bytes f

-- `seek(uint64_t pos, Whence whence)`: the number is handed to `fseek` as a `long`.
unfoldable pub seek : ℕ → Whence → File → File × ℕ
unfolding fseek
seek n whence f = let (g, _) = fseek (int64 n) whence f in (g, g.position)

abbrev pub file_write_stream : IFile File
file_write_stream = record { read = read; write = write; seek = seek }
