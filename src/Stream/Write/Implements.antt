-- ===== src/Stream/Write/Implements.antt =====
-- That FileWriteStream (src/7zip/WriteStream.cpp) is an IFile.
use fuse3_p7zip.Base.{ℕ, ◌+◌, ◌<◌, ◌^◌, ◌≡◌, refl, arith, length, take, drop}
use fuse3_p7zip.Base.Int.{pos, int64}
use fuse3_p7zip.Stdio.{File, Whence, fseek, fread}
use fuse3_p7zip.Stream.Interface.{IsFile}
use fuse3_p7zip.Stream.Write.{file_write_stream, read, seek}

int64_pos : (n : ℕ) → n < 2 ^ 63 → int64 n ≡ pos n
int64_pos n lt = ground arith

pub set-position : (n : ℕ) (f : File) → n < 2 ^ 63 → (seek n Whence.set f).0.position ≡ n
unfolding seek fseek
set-position n f lt = rw (int64_pos n lt) (omega arith)

pub seek-content : (n : ℕ) (whence : Whence) (f : File) → (seek n whence f).0.content ≡ f.content
unfolding seek fseek
seek-content n whence f = ground arith

pub read-bytes : (size : ℕ) (f : File) → (read size f).1 ≡ take size (drop f.position f.content)
unfolding read fread
read-bytes size f = refl

pub read-content : (size : ℕ) (f : File) → (read size f).0.content ≡ f.content
unfolding read fread
read-content size f = refl

pub read-position :
    (size : ℕ) (f : File) → (read size f).0.position ≡ f.position + length (read size f).1
unfolding read fread
read-position size f = refl

abbrev pub file_write_stream-IsFile : IsFile file_write_stream
file_write_stream-IsFile = record {
  content = λ f. f.content;
  position = λ f. f.position;
  seek-position = set-position;
  seek-content = seek-content;
  read-bytes = read-bytes;
  read-content = read-content;
  read-position = read-position;
}
