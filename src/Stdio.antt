-- ===== src/Stdio.antt =====
-- The part of <cstdio> under the two streams: a FILE over a regular file, its buffer left out.
pub mod Laws
pub mod Writes
use fuse3_p7zip.Base.{
  ℕ, zero, suc, ◌+◌, ◌-◌, Bytes, ◌≡◌, Bool, true, false, List, [], ◌∷◌, ◌++◌, Option, none, some,
  if◌then◌else◌, leb, length, take, drop, replicate, ◌||◌,
}
use fuse3_p7zip.Base.Int.{ℤ, pos, offset_from}

-- The contents, the position, the error flag, and the size that the disk lets the file reach.
pub record File : Type 0 where
  pub content : Bytes
  pub position : ℕ
  pub error : Bool
  pub room : ℕ

-- `tmpfile()` with that much room
unfoldable pub new_file : ℕ → File
new_file room = record { content = []; position = 0; error = false; room = room }

-- Zeros stand between the end and a position behind it.
unfoldable pub pad : ℕ → Bytes → Bytes
pad n content = content ++ replicate (n - length content) 0

unfoldable pub write_at : ℕ → Bytes → Bytes → Bytes
unfolding pad
write_at n [] content = content
write_at n (b ∷ bytes) content =
    take n (pad n content) ++ ((b ∷ bytes) ++ drop (n + suc (length bytes)) content)

-- `fwrite(data, 1, size, file)`: the file and the count. A short write sets the error flag.
unfoldable pub fwrite : Bytes → File → File × ℕ
fwrite bytes f =
    let fitting = take (f.room - f.position) bytes in
    (
      record f {
        content = write_at f.position fitting f.content;
        position = f.position + length fitting;
        error = if leb (length bytes) (f.room - f.position) then f.error else true;
      },
      length fitting,
    )

-- `fread(data, 1, size, file)`: the file and the bytes.
unfoldable pub fread : ℕ → File → File × Bytes
fread n f =
    let bytes = take n (drop f.position f.content) in
    (record f { position = f.position + length bytes }, bytes)

-- SEEK_SET, SEEK_CUR, SEEK_END, and any other number
pub data Whence : Type 0 where
  set cur end : Whence
  unknown : ℕ → Whence

abbrev base_of : Whence → File → Option ℕ
base_of set f = some 0
base_of cur f = some f.position
base_of end f = some (length f.content)
base_of (unknown n) f = none

-- `fseek`: the file, and whether the call succeeded. A failed call leaves the position.
unfoldable pub fseek : ℤ → Whence → File → File × Bool
fseek offset whence f = elim (base_of whence f) [
  | none ↦ (f, false)
  | some base ↦ elim (offset_from base offset) [
    | none ↦ (f, false)
    | some n ↦ (record f { position = n }, true)
  ]
]

-- `ftruncate`: `none` where the disk has no room for the size.
unfoldable pub ftruncate : ℕ → File → Option File
unfolding pad
ftruncate n f =
    if leb n f.room then some (record f { content = take n (pad n f.content) }) else none
