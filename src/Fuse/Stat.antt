-- ===== src/Fuse/Stat.antt =====
-- `struct stat` and the mode bits that Fuse::execute (src/fuse3.cpp) writes.
pub mod Laws
use Prim.Native.Nat.{bit_or}
use fuse3_p7zip.Base.{ℕ, ◌+◌, ◌-◌, ◌*◌, ◌/◌, ◌%◌, ◌≡◌}
use fuse3_p7zip.Base.Int.{ℤ}

-- `struct timespec`
pub record Timespec : Type 0 where
  pub sec : ℤ
  pub nsec : ℤ

pub record Stat : Type 0 where
  pub mode : ℕ
  pub size : ℤ
  pub atim : Timespec
  pub mtim : Timespec
  pub ctim : Timespec
  pub ino : ℕ
  pub nlink : ℕ
  pub uid : ℕ
  pub gid : ℕ

-- The four bits of S_IFMT, 0170000, and the types that they name.
abbrev pub format_of : ℕ → ℕ
format_of mode = mode / 0o10000 % 16

abbrev pub directory : ℕ
directory = 0o4

abbrev pub regular : ℕ
regular = 0o10

-- `mode & ~S_IFMT`
abbrev clear_format : ℕ → ℕ
clear_format mode = mode - format_of mode * 0o10000

-- `mode | (format << 12)`, where the four bits of `mode` are clear
abbrev set_format : ℕ → ℕ → ℕ
set_format format mode = mode + format * 0o10000

-- `mode | bits`, for permission bits alone
unfoldable pub or_permissions : ℕ → ℕ → ℕ
or_permissions bits mode = mode / 0o1000 * 0o1000 + bit_or (mode % 0o1000) bits

-- `(mode & ~S_IFMT) | S_IFDIR | 0775`, and the same with S_IFREG | 0664
unfoldable pub as_directory : ℕ → ℕ
as_directory mode = or_permissions 0o775 (set_format directory (clear_format mode))

unfoldable pub as_regular : ℕ → ℕ
as_regular mode = or_permissions 0o664 (set_format regular (clear_format mode))

-- `(mode & ~S_IFMT) | S_IFDIR | S_IXUSR | S_IXGRP`
unfoldable pub as_root : ℕ → ℕ
as_root mode = or_permissions 0o110 (set_format directory (clear_format mode))

-- `mode |= S_IROTH | S_IXOTH`
unfoldable pub open_to_others : ℕ → ℕ
open_to_others mode = or_permissions 0o005 mode
