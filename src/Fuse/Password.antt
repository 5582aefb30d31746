-- ===== src/Fuse/Password.antt =====
-- The sources of the password in src/fuse3.cpp: IPassword and the classes under it.
pub mod Laws
use fuse3_p7zip.Base.{
  ℕ, zero, suc, Bytes, codes, ◌≡◌, Bool, true, false, List, [], ◌∷◌, ◌++◌, Option, none, some, ◌==◌,
  nat_eq, list_eq, if◌then◌else◌, length, ◌+◌,
}
use fuse3_p7zip.Host.{Sys, done, failed}
use fuse3_p7zip.Text.Encoding.{until_nul}
use fuse3_p7zip.Text.Chomp.{chomp, newline}

-- What is asked of the system at the time of a call: whether a file may be executed, its contents
-- (of a file that cannot be read there are none), and what a shell command prints.
pub record Shell : Type 0 where
  pub is_executable : Bytes → Bool
  pub contents : Bytes → Bytes
  pub popen : Bytes → Sys Bytes

-- PasswordFromString, which PasswordFromStdin is like once it is made, and PasswordFromFile: the
-- archive's path, its own, and the password that it keeps.
pub data Password : Type 0 where
  from_text : Bytes → Password
  from_file : Bytes → Bytes → Bytes → Password

-- The constructor of PasswordFromStdin, over the whole input.
unfoldable pub from_stdin : Bytes → Password
unfolding chomp
from_stdin input = from_text (chomp input)

-- One `fgets` into a buffer of that room: at most all but one byte of it, up to a newline. What it
-- took, and what is left.
unfoldable pub fgets : ℕ → Bytes → Bytes × Bytes
unfolding nat_eq
fgets zero s = ([], s)
fgets (suc zero) s = ([], s)
fgets (suc (suc n)) [] = ([], [])
fgets (suc (suc n)) (c ∷ s) =
    let (line, rest) = fgets (suc n) s in if c == newline then (c ∷ [], s) else (c ∷ line, rest)

abbrev pub buffer_size : ℕ
buffer_size = 1024

-- The loop of `exec`: `+=` of a buffer stops at a 0. Each round takes a byte or more.
unfoldable pub read_lines : ℕ → Bytes → Bytes
unfolding fgets until_nul
read_lines zero output = []
read_lines (suc fuel) [] = []
read_lines (suc fuel) (c ∷ output) =
    let (line, rest) = fgets buffer_size (c ∷ output) in until_nul line ++ read_lines fuel rest

-- `exec`; `none` is the exception of a failed `popen`.
unfoldable pub exec : Shell → Bytes → Bytes → Option Bytes
unfolding read_lines
exec sh archive path = elim (sh.popen (path ++ (codes " '" ++ (archive ++ codes "'")))) [
  | done output ↦ some (read_lines (length output) output)
  | failed errno ↦ none
]

-- What `get` leaves behind when the file is asked; `none` is `std::terminate`, for an exception
-- leaves a function that is `noexcept`.
ask : Shell → Bytes → Bytes → Option Bytes
unfolding exec chomp
ask sh archive path =
    if sh.is_executable path
    then elim (exec sh archive path) [ none ↦ none | some text ↦ some (chomp text) ]
    else some (chomp (sh.contents path))

keep : Bytes → Bytes → Option Bytes → Option (Bytes × Password)
keep archive path none = none
keep archive path (some password) = some (password, from_file archive path password)

-- `get()`: the password, and the object as it is left.
unfoldable pub get : Shell → Password → Option (Bytes × Password)
unfolding ask keep list_eq nat_eq
get sh (from_text password) = some (password, from_text password)
get sh (from_file archive path password) =
    if password == []
    then keep archive path (ask sh archive path)
    else some (password, from_file archive path password)
