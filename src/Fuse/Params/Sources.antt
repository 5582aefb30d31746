-- ===== src/Fuse/Params/Sources.antt =====
-- The choice of the password's source in Fuse::Params (src/fuse3.cpp).
use fuse3_p7zip.Base.{
  Bytes, codes, ◌≡◌, ◌&&◌, List, [], ◌∷◌, Option, none, some, ◌==◌, nat_eq, list_eq, arith,
  if◌then◌else◌,
}
use fuse3_p7zip.Host.{Host}
use fuse3_p7zip.Fuse.Password.{Password, from_text, from_file, from_stdin}
use fuse3_p7zip.Fuse.Params.{CmdParams, Files, archive_of, choose_password}

-- The sources of a password, the most important first; `none` is one that is not there.
abbrev pub sources : Host → Files → CmdParams → List (Option Password)
sources h files p =
    map_text p.password
    ∷ stdin_of p.passfile
    ∷ file_of p.passfile
    ∷ map_text (h.getenv (codes "FUSE3_P7ZIP_PASSWORD"))
    ∷ file_of (h.getenv (codes "FUSE3_P7ZIP_PASSFILE"))
    ∷ []
  where
    map_text : Option Bytes → Option Password
    map_text none = none
    map_text (some password) = some (from_text password)

    stdin_of : Option Bytes → Option Password
    stdin_of none = none
    stdin_of (some path) = if path == codes "-" then some (from_stdin files.stdin) else none

    file_of : Option Bytes → Option Password
    file_of none = none
    file_of (some path) =
        if files.exists path && files.is_regular_file path
        then some (from_file (archive_of p) (files.absolute path) [])
        else none

abbrev pub first_of : List (Option Password) → Password
first_of [] = from_text []
first_of (some password ∷ rest) = password
first_of (none ∷ rest) = first_of rest

-- The first source that is there is taken: --password, then --passfile, which is the standard
-- input for `-` and a regular file else, then FUSE3_P7ZIP_PASSWORD, then FUSE3_P7ZIP_PASSFILE if
-- it names a regular file; with none of them the password is empty.
pub choose_password-first_of :
    (h : Host) (files : Files) (p : CmdParams)
    → choose_password h files p ≡ first_of (sources h files p)
unfolding choose_password
choose_password-first_of h files p = ground arith
