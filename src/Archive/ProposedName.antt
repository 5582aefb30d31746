-- ===== src/Archive/ProposedName.antt =====
-- `ImplArchive::proposed_name` of src/7zip/Archive.cpp.
pub mod Laws
use fuse3_p7zip.Base.{
  ℕ, zero, suc, ◌+◌, ◌<◌, Bytes, codes, ◌≡◌, refl, Bool, true, false, List, [], ◌∷◌, ◌++◌, Option,
  none, some, ◌==◌, nat_eq, list_eq, if◌then◌else◌, get_elem?,
}
use fuse3_p7zip.Base.Outcome.{Outcome, ok, throws, fault, ◌>>=◌}
use fuse3_p7zip.FilePath.{FilePath, from_string, to_string, filename}
use fuse3_p7zip.Archive.Format.{Format}
use fuse3_p7zip.Archive.Iterator.{Archive}

-- A file name as its stem and its extension, which begins at the last dot; a name that begins with
-- its only dot has no extension, nor has `..`.
dot_split : Bytes → Option (Bytes × Bytes)
unfolding nat_eq
dot_split [] = none
dot_split (c ∷ s) = elim (dot_split s) [
  | some (stem, ext) ↦ some (c ∷ stem, ext)
  | none ↦ if c == b'.' then some ([], c ∷ s) else none
]

abbrev stem_or_all : Bytes → Option (Bytes × Bytes) → Bytes × Bytes
stem_or_all name none = (name, [])
stem_or_all name (some ([], ext)) = (name, [])
stem_or_all name (some (c ∷ stem, ext)) = (c ∷ stem, ext)

unfoldable pub split_name : Bytes → Bytes × Bytes
unfolding dot_split list_eq nat_eq
split_name name = if name == codes ".." then (name, []) else stem_or_all name (dot_split name)

-- `path::extension()` of a file name
abbrev pub extension : Bytes → Bytes
extension name = (split_name name).1

abbrev dotted : Bytes → Bytes
dotted [] = []
dotted (c ∷ ext) = if c == b'.' then c ∷ ext else b'.' ∷ c ∷ ext

-- `path::replace_extension(ext)` of a file name: a dot is put in front if it is missing.
unfoldable pub replace_extension : Bytes → Bytes → Bytes
unfolding split_name nat_eq
replace_extension name ext = (split_name name).0 ++ dotted ext

-- The loop over `ext_def` from position `i` on. A replacement that is `*` does not end it.
unfoldable pub propose : Bytes → Bytes → List Bytes → ℕ → List Bytes → Outcome Bytes
unfolding replace_extension list_eq nat_eq
propose name ext ext_add i [] = ok name
propose name ext ext_add i (def ∷ defs) =
    let rest = propose name ext ext_add (i + 1) defs in
    if ext == b'.' ∷ def
    then elim (get_elem? ext_add i) [
      | none ↦ fault
      | some ext_new ↦ if ext_new == codes "*" then rest else ok (replace_extension name ext_new)
    ]
    else rest

unfoldable pub proposed_name : Archive → Outcome Bytes
unfolding propose split_name filename
proposed_name a =
    let name = filename a.path in propose name (extension name) a.format.ext_add 0 a.format.ext_def
