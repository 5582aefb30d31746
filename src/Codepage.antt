-- ===== src/Codepage.antt =====
-- The search of `main` (src/main.cpp) for a code page in the archive's path.
pub mod Laws
use fuse3_p7zip.Base.{
  ℕ, zero, suc, Bytes, codes, ◌≡◌, Bool, true, false, ◌&&◌, ◌||◌, List, [], ◌∷◌, ◌++◌, Option, none,
  some, ◌==◌, nat_eq, list_eq, leb, length, if◌then◌else◌,
}
use fuse3_p7zip.Host.{Host}

abbrev pub is_digit : ℕ → Bool
is_digit c = leb b'0' c && leb c b'9'

abbrev pub dot : ℕ
dot = b'.'

-- `\\d*` as far as it goes, if a dot is next.
unfoldable pub digits_to_dot : Bytes → Option Bytes
unfolding nat_eq
digits_to_dot [] = none
digits_to_dot (c ∷ s) =
    let rest = digits_to_dot s in
    if c == dot
    then some []
    else if is_digit c
    then elim rest [ none ↦ none | some digits ↦ some (c ∷ digits) ]
    else none

-- The group of `\\.(cp\\d{3,})\\.`, of any case, behind its first dot.
unfoldable pub codepage_at : Bytes → Option Bytes
unfolding digits_to_dot nat_eq
codepage_at (c ∷ p ∷ s) =
    if (c == b'c' || c == b'C') && (p == b'p' || p == b'P')
    then elim (digits_to_dot s) [
      | none ↦ none
      | some digits ↦ if leb 3 (length digits) then some (c ∷ p ∷ digits) else none
    ]
    else none
codepage_at s = none

-- `regex_search`: the first place that matches.
unfoldable pub find_codepage : Bytes → Option Bytes
unfolding codepage_at nat_eq
find_codepage [] = none
find_codepage (c ∷ s) =
    let rest = find_codepage s in
    if c == dot then elim (codepage_at s) [ some cp ↦ some cp | none ↦ rest ] else rest

-- The environment with FUSE3_P7ZIP_FORCE_ENCODING set, which a value that is there is not.
unfoldable pub detect_encoding : (Bytes → Option Bytes) → Bytes → Bytes → Option Bytes
unfolding find_codepage list_eq nat_eq
detect_encoding getenv path name = elim (find_codepage path) [
  | none ↦ getenv name
  | some cp ↦
      if name == codes "FUSE3_P7ZIP_FORCE_ENCODING"
      then elim (getenv name) [ some value ↦ some value | none ↦ some cp ]
      else getenv name
]
