-- ===== src/FilePath.antt =====
-- The operations of `std::filesystem::path` (sevenzip::Path of include/7zip.hpp) that
-- src/fuse3.cpp and src/7zip/Archive.cpp call, for POSIX paths.
--
-- A path is taken up to `operator==`: whether it begins with `/`, and its names. A last name that
-- is empty stands for a `/` at the end, as in the iteration of a `path`; slashes in a row are one.
pub mod Laws
pub mod Child
pub mod Order
use fuse3_p7zip.Base.{
  ℕ, Bytes, codes, ◌≡◌, refl, Bool, true, false, ◌&&◌, List, [], ◌∷◌, ◌++◌, Eq, ◌==◌, nat_eq,
  list_eq, ltb, if◌then◌else◌, arith,
}
use mathlib.Core.Bool.{Bool-discrete}
use mathlib.Core.Logic.{dite}
use mathlib.Core.Path.{ap}

pub record FilePath : Type 0 where
  pub absolute : Bool
  pub names : List Bytes

FilePath-dec : Discrete FilePath
FilePath-dec p q =
    dite (Bool-discrete p.absolute q.absolute)
      (λ a.
        dite (list_eq.dec p.names q.names) (λ b. yes (λ i. record { absolute = a i; names = b i }))
          (λ n. no (λ e. n (ap (λ r. r.names) e))))
      (λ n. no (λ e. n (ap (λ r. r.absolute) e)))

instance unfoldable pub FilePath-eq : Eq FilePath
unfolding FilePath-dec list_eq nat_eq Bool-discrete
FilePath-eq = record { dec = FilePath-dec }

abbrev pub root : FilePath
root = record { absolute = true; names = [] }

abbrev pub slash : ℕ
slash = b'/'

-- A byte before the parts of the rest: a slash closes the part.
cons_part : Bool → ℕ → List Bytes → List Bytes
cons_part true c parts = [] ∷ parts
cons_part false c [] = (c ∷ []) ∷ []
cons_part false c (p ∷ parts) = (c ∷ p) ∷ parts

-- The parts between the slashes: one more than there are slashes.
unfoldable pub cut : Bytes → List Bytes
unfolding cons_part nat_eq
cut [] = [] ∷ []
cut (c ∷ s) = cons_part (c == slash) c (cut s)

-- Behind the first name: an empty part counts only at the end.
unfoldable pub names_after : List Bytes → List Bytes
names_after [] = []
names_after ([] ∷ []) = [] ∷ []
names_after ([] ∷ q ∷ qs) = names_after (q ∷ qs)
names_after ((c ∷ p) ∷ qs) = (c ∷ p) ∷ names_after qs

-- Up to the first name an empty part does not count.
unfoldable pub names_of : List Bytes → List Bytes
unfolding names_after
names_of [] = []
names_of ([] ∷ qs) = names_of qs
names_of ((c ∷ p) ∷ qs) = (c ∷ p) ∷ names_after qs

unfoldable pub starts_with_slash : Bytes → Bool
unfolding nat_eq
starts_with_slash [] = false
starts_with_slash (c ∷ s) = c == slash

-- `path(const std::string&)`
unfoldable pub from_string : Bytes → FilePath
unfolding cut names_of starts_with_slash
from_string s = record { absolute = starts_with_slash s; names = names_of (cut s) }

unfoldable pub join_names : List Bytes → Bytes
join_names [] = []
join_names (n ∷ []) = n
join_names (n ∷ m ∷ ns) = n ++ slash ∷ join_names (m ∷ ns)

-- `string()`, `c_str()`
unfoldable pub to_string : FilePath → Bytes
unfolding join_names
to_string p = if p.absolute then slash ∷ join_names p.names else join_names p.names

-- `empty()`
unfoldable pub is_empty : FilePath → Bool
is_empty p = empty_at p.absolute p.names
  where
    empty_at : Bool → List Bytes → Bool
    empty_at true ns = false
    empty_at false [] = true
    empty_at false (n ∷ ns) = false

abbrev pub init : List Bytes → List Bytes
init [] = []
init (n ∷ []) = []
init (n ∷ m ∷ ns) = n ∷ init (m ∷ ns)

abbrev pub last : List Bytes → Bytes
last [] = []
last (n ∷ []) = n
last (n ∷ m ∷ ns) = last (m ∷ ns)

-- `parent_path()`; the parent of `/` is `/`.
unfoldable pub parent_path : FilePath → FilePath
parent_path p = record p { names = init p.names }

-- `filename()`
unfoldable pub filename : FilePath → Bytes
filename p = last p.names

-- A separator is written unless the left side is empty or ends with one.
unfoldable pub append_names : List Bytes → List Bytes → List Bytes
append_names [] qs = qs
append_names ([] ∷ []) [] = [] ∷ []
append_names ([] ∷ []) (q ∷ qs) = q ∷ qs
append_names ((c ∷ n) ∷ []) [] = (c ∷ n) ∷ [] ∷ []
append_names ((c ∷ n) ∷ []) (q ∷ qs) = (c ∷ n) ∷ q ∷ qs
append_names (n ∷ m ∷ ns) qs = n ∷ append_names (m ∷ ns) qs

-- `operator/` and `operator/=`: an absolute right side replaces the left.
unfoldable pub append : FilePath → FilePath → FilePath
unfolding append_names
append p q = if q.absolute then q else record p { names = append_names p.names q.names }

-- `operator+=`: bytes are put behind the text, with no separator.
unfoldable pub concat : FilePath → Bytes → FilePath
unfolding from_string to_string
concat p s = from_string (to_string p ++ s)

-- `std::string::operator<`
unfoldable pub bytes_lt : Bytes → Bytes → Bool
bytes_lt s [] = false
bytes_lt [] (d ∷ t) = true
bytes_lt (c ∷ s) (d ∷ t) =
    let rest = bytes_lt s t in if ltb c d then true else if ltb d c then false else rest

unfoldable pub names_lt : List Bytes → List Bytes → Bool
unfolding bytes_lt
names_lt ns [] = false
names_lt [] (m ∷ ms) = true
names_lt (n ∷ ns) (m ∷ ms) =
    let rest = names_lt ns ms in if bytes_lt n m then true else if bytes_lt m n then false else rest

-- `operator<`: a path with no root directory comes first, then the names decide.
unfoldable pub path_lt : FilePath → FilePath → Bool
unfolding names_lt
path_lt p q = lt_at p.absolute q.absolute (names_lt p.names q.names)
  where
    lt_at : Bool → Bool → Bool → Bool
    lt_at false true by_names = true
    lt_at true false by_names = false
    lt_at false false by_names = by_names
    lt_at true true by_names = by_names
