-- ===== src/Text/Chomp.antt =====
-- `chomp` of src/string.cpp, which strips the newlines from the end of a password.

use fuse3_p7zip.Base.{
  ℕ, zero, suc, ◌+◌, Bytes, ◌≡◌, ◌≢◌, refl, ap, [], ◌∷◌, ◌++◌, Option, none, some, ◌==◌, nat_eq,
  take, length, replicate, if◌then◌else◌, arith,
}

abbrev pub newline : ℕ
newline = 10

-- `str.find_last_not_of("\n")`
unfoldable pub find_last_not_newline : Bytes → Option ℕ
unfolding nat_eq
find_last_not_newline [] = none
find_last_not_newline (c ∷ s) = elim (find_last_not_newline s) [
  | some pos ↦ some (suc pos)
  | none ↦ if c == newline then none else some 0
]

unfoldable pub chomp : Bytes → Bytes
unfolding find_last_not_newline
chomp str = elim (find_last_not_newline str) [ none ↦ str | some pos ↦ take (pos + 1) str ]

newlines-lem : (n : ℕ) → find_last_not_newline (replicate n newline) ≡ none
unfolding find_last_not_newline
newlines-lem zero = refl
newlines-lem (suc n) = rw (newlines-lem n)

found-lem :
    (body : Bytes) (c n : ℕ)
    → c ≢ newline
    → find_last_not_newline (body ++ (c ∷ replicate n newline)) ≡ some (length body)
unfolding find_last_not_newline
found-lem [] c n h = ground (arith, newlines-lem n)
found-lem (b ∷ body) c n h = rw (found-lem body c n h)

kept :
    (body : Bytes) (c : ℕ) (s : Bytes) → take (length body + 1) (body ++ (c ∷ s)) ≡ body ++ (c ∷ [])
kept [] c s = refl
kept (b ∷ body) c s =
    let e : suc (length body) + 1 ≡ suc (length body + 1) = omega arith in
    rw e (ap (◌∷◌ b) (kept body c s))

-- A text that ends in newlines behind a last other character keeps all up to that character, and
-- loses every newline behind it.
pub chomp-append :
    (body : Bytes) (c n : ℕ)
    → c ≢ newline
    → chomp (body ++ (c ∷ replicate n newline)) ≡ body ++ (c ∷ [])
unfolding chomp
chomp-append body c n h = rw (found-lem body c n h, chomp) (kept body c (replicate n newline))

-- A text of newlines alone is returned as it is, newlines included.
pub chomp-newlines : (n : ℕ) → chomp (replicate n newline) ≡ replicate n newline
unfolding chomp
chomp-newlines n = rw (newlines-lem n, chomp)
