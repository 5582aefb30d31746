-- ===== src/Codepage/Laws.antt =====
-- Which code page the search of src/main.cpp finds.
use fuse3_p7zip.Base.{
  ℕ, ◌≤◌, Bytes, ◌≡◌, ◌≢◌, refl, ap, All, true, ◌||◌, [], ◌∷◌, ◌++◌, none, some, ◌==◌, nat_eq,
  arith, length, sym, ◌∙◌, ◌⊎◌, inl, inr, Bool-cases, Option-cases, eq_of_beq,
}
use mathlib.Core.Path.{ap₂}
use fuse3_p7zip.Codepage.{is_digit, dot, digits_to_dot, codepage_at, find_codepage}

-- `cp` in any case, and three digits or more.
abbrev pub IsCodepage : Bytes → Type 0
IsCodepage [] = ⊥
IsCodepage (c ∷ []) = ⊥
IsCodepage (c ∷ p ∷ digits) =
    ((c == b'c' || c == b'C') ≡ true)
    × ((p == b'p' || p == b'P') ≡ true)
    × All (λ d. is_digit d ≡ true) digits
    × (3 ≤ length digits)

digits_to_dot_step :
    (c : ℕ) (s digits : Bytes)
    → digits_to_dot (c ∷ s) ≡ some digits
    → ((c ≡ dot) × (digits ≡ []))
      ⊎ ((is_digit c ≡ true)
          × ((rest : Bytes) × (digits_to_dot s ≡ some rest) × (digits ≡ c ∷ rest)))
unfolding digits_to_dot
digits_to_dot_step c s digits e = elim (Option-cases (digits_to_dot s)) [
  | inl no_dot ↦ ground (arith, no_dot)
  | inr (rest, found) ↦ elim (Bool-cases (c == dot)) [
    | inl here ↦ ground (arith, found)
    | inr later ↦
        let is : is_digit c ≡ true = ground (arith, later, found) in
        inr (is, (rest, found, ground (arith, later, found)))
  ]
]

digits_to_dot_sound :
    (s digits : Bytes)
    → digits_to_dot s ≡ some digits
    → All (λ d. is_digit d ≡ true) digits × ((after : Bytes) × (s ≡ digits ++ (dot ∷ after)))
unfolding digits_to_dot
digits_to_dot_sound [] digits e = cc
digits_to_dot_sound (c ∷ s) digits e = elim (digits_to_dot_step c s digits e) [
  | inl (here, nothing) ↦ rw nothing (tt, (s, ap (λ d. d ∷ s) here))
  | inr (is, (rest, found, more)) ↦
      let (all, (after, split)) = digits_to_dot_sound s rest found in
      rw more ((is, all), (after, ap (◌∷◌ c) split))
]

digits_to_dot_complete :
    (digits after : Bytes)
    → All (λ d. is_digit d ≡ true) digits
    → digits_to_dot (digits ++ (dot ∷ after)) ≡ some digits
unfolding digits_to_dot
digits_to_dot_complete [] after a = refl
digits_to_dot_complete (d ∷ digits) after (a, b) =
    ground (arith, digits_to_dot_complete digits after b)

codepage_at_complete :
    (cp after : Bytes) → IsCodepage cp → codepage_at (cp ++ (dot ∷ after)) ≡ some cp
unfolding codepage_at
codepage_at_complete [] after i = absurd i
codepage_at_complete (c ∷ []) after i = absurd i
codepage_at_complete (c ∷ p ∷ digits) after (i, j, k, l) =
    ground (arith, i, j, digits_to_dot_complete digits after k)

codepage_at_step :
    (c p : ℕ) (s cp : Bytes)
    → codepage_at (c ∷ p ∷ s) ≡ some cp
    → ((c == b'c' || c == b'C') ≡ true)
      × ((p == b'p' || p == b'P') ≡ true)
      × ((digits : Bytes) × (digits_to_dot s ≡ some digits)
          × (3 ≤ length digits)
          × (cp ≡ c ∷ p ∷ digits))
unfolding codepage_at
codepage_at_step c p s cp e = elim (Option-cases (digits_to_dot s)) [
  | inl no_dot ↦ absurd (ground (arith, no_dot))
  | inr (digits, found) ↦ (
    ground (arith, found),
    ground (arith, found),
    (digits, found, ground (arith, found), ground (arith, found)),
  )
]

codepage_at_sound :
    (s cp : Bytes)
    → codepage_at s ≡ some cp
    → IsCodepage cp × ((after : Bytes) × (s ≡ cp ++ (dot ∷ after)))
unfolding codepage_at
codepage_at_sound [] cp e = cc
codepage_at_sound (c ∷ []) cp e = cc
codepage_at_sound (c ∷ p ∷ s) cp e =
    let (i, j, (digits, found, many, same)) = codepage_at_step c p s cp e in
    let (all, (after, split)) = digits_to_dot_sound s digits found in
    rw same ((i, j, all, many), (after, ap (λ r. c ∷ p ∷ r) split))

-- If a code page, which is `cp` in any case and three digits or more, stands in the path between
-- two dots, one is found.
find_codepage_complete :
    (before cp after : Bytes)
    → IsCodepage cp
    → find_codepage (before ++ (dot ∷ (cp ++ (dot ∷ after)))) ≢ none
unfolding find_codepage
find_codepage_complete [] cp after i e = ground (arith, codepage_at_complete cp after i)
find_codepage_complete (b ∷ before) cp after i e =
    ground (arith, find_codepage_complete before cp after i)

find_codepage_step :
    (c : ℕ) (s cp : Bytes)
    → find_codepage (c ∷ s) ≡ some cp
    → ((c ≡ dot) × (codepage_at s ≡ some cp)) ⊎ (find_codepage s ≡ some cp)
unfolding find_codepage
find_codepage_step c s cp e = elim (Bool-cases (c == dot)) [
  | inl here ↦ elim (Option-cases (codepage_at s)) [
    | inl other ↦ inr (ground (arith, here, other))
    | inr (got, found) ↦ inl (eq_of_beq c dot here, ground (arith, here, found))
  ]
  | inr later ↦ inr (ground (arith, later))
]

-- The code page stands in the path between two dots.
abbrev pub StandsIn : Bytes → Bytes → Type 0
StandsIn cp path =
    (before : Bytes) × (after : Bytes) × (path ≡ before ++ (dot ∷ (cp ++ (dot ∷ after))))

find_codepage_sound :
    (path cp : Bytes) → find_codepage path ≡ some cp → IsCodepage cp × StandsIn cp path
unfolding find_codepage
find_codepage_sound [] cp e = cc
find_codepage_sound (c ∷ s) cp e = elim (find_codepage_step c s cp e) [
  | inl (here, found) ↦
      let (is, (after, split)) = codepage_at_sound s cp found in
      (is, ([], after, ap₂ ◌∷◌ here split))
  | inr later ↦
      let (is, (before, after, split)) = find_codepage_sound s cp later in
      (is, (c ∷ before, after, ap (◌∷◌ c) split))
]

-- A code page is `cp` in any case and three digits or more. For every path, either find_codepage
-- gives one that stands in the path between two dots, or it gives none and no code page stands in
-- the path between two dots.
pub find_codepage_lem :
    (path : Bytes)
    → ((cp : Bytes) × (find_codepage path ≡ some cp) × IsCodepage cp × StandsIn cp path)
      ⊎ ((find_codepage path ≡ none) × ((cp : Bytes) → IsCodepage cp → ¬ StandsIn cp path))
find_codepage_lem path = elim (Option-cases (find_codepage path)) [
  | inl missing ↦ inr (
    missing,
    λ cp is (before, after, split).
        find_codepage_complete before cp after is (sym (ap find_codepage split) ∙ missing),
  )
  | inr (cp, found) ↦
      let (is, stands) = find_codepage_sound path cp found in inl (cp, found, is, stands)
]
