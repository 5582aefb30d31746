-- ===== src/Text/Split/Laws.antt =====
-- `split` of src/string.cpp against the text and the delimiter.

use fuse3_p7zip.Base.{
  ℕ, zero, suc, ◌+◌, ◌<◌, Bytes, ◌≡◌, ◌≢◌, refl, ap, sym, ◌∙◌, true, false, List, [], ◌∷◌, ◌++◌,
  none, some, nat_eq, take, drop, length, All, arith, Option-cases, length-append, drop-add, inl,
  inr,
}
use fuse3_p7zip.Text.Split.{is_prefix, find, split_loop, split}

-- The parts with the delimiter between them.
pub join : Bytes → List Bytes → Bytes
join d [] = []
join d (p ∷ []) = p
join d (p ∷ q ∷ ps) = p ++ (d ++ join d (q ∷ ps))

join-cons : (d a p : Bytes) (ps : List Bytes) → join d (a ∷ p ∷ ps) ≡ a ++ (d ++ join d (p ∷ ps))
unfolding join
join-cons d a p ps = refl

is_prefix-drop : (d s : Bytes) → is_prefix d s ≡ true → d ++ drop (length d) s ≡ s
unfolding is_prefix
is_prefix-drop [] s h = refl
is_prefix-drop (c ∷ d) [] h = cc
is_prefix-drop (c ∷ d) (b ∷ s) h = ground (arith, is_prefix-drop d s)

is_prefix-take : (d s : Bytes) (n : ℕ) → is_prefix d s ≡ false → is_prefix d (take n s) ≡ false
unfolding is_prefix
is_prefix-take [] s n h = cc
is_prefix-take (c ∷ d) s zero h = refl
is_prefix-take (c ∷ d) [] (suc n) h = refl
is_prefix-take (c ∷ d) (b ∷ s) (suc n) h = ground (arith, is_prefix-take d s n)

find-take : (d s : Bytes) (pos : ℕ) → d ≢ [] → find d s ≡ some pos → find d (take pos s) ≡ none
unfolding find is_prefix
find-take [] s pos n e = absurd (n refl)
find-take (c ∷ d) [] pos n e = cc
find-take (c ∷ d) (b ∷ s) zero n e = refl
find-take (c ∷ d) (b ∷ s) (suc pos) n e =
    ground (arith, is_prefix-take (c ∷ d) (b ∷ s) (suc pos), find-take (c ∷ d) s pos n)

find_at_start : (d s : Bytes) → find d s ≡ some 0 → is_prefix d s ≡ true
unfolding find
find_at_start d [] e = ground arith
find_at_start d (b ∷ s) e = ground arith

-- The text around the first delimiter.
find_lem :
    (d s : Bytes) (pos : ℕ)
    → find d s ≡ some pos
    → take pos s ++ (d ++ drop (length d) (drop pos s)) ≡ s
find_lem d s zero e = is_prefix-drop d s (find_at_start d s e)
find_lem d [] (suc pos) e = absurd (unfold find in ground arith)
find_lem d (b ∷ s) (suc pos) e = ap (◌∷◌ b) (find_lem d s pos (unfold find in ground arith))

-- What is left after a part and its delimiter is shorter.
rest_shorter :
    (d s : Bytes) (pos : ℕ)
    → d ≢ []
    → find d s ≡ some pos
    → length (drop (pos + length d) s) < length s
rest_shorter [] s pos n e = absurd (n refl)
rest_shorter (c ∷ d) s pos n e =
    let whole : length s
        ≡ length (take pos s) + (suc (length d) + length (drop (suc (length d)) (drop pos s))) =
      ap length (sym (find_lem (c ∷ d) s pos e))
      ∙ (length-append (take pos s) _
          ∙ omega (arith, length-append (c ∷ d) (drop (suc (length d)) (drop pos s)))) in
    omega (arith, whole, ap length (drop-add pos (suc (length d)) s))

-- Parts that spell the text, and hold no delimiter.
abbrev pub IsSplit : Bytes → Bytes → List Bytes → Type 0
IsSplit d s parts = (parts ≢ []) × (join d parts ≡ s) × All (λ p. find d p ≡ none) parts

IsSplit-cons :
    (d s : Bytes) (pos : ℕ) (parts : List Bytes)
    → d ≢ []
    → find d s ≡ some pos
    → IsSplit d (drop (pos + length d) s) parts
    → IsSplit d s (take pos s ∷ parts)
IsSplit-cons d s pos [] n e (ne, _, _) = absurd (ne refl)
IsSplit-cons d s pos (p ∷ ps) n e (ne, spelled, clean) = (
  (λ h. cc),
  join-cons d (take pos s) p ps
      ∙ (ap (λ r. take pos s ++ (d ++ r)) (spelled ∙ drop-add pos (length d) s)
          ∙ find_lem d s pos e),
  (find-take d s pos n e, clean),
)

-- With enough fuel the loop returns.
split_loop_total :
    (fuel : ℕ) (d s : Bytes)
    → d ≢ []
    → length s < fuel
    → (parts : List Bytes) × (split_loop fuel d s ≡ some parts) × IsSplit d s parts
unfolding split_loop
split_loop_total zero d s n lt = absurd (omega arith)
split_loop_total (suc fuel) d s n lt = elim (Option-cases (find d s)) [
  | inl e ↦ (s ∷ [], rw (e, split_loop), ((λ h. cc), unfold join in refl, (e, tt)))
  | inr (pos, e) ↦
      let (parts, done, good) =
        split_loop_total fuel d (drop (pos + length d) s) n
          (omega (arith, rest_shorter d s pos n e)) in
      (take pos s ∷ parts, rw (e, done, split_loop), IsSplit-cons d s pos parts n e good)
]

-- For every delimiter that is not empty, `split` returns parts that spell the text with the
-- delimiter between them, at least one part, and no part holds the delimiter.
pub split-IsSplit : (d s : Bytes) → d ≢ [] → IsSplit d s (split d s)
unfolding split
split-IsSplit d s n =
    let (parts, done, good) = split_loop_total (suc (length s)) d s n (omega arith) in
    rw (done, split) good

-- With an empty delimiter the loop of `split` has not returned, whatever the fuel.
pub split_loop_diverges : (fuel : ℕ) (s : Bytes) → split_loop fuel [] s ≡ none
unfolding split_loop find is_prefix
split_loop_diverges zero s = refl
split_loop_diverges (suc fuel) [] = rw (split_loop_diverges fuel [])
split_loop_diverges (suc fuel) (b ∷ s) = rw (split_loop_diverges fuel (b ∷ s))
