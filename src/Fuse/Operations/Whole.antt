-- ===== src/Fuse/Operations/Whole.antt =====
-- A file read from its start to its end, as a reader of the mounted file does it: cb_read of
-- src/fuse3.cpp at one offset after the other, until nothing is read.
use fuse3_p7zip.Base.{
  ℕ, zero, suc, ◌+◌, ◌≤◌, ◌<◌, ◌^◌, ◌⊎◌, inl, inr, Bytes, ◌≡◌, refl, ap, sym, ◌∙◌, subst, [], ◌∷◌,
  ◌++◌, Option, none, some, arith, take, drop, length, length-drop, drop-add, nat_eq,
}
use mathlib.Core.Option
use fuse3_p7zip.Base.Int.{pos}
use fuse3_p7zip.Base.Outcome.{Outcome, ok, ◌>>=◌, of_Ensures}
use fuse3_p7zip.Fuse.Operations.{Session, cb_read}
use fuse3_p7zip.Fuse.Operations.Handles.{Holds, read-Holds}
use fuse3_p7zip.Fuse.Operations.Reads.{slice, after_read, read_gives}

-- `none` if that many reads were not enough.
unfoldable pub read_whole : ℕ → ℕ → ℕ → ℕ → Session → Outcome (Option Bytes)
read_whole zero size offset fh s = ok none
read_whole (suc fuel) size offset fh s = cb_read s size (pos offset) fh >>= λ (t, _, bytes).
    elim bytes [
      | [] ↦ ok (some [])
      | b ∷ bs ↦ read_whole fuel size (offset + length (b ∷ bs)) fh t >>= λ rest.
          ok (Option.map (λ more. (b ∷ bs) ++ more) rest)
    ]

take-append-drop-length : (n : ℕ) (xs : Bytes) → take n xs ++ drop (length (take n xs)) xs ≡ xs
take-append-drop-length zero xs = refl
take-append-drop-length (suc n) [] = refl
take-append-drop-length (suc n) (x ∷ xs) = ap (◌∷◌ x) (take-append-drop-length n xs)

take_nothing : (n : ℕ) (xs : Bytes) → 0 < n → take n xs ≡ [] → xs ≡ []
take_nothing zero xs lt e = absurd (omega arith)
take_nothing (suc n) [] lt e = refl
take_nothing (suc n) (x ∷ xs) lt e = cc

list_cases : (xs : Bytes) → (xs ≡ []) ⊎ ((y : ℕ) × (ys : Bytes) × (xs ≡ y ∷ ys))
list_cases [] = inl refl
list_cases (y ∷ ys) = inr (y, ys, refl)

length-take_below : (n : ℕ) (xs : Bytes) → length (take n xs) ≤ length xs
length-take_below zero xs = omega arith
length-take_below (suc n) [] = omega arith
length-take_below (suc n) (x ∷ xs) = omega (arith, length-take_below n xs)

module _ (fh size : ℕ) (bytes : Bytes) (some_size : 0 < size) (small : size < 2 ^ 31) where
  reads-to_end :
      (fuel offset : ℕ) (s : Session)
      → Holds fh bytes s
      → length bytes < fuel + offset
      → offset ≤ length bytes
      → length bytes < 2 ^ 63
      → read_whole fuel size offset fh s ≡ ok (some (drop offset bytes))
  unfolding read_whole
  reads-to_end zero offset s o enough le big = absurd (omega arith)
  reads-to_end (suc fuel) offset s o enough le big =
      let got = read_gives s fh size offset bytes o small (omega arith) in
      let o' : Holds fh bytes (after_read s fh size offset o.stream) =
        of_Ensures (λ r. Holds fh bytes r.0) (cb_read s size (pos offset) fh)
          (read-Holds s fh fh size (pos offset) bytes o) got in
      elim (list_cases (slice size offset bytes)) [
        | inl none_left ↦
            rw (got, read_whole, none_left)
              (ap (λ xs. ok (some xs))
                (sym (take_nothing size (drop offset bytes) some_size none_left)))
        | inr (y, ys, more) ↦
            let next : ℕ = offset + length (y ∷ ys) in
            let left : Bytes = drop offset bytes in
            let fits : length (y ∷ ys) ≤ length left =
              omega (arith, ap length more, length-take_below size left) in
            let rest : read_whole fuel size next fh (after_read s fh size offset o.stream)
                ≡ ok (some (drop next bytes)) =
              reads-to_end fuel next (after_read s fh size offset o.stream) o' (omega arith)
                (omega (arith, length-drop offset bytes)) big in
            rw (got, read_whole, more, rest)
              (ap (λ xs. ok (some xs))
                (ap (λ r. (y ∷ ys) ++ r) (drop-add offset (length (y ∷ ys)) bytes)
                  ∙ subst (λ zs. zs ++ drop (length zs) left ≡ left) more
                      (take-append-drop-length size left)))
      ]

  -- A handle whose stream holds fewer than 2^63 bytes: reads of a size above 0 and below 2^31,
  -- from the start and each from where the last one ended, come to a read of nothing after at most
  -- one read more than there are bytes, and what they give together is all the bytes.
  pub read_whole-content :
      (s : Session)
      → Holds fh bytes s
      → length bytes < 2 ^ 63
      → read_whole (length bytes + 1) size 0 fh s ≡ ok (some bytes)
  read_whole-content s o big = reads-to_end (length bytes + 1) 0 s o (omega arith) (omega arith) big
