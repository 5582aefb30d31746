-- ===== src/Archive/Lifetime/Counting.antt =====
-- The counter of a stream under calls that give back what they take.
use fuse3_p7zip.Base.{
  ℕ, zero, suc, ◌+◌, ◌<◌, ◌≡◌, ap, ◌∙◌, false, List, [], ◌∷◌, Option, none, some, length, ◌≤◌,
  arith,
}
use fuse3_p7zip.Com.{word32, add_ref, release}
use fuse3_p7zip.Archive.Lifetime.{
  Touch, adds_ref, releases_ref, Keeper, Store, destruct_stream, touch, touch_all,
}

-- How many references are taken after the calls, if that many were before; `none` where more are
-- given back than are taken.
unfoldable pub taken : List Touch → ℕ → Option ℕ
taken [] n = some n
taken (adds_ref ∷ ts) n = taken ts (suc n)
taken (releases_ref ∷ ts) zero = none
taken (releases_ref ∷ ts) (suc n) = taken ts n

-- The program's own reference, and that many of 7zip's.
abbrev pub counted : ℕ → ℕ → Store
counted n files = record { counter = some (suc n); files = files; misused = false }

abbrev pub deleted : ℕ → Store
deleted files = record { counter = none; files = files; misused = false }

adds :
    (n files : ℕ) → suc (suc n) < word32 → touch adds_ref (counted n files) ≡ counted (suc n) files
unfolding touch add_ref
adds n files lt = ground arith

gives_back :
    (n files : ℕ)
    → suc (suc n) < word32
    → touch releases_ref (counted (suc n) files) ≡ counted n files
unfolding touch release
gives_back n files lt = ground arith

-- The program's own is the last.
pub last : (files : ℕ) → touch releases_ref (counted 0 (files + 1)) ≡ deleted files
unfolding touch release destruct_stream
last files = ground arith

pub touch_all-taken :
    (ts : List Touch) (n m files : ℕ)
    → suc (n + length ts) < word32
    → taken ts n ≡ some m
    → touch_all ts (counted n files) ≡ counted m files
unfolding touch_all taken
touch_all-taken [] n m files lt e =
    let given : some n ≡ some m = e in let same : n ≡ m = cc in ap (λ k. counted k files) same
touch_all-taken (adds_ref ∷ ts) n m files lt e =
    ap (touch_all ts) (adds n files (omega arith))
    ∙ touch_all-taken ts (suc n) m files (omega arith) e
touch_all-taken (releases_ref ∷ ts) zero m files lt e = cc
touch_all-taken (releases_ref ∷ ts) (suc n) m files lt e =
    ap (touch_all ts) (gives_back n files (omega arith))
    ∙ touch_all-taken ts n m files (omega arith) e

-- They end with no more than they began with and one for each call.
pub taken-bound : (ts : List Touch) (n m : ℕ) → taken ts n ≡ some m → m ≤ n + length ts
unfolding taken
taken-bound [] n m e = let given : some n ≡ some m = e in let same : n ≡ m = cc in omega arith
taken-bound (adds_ref ∷ ts) n m e = let b = taken-bound ts (suc n) m e in omega arith
taken-bound (releases_ref ∷ ts) zero m e = cc
taken-bound (releases_ref ∷ ts) (suc n) m e = let b = taken-bound ts n m e in omega arith

-- A handler gives back each reference that it takes: in Close or when it is deleted, and when it is
-- deleted without Close; and it makes fewer calls than the counter can count.
pub record GivesBack (k : Keeper) : Type 0 where
  pub kept : ℕ
  pub left : ℕ
  pub opens : taken k.in_open 0 ≡ some kept
  pub closes : taken k.in_close kept ≡ some left
  pub goes_closed : taken k.when_closed left ≡ some 0
  pub goes_open : taken k.when_open kept ≡ some 0
  pub few :
      length k.in_open + length k.in_close + length k.when_closed + length k.when_open + 1 < word32

module _ {k : Keeper} (g : GivesBack k) (files : ℕ) where
  pub touch_all-in_open : touch_all k.in_open (counted 0 files) ≡ counted g.kept files
  touch_all-in_open =
      let few = g.few in touch_all-taken k.in_open 0 g.kept files (omega arith) g.opens

  pub touch_all-when_open : touch_all k.when_open (counted g.kept files) ≡ counted 0 files
  touch_all-when_open =
      let few = g.few in
      let b = taken-bound k.in_open 0 g.kept g.opens in
      touch_all-taken k.when_open g.kept 0 files (omega arith) g.goes_open

  pub touch_all-closed :
      touch_all k.when_closed (touch_all k.in_close (counted g.kept files)) ≡ counted 0 files
  touch_all-closed =
      let few = g.few in
      let b = taken-bound k.in_open 0 g.kept g.opens in
      let b' = taken-bound k.in_close g.kept g.left g.closes in
      ap (touch_all k.when_closed)
        (touch_all-taken k.in_close g.kept g.left files (omega arith) g.closes)
      ∙ touch_all-taken k.when_closed g.left 0 files (omega arith) g.goes_closed
