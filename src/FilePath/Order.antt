-- ===== src/FilePath/Order.antt =====
-- The order of paths: `operator<` of std::string and of std::filesystem::path, by which the keys of
-- Cache::FileTree (src/fuse3.cpp) are sorted.
use fuse3_p7zip.Base.{Bytes, ◌≡◌, refl, true, false, List, [], ◌∷◌, ◌++◌, ltb, arith}
use fuse3_p7zip.OrderedMap.Order.{IsStrict}
use fuse3_p7zip.FilePath.{FilePath, bytes_lt, names_lt, path_lt}
use fuse3_p7zip.FilePath.Child.{child}

ltb-IsStrict : IsStrict ltb
ltb-IsStrict = record {
  irrefl = λ a. ground arith;
  trans = λ a b c p q. ground arith;
  total = λ a b p q. ground arith;
}

bytes_lt_irrefl : (s : Bytes) → bytes_lt s s ≡ false
unfolding bytes_lt
bytes_lt_irrefl [] = refl
bytes_lt_irrefl (c ∷ s) = ground (arith, bytes_lt_irrefl s)

bytes_lt_trans : (s t u : Bytes) → bytes_lt s t ≡ true → bytes_lt t u ≡ true → bytes_lt s u ≡ true
unfolding bytes_lt
bytes_lt_trans s [] u p q = absurd (ground arith)
bytes_lt_trans s (d ∷ t) [] p q = absurd (ground arith)
bytes_lt_trans [] (d ∷ t) (e ∷ u) p q = refl
bytes_lt_trans (c ∷ s) (d ∷ t) (e ∷ u) p q = ground (arith, bytes_lt_trans s t u)

bytes_lt_total : (s t : Bytes) → bytes_lt s t ≡ false → bytes_lt t s ≡ false → s ≡ t
unfolding bytes_lt
bytes_lt_total [] [] p q = refl
bytes_lt_total [] (d ∷ t) p q = cc
bytes_lt_total (c ∷ s) [] p q = cc
bytes_lt_total (c ∷ s) (d ∷ t) p q = ground (arith, bytes_lt_total s t)

pub bytes_lt-IsStrict : IsStrict bytes_lt
bytes_lt-IsStrict = record {
  irrefl = bytes_lt_irrefl;
  trans = bytes_lt_trans;
  total = bytes_lt_total;
}

names_lt_irrefl : (s : List Bytes) → names_lt s s ≡ false
unfolding names_lt
names_lt_irrefl [] = refl
names_lt_irrefl (c ∷ s) = ground (arith, bytes_lt_irrefl c, names_lt_irrefl s)

names_lt_trans :
    (s t u : List Bytes) → names_lt s t ≡ true → names_lt t u ≡ true → names_lt s u ≡ true
unfolding names_lt
names_lt_trans s [] u p q = cc
names_lt_trans s (d ∷ t) [] p q = cc
names_lt_trans [] (d ∷ t) (e ∷ u) p q = refl
names_lt_trans (c ∷ s) (d ∷ t) (e ∷ u) p q = ground (
  arith,
  bytes_lt_trans c d e,
  bytes_lt_total c d,
  bytes_lt_total d e,
  bytes_lt_total c e,
  bytes_lt_trans d e c,
  bytes_lt_trans e c d,
  bytes_lt_irrefl c,
  names_lt_trans s t u,
)

names_lt_total : (s t : List Bytes) → names_lt s t ≡ false → names_lt t s ≡ false → s ≡ t
unfolding names_lt
names_lt_total [] [] p q = refl
names_lt_total [] (d ∷ t) p q = cc
names_lt_total (c ∷ s) [] p q = cc
names_lt_total (c ∷ s) (d ∷ t) p q = ground (arith, bytes_lt_total c d, names_lt_total s t)

path_lt_irrefl : (p : FilePath) → path_lt p p ≡ false
unfolding path_lt
path_lt_irrefl p = ground (arith, names_lt_irrefl p.names)

path_lt_trans : (p q r : FilePath) → path_lt p q ≡ true → path_lt q r ≡ true → path_lt p r ≡ true
unfolding path_lt
path_lt_trans p q r a b = ground (arith, names_lt_trans p.names q.names r.names)

path_lt_total : (p q : FilePath) → path_lt p q ≡ false → path_lt q p ≡ false → p ≡ q
unfolding path_lt
path_lt_total p q a b = ground (arith, names_lt_total p.names q.names)

pub path_lt-IsStrict : IsStrict path_lt
path_lt-IsStrict = record { irrefl = path_lt_irrefl; trans = path_lt_trans; total = path_lt_total }

-- Names in one directory are ordered as their texts.
names_lt-snoc :
    (ns : List Bytes) (n m : Bytes) → names_lt (ns ++ (n ∷ [])) (ns ++ (m ∷ [])) ≡ bytes_lt n m
unfolding names_lt
names_lt-snoc [] n m = ground arith
names_lt-snoc (k ∷ ns) n m = ground (arith, bytes_lt_irrefl k, names_lt-snoc ns n m)

pub path_lt-child : (d : FilePath) (n m : Bytes) → path_lt (child d n) (child d m) ≡ bytes_lt n m
unfolding path_lt child
path_lt-child d n m = ground (arith, names_lt-snoc d.names n m)
