-- ===== src/FilePath/Child.antt =====
-- The path of a name in a directory.
use fuse3_p7zip.Base.{Bytes, ◌≡◌, ◌≢◌, refl, ap, true, List, [], ◌∷◌, ◌++◌}
use fuse3_p7zip.FilePath.{
  FilePath, slash, init, last, parent_path, filename, from_string, to_string,
}
use fuse3_p7zip.FilePath.Laws.{
  Lacks, IsProper, IsPlain, IsProper-IsPlain, IsRooted, from_string-to_string,
}

unfoldable pub child : FilePath → Bytes → FilePath
child d n = record d { names = d.names ++ (n ∷ []) }

init-snoc : (ns : List Bytes) (n : Bytes) → init (ns ++ (n ∷ [])) ≡ ns
init-snoc [] n = refl
init-snoc (m ∷ []) n = refl
init-snoc (m ∷ k ∷ ns) n = ap (◌∷◌ m) (init-snoc (k ∷ ns) n)

last-snoc : (ns : List Bytes) (n : Bytes) → last (ns ++ (n ∷ [])) ≡ n
last-snoc [] n = refl
last-snoc (m ∷ []) n = refl
last-snoc (m ∷ k ∷ ns) n = last-snoc (k ∷ ns) n

snoc-init-last : (ns : List Bytes) → last ns ≢ [] → init ns ++ (last ns ∷ []) ≡ ns
snoc-init-last [] e = absurd (e refl)
snoc-init-last (n ∷ []) e = refl
snoc-init-last (n ∷ m ∷ ns) e = ap (◌∷◌ n) (snoc-init-last (m ∷ ns) e)

pub parent_path-child : (d : FilePath) (n : Bytes) → parent_path (child d n) ≡ d
unfolding parent_path child
parent_path-child d n = λ i. record { absolute = d.absolute; names = init-snoc d.names n i }

pub filename-child : (d : FilePath) (n : Bytes) → filename (child d n) ≡ n
unfolding filename child
filename-child d n = last-snoc d.names n

pub child_lem : (k : FilePath) → filename k ≢ [] → child (parent_path k) (filename k) ≡ k
unfolding filename child parent_path
child_lem k e = λ i. record { absolute = k.absolute; names = snoc-init-last k.names e i }

pub rooted_text : (k : FilePath) → IsRooted k → filename k ≢ [] → from_string (to_string k) ≡ k
unfolding filename
rooted_text k (a, p) e = from_string-to_string k a (IsProper-IsPlain k.names p e)

snoc-IsPlain :
    (ns : List Bytes) (n : Bytes) → IsPlain ns → n ≢ [] → Lacks slash n → IsPlain (ns ++ (n ∷ []))
snoc-IsPlain [] n p e l = ((e, l), tt)
snoc-IsPlain (m ∷ ns) n (q, p) e l = (q, snoc-IsPlain ns n p e l)

pub child_text :
    (d : FilePath) (n : Bytes)
    → d.absolute ≡ true
    → IsPlain d.names
    → n ≢ []
    → Lacks slash n
    → from_string (to_string (child d n)) ≡ child d n
unfolding child
child_text d n a p e l = from_string-to_string (child d n) a (snoc-IsPlain d.names n p e l)

last-Lacks : (ns : List Bytes) → IsProper ns → Lacks slash (last ns)
last-Lacks [] p = tt
last-Lacks (n ∷ []) p = p
last-Lacks (n ∷ m ∷ ns) (_, _, p) = last-Lacks (m ∷ ns) p

pub filename-Lacks : (k : FilePath) → IsRooted k → Lacks slash (filename k)
unfolding filename
filename-Lacks k (_, p) = last-Lacks k.names p
