-- ===== src/Fuse/Operations/Names.antt =====
-- The names that cb_readdir (src/fuse3.cpp) lists: their order, and what they depend on.
use fuse3_p7zip.Base.{
  Bytes, codes, ◌≡◌, ◌≢◌, refl, sym, ap, subst, ◌∙◌, Bool, true, false, ◌&&◌, not, List, [], ◌∷◌,
  some, ◌==◌, list_eq, nat_eq, if◌then◌else◌, drop, All, both, Bool-cases, inl, inr, ◌⊎◌, ◌↔◌,
  arith,
}
use mathlib.Core.List.{map}
use fuse3_p7zip.Base.Int.{ℤ, pos}
use fuse3_p7zip.Base.Outcome.{ok}
use fuse3_p7zip.Host.{Host}
use fuse3_p7zip.FilePath.{
  FilePath, FilePath-eq, root, from_string, parent_path, filename, bytes_lt, path_lt,
}
use fuse3_p7zip.FilePath.Child.{child, child_lem}
use fuse3_p7zip.FilePath.Order.{path_lt-child, path_lt-IsStrict}
use fuse3_p7zip.OrderedMap.{contains}
use fuse3_p7zip.OrderedMap.Order.{keys, has-keys, IsAscending, IsAscending-eq}
use fuse3_p7zip.Archive.Iterator.{Archive}
use fuse3_p7zip.Fuse.Tree.{FileTree, Entry, build_tree}
use fuse3_p7zip.Fuse.Tree.Fill.{IsOpen, Reads}
use fuse3_p7zip.Fuse.Tree.Paths.{IsSorted, HasPath, OnWay, tree_of, build_tree-Has}
use fuse3_p7zip.Fuse.Operations.{Filled, fill_children, cb_readdir}

abbrev pub names_of : List Filled → List Bytes
names_of = map (λ f. f.0)

-- The names in a directory, by the paths alone.
child_names : FilePath → List FilePath → List Bytes
child_names d [] = []
child_names d (k ∷ ks) =
    let rest = child_names d ks in
    if d == parent_path k && not (filename k == []) then filename k ∷ rest else rest

names-fill_children :
    (d : FilePath) (tree : FileTree) → names_of (fill_children d tree) ≡ child_names d (keys tree)
unfolding fill_children child_names
names-fill_children d [] = refl
names-fill_children d ((k, (it, s)) ∷ tree) =
    elim (Bool-cases (d == parent_path k && not (filename k == []))) [
      | inl q ↦ rw q (ap (◌∷◌ (filename k)) (names-fill_children d tree))
      | inr q ↦ rw q (names-fill_children d tree)
    ]

guard_child :
    (d k : FilePath)
    → (d == parent_path k && not (filename k == [])) ≡ true
    → child d (filename k) ≡ k
guard_child d k q =
    let below : d ≡ parent_path k = ground (arith, q) in
    let filled : filename k ≢ [] = λ e. ground (arith, q, e) in
    ap (λ p. child p (filename k)) below ∙ child_lem k filled

below_names :
    (d : FilePath) (n : Bytes) (ks : List FilePath)
    → All (λ k. path_lt (child d n) k ≡ true) ks
    → All (λ m. bytes_lt n m ≡ true) (child_names d ks)
unfolding child_names
below_names d n [] all = tt
below_names d n (k ∷ ks) (here, later) =
    elim (Bool-cases (d == parent_path k && not (filename k == []))) [
      | inl q ↦ rw q (
        sym (path_lt-child d n (filename k))
            ∙ (ap (path_lt (child d n)) (guard_child d k q) ∙ here),
        below_names d n ks later,
      )
      | inr q ↦ rw q (below_names d n ks later)
    ]

child_names-IsAscending :
    (d : FilePath) (ks : List FilePath)
    → IsAscending path_lt ks
    → IsAscending bytes_lt (child_names d ks)
unfolding child_names
child_names-IsAscending d [] asc = tt
child_names-IsAscending d (k ∷ ks) (above, asc) =
    elim (Bool-cases (d == parent_path k && not (filename k == []))) [
      | inl q ↦ rw q (
        below_names d (filename k) ks
            (subst (λ j. All (λ i. path_lt j i ≡ true) ks) (sym (guard_child d k q)) above),
        child_names-IsAscending d ks asc,
      )
      | inr q ↦ rw q (child_names-IsAscending d ks asc)
    ]

-- In a tree whose paths stand in ascending order, the names that cb_readdir lists behind the first
-- two, which are `.` and `..`, ascend by their bytes, so none of them is listed twice.
pub readdir-IsAscending :
    (tree : FileTree) (path : Bytes)
    → IsSorted tree
    → IsAscending bytes_lt (names_of (drop 2 (cb_readdir tree path).1))
unfolding cb_readdir
readdir-IsAscending tree path sorted =
    both (λ (r : ℤ × List Filled). IsAscending bytes_lt (names_of (drop 2 r.1)))
      (not (path == codes "/") && not (contains (from_string path) tree)) tt
      (subst (IsAscending bytes_lt) (sym (names-fill_children (from_string path) tree))
        (child_names-IsAscending (from_string path) (keys tree) sorted))

-- The result, and the names.
abbrev pub listed : ℤ × List Filled → ℤ × List Bytes
listed r = (r.0, names_of r.1)

listed-keys :
    (t u : FileTree) (path : Bytes)
    → keys t ≡ keys u
    → contains (from_string path) t ≡ contains (from_string path) u
    → listed (cb_readdir t path) ≡ listed (cb_readdir u path)
unfolding cb_readdir
listed-keys t u path same same' =
    elim (Bool-cases (not (path == codes "/") && not (contains (from_string path) u))) [
      | inl q ↦ rw (same', q) refl
      | inr q ↦
          let names : names_of (fill_children (from_string path) t)
              ≡ names_of (fill_children (from_string path) u) =
            names-fill_children (from_string path) t
            ∙ (ap (child_names (from_string path)) same
                ∙ sym (names-fill_children (from_string path) u)) in
          rw (same', q) (ap (λ ns. (pos 0, codes "." ∷ codes ".." ∷ ns)) names)
    ]

Bool-eq : (b c : Bool) → ((b ≡ true) ↔ (c ≡ true)) → b ≡ c
Bool-eq true true e = refl
Bool-eq true false e = sym (e.0 refl)
Bool-eq false true e = e.1 refl
Bool-eq false false e = refl

-- The items have the same paths, in any order and each as often as may be.
abbrev pub SamePaths : List Entry → List Entry → Type 0
SamePaths es fs = (p : FilePath) → HasPath p es ↔ HasPath p fs

OnWay-SamePaths : (es fs : List Entry) (k : FilePath) → SamePaths es fs → OnWay k es → OnWay k fs
OnWay-SamePaths es fs k same (p, m, u) = (p, (same p).0 m, u)

rooted-SamePaths :
    (es fs : List Entry) (k : FilePath)
    → SamePaths es fs
    → (k ≡ root) ⊎ OnWay k es
    → (k ≡ root) ⊎ OnWay k fs
rooted-SamePaths es fs k same (inl e) = inl e
rooted-SamePaths es fs k same (inr w) = inr (OnWay-SamePaths es fs k same w)

-- The two trees list the same, if the items have the same paths.
pub tree_of-SamePaths :
    (h : Host) (a b : Archive) (allow_other : Bool) (es fs : List Entry) (open_a : IsOpen a)
    (open_b : IsOpen b) (reads : Reads h a 0 es) (reads' : Reads h b 0 fs)
    → SamePaths es fs
    → (path : Bytes)
    → listed (cb_readdir (tree_of h a allow_other es open_a reads) path)
      ≡ listed (cb_readdir (tree_of h b allow_other fs open_b reads') path)
tree_of-SamePaths h a b allow_other es fs open_a open_b reads reads' same path =
    let (_, has_a, sorted) = build_tree-Has h a allow_other es open_a reads in
    let (_, has_b, sorted') = build_tree-Has h b allow_other fs open_b reads' in
    let t = tree_of h a allow_other es open_a reads in
    let u = tree_of h b allow_other fs open_b reads' in
    let back : SamePaths fs es = λ p. ((same p).1, (same p).0) in
    let same_keys : (k : FilePath) → contains k t ≡ contains k u = λ k.
      Bool-eq (contains k t) (contains k u) (
        (λ m. (has_b k).1 (rooted-SamePaths es fs k same ((has_a k).0 m))),
        (λ m. (has_a k).1 (rooted-SamePaths fs es k back ((has_b k).0 m))),
      ) in
    let same_list : keys t ≡ keys u =
      IsAscending-eq path_lt path_lt-IsStrict (keys t) (keys u) sorted sorted' (λ k.
        has-keys path_lt path_lt-IsStrict k t
        ∙ (same_keys k ∙ sym (has-keys path_lt path_lt-IsStrict k u))) in
    listed-keys t u path same_list (same_keys (from_string path))

-- For two archives at addresses that are not null, each with fewer than 2^32 items that can all be
-- read, read with the same allow_other: if the items have the same set of paths, in any order and
-- any number of times, then build_tree returns a tree for both, and on every path cb_readdir
-- returns the same result and the same names in the same order for both trees.
pub readdir-SamePaths :
    (h : Host) (a b : Archive) (allow_other : Bool) (es fs : List Entry)
    → IsOpen a
    → IsOpen b
    → Reads h a 0 es
    → Reads h b 0 fs
    → SamePaths es fs
    → (t : FileTree) × (u : FileTree) × (build_tree h a allow_other ≡ ok (some t))
      × (build_tree h b allow_other ≡ ok (some u))
      × ((path : Bytes) → listed (cb_readdir t path) ≡ listed (cb_readdir u path))
readdir-SamePaths h a b allow_other es fs open_a open_b reads reads' same = (
  tree_of h a allow_other es open_a reads,
  tree_of h b allow_other fs open_b reads',
  (build_tree-Has h a allow_other es open_a reads).0,
  (build_tree-Has h b allow_other fs open_b reads').0,
  tree_of-SamePaths h a b allow_other es fs open_a open_b reads reads' same,
)
