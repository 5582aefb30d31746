-- ===== src/Fuse/Operations/Listing.antt =====
-- cb_readdir against cb_getattr (src/fuse3.cpp).
use fuse3_p7zip.Base.{
  Bytes, ◌≡◌, ◌≢◌, ap, ◌∙◌, sym, subst, true, List, [], ◌∷◌, none, some, nat_eq, list_eq, arith,
  ◌⊎◌, inl, inr, ◌↔◌, Option-cases, beq_refl,
}
use mathlib.Core.Path.{ap₂, subst₂}
use fuse3_p7zip.Base.Int.{pos}
use fuse3_p7zip.FilePath.{
  FilePath, FilePath-eq, slash, from_string, to_string, parent_path, filename,
}
use fuse3_p7zip.FilePath.Laws.{Lacks, IsPlain, from_string-to_string}
use fuse3_p7zip.FilePath.Child.{
  child, parent_path-child, filename-child, filename-Lacks, child_lem, rooted_text, child_text,
}
use fuse3_p7zip.OrderedMap.{find, contains}
use fuse3_p7zip.OrderedMap.Laws.{NodupKeys}
use fuse3_p7zip.Archive.Iterator.{Iterator}
use fuse3_p7zip.Fuse.Stat.{Stat}
use fuse3_p7zip.Fuse.Tree.{FileTree, Node}
use fuse3_p7zip.Fuse.Tree.Closure.{Has, IsClosed}
use fuse3_p7zip.Fuse.Operations.{Filled, fill_children, cb_readdir, cb_getattr, enoent, enotdir}

abbrev pub In : Filled → List Filled → Type 0
In x [] = ⊥
In x (y ∷ ys) = (x ≡ y) ⊎ In x ys

-- A key below the directory is listed.
fill_children_complete :
    (k : FilePath) (it : Iterator) (s : Stat) (tree : FileTree)
    → find k tree ≡ some (it, s)
    → filename k ≢ []
    → In (filename k, some s) (fill_children (parent_path k) tree)
unfolding find fill_children
fill_children_complete k it s [] f e = ground arith
fill_children_complete k it s ((j, (it', s')) ∷ tree) f e =
    ground (arith, beq_refl (parent_path k), fill_children_complete k it s tree)

abbrev Listed : FilePath → Bytes → Stat → FileTree → Type 0
Listed d n s tree =
    (k : FilePath) × (it : Iterator) × (find k tree ≡ some (it, s))
    × (parent_path k ≡ d)
    × (filename k ≡ n)
    × (n ≢ [])

Listed-later :
    (d : FilePath) (n : Bytes) (s : Stat) (j : FilePath) (v : Node) (tree : FileTree)
    → find j tree ≡ none
    → Listed d n s tree
    → Listed d n s ((j, v) ∷ tree)
unfolding find
Listed-later d n s j v tree new (k, it, f, below, named, filled) =
    (k, it, ground arith, below, named, filled)

Listed-here :
    (d : FilePath) (n : Bytes) (s s' : Stat) (j : FilePath) (it : Iterator) (tree : FileTree)
    → d ≡ parent_path j
    → filename j ≢ []
    → ◌≡◌ {A = Filled} (n, some s) (filename j, some s')
    → Listed d n s ((j, (it, s')) ∷ tree)
unfolding find
Listed-here d n s s' j it tree below filled e =
    (j, it, rw (beq_refl j) cc, sym below, cc, λ none_left. filled cc)

In-split :
    (x : Filled) (d j : FilePath) (it : Iterator) (s : Stat) (tree : FileTree)
    → In x (fill_children d ((j, (it, s)) ∷ tree))
    → ((d ≡ parent_path j) × (filename j ≢ []) × (x ≡ (filename j, some s)))
      ⊎ In x (fill_children d tree)
unfolding fill_children
In-split x d j it s tree m = ground arith

-- What is listed is a key below the directory.
fill_children_sound :
    (d : FilePath) (n : Bytes) (s : Stat) (tree : FileTree)
    → NodupKeys tree
    → In (n, some s) (fill_children d tree)
    → Listed d n s tree
fill_children_sound d n s [] u m = absurd (unfold fill_children in m)
fill_children_sound d n s ((j, (it, s')) ∷ tree) (new, u) m =
    elim (In-split (n, some s) d j it s' tree m) [
      | inl (below, filled, e) ↦ Listed-here d n s s' j it tree below filled e
      | inr later ↦ Listed-later d n s j (it, s') tree new (fill_children_sound d n s tree u later)
    ]

module _ (tree : FileTree) where
  pub getattr_found :
      (k : FilePath) (it : Iterator) (s : Stat) (path : Bytes)
      → from_string path ≡ k
      → find k tree ≡ some (it, s)
      → cb_getattr tree path ≡ (pos 0, s)
  unfolding cb_getattr
  getattr_found k it s path e f = ground (arith, e, f)

  pub found_of_getattr :
      (k : FilePath) (s : Stat) (path : Bytes)
      → from_string path ≡ k
      → cb_getattr tree path ≡ (pos 0, s)
      → (it : Iterator) × (find k tree ≡ some (it, s))
  unfolding cb_getattr
  found_of_getattr k s path e g = elim (Option-cases (find (from_string path) tree)) [
    | inl missing ↦ absurd (ground (arith, missing))
    | inr ((it, s'), f) ↦ (it, ground (arith, f, e))
  ]

  In-readdir :
      (d : FilePath) (path n : Bytes) (s : Stat)
      → from_string path ≡ d
      → Has tree d
      → In (n, some s) (cb_readdir tree path).1 ↔ In (n, some s) (fill_children d tree)
  unfolding cb_readdir
  In-readdir d path n s e m = ground (arith, e, m)

  -- In a closed tree cb_readdir returns ENOTDIR on just the paths on which cb_getattr returns
  -- ENOENT.
  pub readdir-getattr_found :
      (path : Bytes)
      → IsClosed tree
      → ((cb_readdir tree path).0 ≡ enotdir) ↔ ((cb_getattr tree path).0 ≡ enoent)
  unfolding cb_readdir cb_getattr contains
  readdir-getattr_found path c = ground (arith, c.has_root)

  Has-found : (k : FilePath) (it : Iterator) (s : Stat) → find k tree ≡ some (it, s) → Has tree k
  unfolding contains
  Has-found k it s f = ground (arith, f)

  getattr-Listed :
      (d : FilePath) (n : Bytes) (s : Stat)
      → IsClosed tree
      → Listed d n s tree
      → (n ≢ []) × Lacks slash n × (cb_getattr tree (to_string (child d n)) ≡ (pos 0, s))
  getattr-Listed d n s c (k, it, f, below, named, filled) =
      let rooted = c.rooted k (Has-found k it s f) in
      let some_name : filename k ≢ [] = λ e. filled (sym named ∙ e) in
      let same : child d n ≡ k = ap₂ child (sym below) (sym named) ∙ child_lem k some_name in
      (
        filled,
        subst (Lacks slash) named (filename-Lacks k rooted),
        getattr_found k it s (to_string (child d n))
            (ap (λ q. from_string (to_string q)) same ∙ rooted_text k rooted some_name) f,
      )

  listed_getattr :
      (d : FilePath) (n : Bytes) (s : Stat)
      → d.absolute ≡ true
      → IsPlain d.names
      → n ≢ []
      → Lacks slash n
      → cb_getattr tree (to_string (child d n)) ≡ (pos 0, s)
      → In (n, some s) (fill_children d tree)
  listed_getattr d n s a p e l g =
      let (it, f) =
        found_of_getattr (child d n) s (to_string (child d n)) (child_text d n a p e l) g in
      subst₂ (λ q m. In (m, some s) (fill_children q tree)) (parent_path-child d n)
        (filename-child d n)
        (fill_children_complete (child d n) it s tree f (λ q. e (sym (filename-child d n) ∙ q)))

  -- In a closed tree where no path stands twice, a directory of plain names from the root that is
  -- in the tree lists a name with a stat just if the name is not empty, holds no slash, and
  -- cb_getattr returns that stat for its path in the directory.
  pub readdir-getattr :
      (d : FilePath) (n : Bytes) (s : Stat)
      → IsClosed tree
      → NodupKeys tree
      → d.absolute ≡ true
      → IsPlain d.names
      → Has tree d
      → In (n, some s) (cb_readdir tree (to_string d)).1
        ↔ ((n ≢ []) × Lacks slash n × (cb_getattr tree (to_string (child d n)) ≡ (pos 0, s)))
  readdir-getattr d n s c u a p m =
      let (to, from) = In-readdir d (to_string d) n s (from_string-to_string d a p) m in
      (
        (λ i. getattr-Listed d n s c (fill_children_sound d n s tree u (to i))),
        λ (e, l, g). from (listed_getattr d n s a p e l g),
      )
