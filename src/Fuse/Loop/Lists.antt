-- ===== src/Fuse/Loop/Lists.antt =====
-- cb_readdir of src/fuse3.cpp on each branch, for a directory of plain names.
use fuse3_p7zip.Base.{
  Bytes, ◌≡◌, ◌≢◌, ◌↔◌, ap, ◌∙◌, true, [], Option, none, some, nat_eq, list_eq, arith, inl, inr,
  Option-cases,
}
use fuse3_p7zip.Base.Int.{pos}
use fuse3_p7zip.FilePath.{FilePath, FilePath-eq, slash, from_string, to_string}
use fuse3_p7zip.FilePath.Laws.{Lacks, IsPlain, from_string-to_string}
use fuse3_p7zip.FilePath.Child.{child, child_text}
use fuse3_p7zip.OrderedMap.{find, contains}
use fuse3_p7zip.OrderedMap.Laws.{NodupKeys}
use fuse3_p7zip.Archive.Iterator.{Iterator}
use fuse3_p7zip.Fuse.Stat.{Stat}
use fuse3_p7zip.Fuse.Tree.{FileTree}
use fuse3_p7zip.Fuse.Tree.Closure.{IsClosed, Has}
use fuse3_p7zip.Fuse.Operations.{cb_getattr, cb_readdir, enotdir}
use fuse3_p7zip.Fuse.Operations.Listing.{In, readdir-getattr, getattr_found, found_of_getattr}

module _ (tree : FileTree) (d : FilePath) (a : d.absolute ≡ true) (p : IsPlain d.names) where
  pub readdir_missing :
      IsClosed tree → find d tree ≡ none → cb_readdir tree (to_string d) ≡ (enotdir, [])
  unfolding cb_readdir contains
  readdir_missing c e = ground (arith, c.has_root, from_string-to_string d a p)

  pub readdir_there :
      (it : Iterator) (stat : Stat)
      → find d tree ≡ some (it, stat)
      → cb_readdir tree (to_string d) ≡ (pos 0, (cb_readdir tree (to_string d)).1)
  unfolding cb_readdir contains
  readdir_there it stat e = ground (arith, from_string-to_string d a p)

-- The nodes of a tree, each with something more.
module _ {ℓ} {C : Type ℓ} (tree : FileTree) (node : FilePath → Option (Stat × C))
    (absent : (k : FilePath) → find k tree ≡ none → node k ≡ none)
    (present : (k : FilePath) (it : Iterator) (stat : Stat)
      → find k tree ≡ some (it, stat)
      → (c : C) × (node k ≡ some (stat, c))) where
  getattr-node :
      (k : FilePath) (path : Bytes) (stat : Stat)
      → from_string path ≡ k
      → (cb_getattr tree path ≡ (pos 0, stat)) ↔ ((c : C) × (node k ≡ some (stat, c)))
  getattr-node k path stat e = (
    (λ g. let (it, f) = found_of_getattr tree k stat path e g in present k it stat f),
    λ (c, n). elim (Option-cases (find k tree)) [
      | inl missing ↦ absurd (ground (arith, absent k missing))
      | inr ((it, stat'), f) ↦
          let (c', n') = present k it stat' f in
          let same : stat' ≡ stat = cc in
          getattr_found tree k it stat path e (f ∙ ap (λ t. some (it, t)) same)
    ],
  )

  -- A name stands in a directory with a stat just if the node below has that stat.
  pub readdir-node :
      (d : FilePath) (it : Iterator) (stat : Stat)
      → IsClosed tree
      → NodupKeys tree
      → d.absolute ≡ true
      → IsPlain d.names
      → find d tree ≡ some (it, stat)
      → (n : Bytes) (s : Stat)
      → In (n, some s) (cb_readdir tree (to_string d)).1
        ↔ ((n ≢ []) × Lacks slash n × ((c : C) × (node (child d n) ≡ some (s, c))))
  unfolding contains
  readdir-node d it stat c u a p f n s =
      let there : Has tree d = ground (arith, f) in
      let (to, from) = readdir-getattr tree d n s c u a p there in
      (
        (λ i.
            let (e, l, g) = to i in
            (
              e,
              l,
              (getattr-node (child d n) (to_string (child d n)) s (child_text d n a p e l)).0 g,
            )),
        λ (e, l, q). from (
          e,
          l,
          (getattr-node (child d n) (to_string (child d n)) s (child_text d n a p e l)).1 q,
        ),
      )
