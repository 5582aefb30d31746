-- ===== src/Fuse/Loop/Mounted.antt =====
-- The file system that a mounted session of src/fuse3.cpp stands for: the nodes of its tree, and for
-- an item what the library writes when it is extracted.
use fuse3_p7zip.Base.{
  ℕ, ◌≤◌, Bytes, ◌≡◌, refl, ap, ◌∙◌, sym, subst, false, List, [], Option, none, some, length, inl,
  inr, Option-cases, Bool-cases, All, ◌==◌, if◌then◌else◌, [], ◌∷◌,
}
use fuse3_p7zip.Base.Outcome.{ok}
use fuse3_p7zip.Host.{Host, done}
use fuse3_p7zip.FilePath.{FilePath, FilePath-eq}
use fuse3_p7zip.OrderedMap.{find}
use fuse3_p7zip.OrderedMap.Laws.{NodupKeys}
use fuse3_p7zip.Text.Encoding.{Wide, wide_str}
use fuse3_p7zip.Stdio.{File, new_file}
use fuse3_p7zip.Archive.Iterator.{Iterator, Archive}
use fuse3_p7zip.Archive.Extractor.Laws.{IsOrderly, written}
use fuse3_p7zip.Fuse.Stat.{Stat}
use fuse3_p7zip.Fuse.Tree.{FileTree, Node}
use fuse3_p7zip.Fuse.Tree.Closure.{IsClosed}
use fuse3_p7zip.Fuse.Operations.{Session, extract, too_big}
use fuse3_p7zip.Fuse.Operations.Opening.{open_extract}
use fuse3_p7zip.Fuse.Loop.{Request, Answer, serve}
use fuse3_p7zip.Fuse.Loop.Spec.{FileSystem, Opens, AllLegal, AllAllowed}
use fuse3_p7zip.Fuse.Loop.Represents.{Represents}
use fuse3_p7zip.Fuse.Loop.Serves.{serve-AllAllowed}

-- What the library writes for the item; a directory that is made up has no item.
abbrev pub contents_of : Option Archive → ℕ → Option Bytes
contents_of none index = none
contents_of (some a) index = some (written (a.handler.extract index).0)

abbrev pub node_of : Option Node → Option (Stat × Option Bytes)
node_of none = none
node_of (some (it, stat)) = some (stat, contents_of it.seq it.index)

abbrev pub file_system : Host → Session → FileSystem
file_system h s = record { node = λ k. node_of (find k s.tree); refused = too_big h }

abbrev pub nothing_open : Opens
nothing_open = record { holds = λ fh. none }

-- The library uses the callbacks in order, does not fail, and writes no more than a temporary file
-- has room for.
abbrev pub Succeeds : Host → ℕ → Option Archive → ℕ → Type 0
Succeeds h room none index = Unit
Succeeds h room (some a) index =
    IsOrderly false false (a.handler.extract index).0
    × (h.is_failed (a.handler.extract index).1 ≡ false)
    × (length (written (a.handler.extract index).0) ≤ room)

-- Every item of the tree can be extracted.
abbrev pub Extractable : Host → ℕ → FileTree → Type 0
Extractable h room = All (λ (k, (it, stat)). Succeeds h room it.seq it.index)

find_All :
    (P : Node → Type 0) (tree : FileTree) (k : FilePath) (v : Node)
    → All (λ p. P p.1) tree
    → find k tree ≡ some v
    → P v
unfolding find
find_All P [] k v all e = cc
find_All P ((j, w) ∷ tree) k v (here, later) e = elim (Bool-cases (k == j)) [
  | inl q ↦
      let e' : some w ≡ some v = sym (ap (λ b. if b then some w else find k tree) q) ∙ e in
      let same : w ≡ v = cc in subst P same here
  | inr q ↦ find_All P tree k v later (sym (ap (λ b. if b then some w else find k tree) q) ∙ e)
]

module _ (h : Host) (s : Session) (room : ℕ) {w : Wide} (decodes : wide_str h s.password ≡ ok w)
    (temporary : s.tmpfile ≡ done (new_file room)) (extractable : Extractable h room s.tree) where
  extracts_contents :
      (k : FilePath) (it : Iterator) (stat : Stat) (bytes : Bytes)
      → find k s.tree ≡ some (it, stat)
      → (file_system h s).node k ≡ some (stat, some bytes)
      → (f : File) × (extract h it s ≡ ok f) × (f.content ≡ bytes)
  extracts_contents k it stat bytes e n =
      let same : some (stat, contents_of it.seq it.index) ≡ some (stat, some bytes) =
        sym (ap node_of e) ∙ n in
      let given : contents_of it.seq it.index ≡ some bytes = cc in
      elim (Option-cases it.seq) [
        | inl q ↦
            let nothing : contents_of it.seq it.index ≡ none = ap (λ x. contents_of x it.index) q in
            cc
        | inr (a, q) ↦
            let what : contents_of it.seq it.index ≡ some (written (a.handler.extract it.index).0) =
              ap (λ x. contents_of x it.index) q in
            let (orderly, success, fits) =
              subst (λ x. Succeeds h room x it.index) q
                (find_All (λ (i, _). Succeeds h room i.seq i.index) s.tree k (it, stat) extractable
                  e) in
            (
              record {
                content = written (a.handler.extract it.index).0;
                position = 0;
                error = false;
                room = room;
              },
              open_extract h s it a room q temporary decodes orderly success fits,
              cc,
            )
      ]

  mounted-Represents :
      IsClosed s.tree
      → NodupKeys s.tree
      → ((fh : ℕ) → s.files fh ≡ none)
      → Represents h s (file_system h s) nothing_open
  mounted-Represents c u closed = record {
    closed = c;
    once = u;
    absent = λ k e. rw e refl;
    present = λ k it stat e. (contents_of it.seq it.index, rw e refl);
    extracts = extracts_contents;
    limit = λ stat. refl;
    streams = λ fh. rw (closed fh) tt;
  }

  -- A session with no stream open, over a closed tree where no path stands twice, a password that
  -- decodes, and a temporary file with room for whatever the library writes for an item of the
  -- tree, which it does in order and with no failure code: every run of requests is answered, none
  -- is undefined, and each answer is what the file system of the tree's nodes promises, whose
  -- files hold what the library writes. A run may list directories by their text, if the names are
  -- plain and start at the root, open what is missing, over the limit or an item, with any address
  -- for the stream at which no open one stands, read fewer than 2^31 bytes at an offset below 2^63 from an open handle, release an open handle, and ask for
  -- any attributes.
  pub mounted-AllAllowed :
      IsClosed s.tree
      → NodupKeys s.tree
      → ((fh : ℕ) → s.files fh ≡ none)
      → (rs : List Request) → AllLegal (file_system h s) rs nothing_open
      → (t : Session) × (answers : List Answer) × (serve h rs s ≡ ok (t, answers))
        × AllAllowed (file_system h s) rs answers nothing_open
  mounted-AllAllowed c u closed rs legal =
      serve-AllAllowed h (file_system h s) rs s nothing_open (mounted-Represents c u closed) legal
