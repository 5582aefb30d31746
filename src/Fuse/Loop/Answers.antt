-- ===== src/Fuse/Loop/Answers.antt =====
-- Each callback of src/fuse3.cpp against what a read-only file system promises.
use fuse3_p7zip.Base.{
  ℕ, ◌<◌, ◌^◌, Bytes, ◌≡◌, refl, ap, sym, subst, ◌∙◌, true, false, [], Option, none, some, nat_eq,
  arith, inl, inr, Bool-cases, Option-cases,
}
use fuse3_p7zip.Base.Int.{pos}
use fuse3_p7zip.Base.Outcome.{ok}
use fuse3_p7zip.Host.{Host}
use fuse3_p7zip.FilePath.{FilePath, FilePath-eq, from_string, to_string}
use fuse3_p7zip.FilePath.Laws.{IsPlain}
use fuse3_p7zip.OrderedMap.{find}
use fuse3_p7zip.Archive.Iterator.{Iterator}
use fuse3_p7zip.Fuse.Stat.{Stat}
use fuse3_p7zip.Fuse.Operations.{
  Session, set_file, too_big, cb_open, cb_release, cb_getattr, cb_readdir, enotdir,
}
use fuse3_p7zip.Fuse.Operations.Handles.{Holds, read-content}
use fuse3_p7zip.Fuse.Operations.Reads.{read_gives, after_read, opened, open_gives}
use fuse3_p7zip.Fuse.Loop.{
  Request, getattr, readdir, opens, reads, releases, Answer, entries, handle, dispatch,
}
use fuse3_p7zip.Fuse.Loop.Spec.{
  FileSystem, Opens, set_holds, IsLegal, after_missing, after_refused, after_opened, after, Allows,
  AllLegal, AllAllowed,
}
use fuse3_p7zip.Fuse.Loop.Spec
use fuse3_p7zip.Fuse.Loop.Lists.{readdir_missing, readdir_there, readdir-node}
use fuse3_p7zip.Fuse.Loop.Represents.{
  Represents, with_streams, set-IsStream, keep-IsStream, stream_of,
}

module _ (h : Host) (fs : FileSystem) where
  -- A request is answered as it is allowed, and the session then has what is open.
  abbrev pub Serves : Session → Opens → Request → Type 0
  Serves s o r =
      (t : Session) × (answer : Answer) × (dispatch h r s ≡ ok (t, answer))
      × Allows fs o r answer
      × Represents h t fs (after fs r o)

  pub getattr-Serves :
      (s : Session) (o : Opens) (path : Bytes) → Represents h s fs o → Serves s o (getattr path)
  unfolding dispatch cb_getattr after
  getattr-Serves s o path rep = elim (Option-cases (find (from_string path) s.tree)) [
    | inl e ↦ (
      s,
      _,
      rw (e, dispatch, cb_getattr) refl,
      Spec.attributes_missing path (rep.absent _ e),
      rep,
    )
    | inr ((it, stat), e) ↦
        let (c, node) = rep.present _ it stat e in
        (s, _, rw (e, dispatch, cb_getattr) refl, Spec.attributes_of path stat c node, rep)
  ]

  pub readdir-Serves :
      (s : Session) (o : Opens) (d : FilePath)
      → Represents h s fs o
      → d.absolute ≡ true
      → IsPlain d.names
      → Serves s o (readdir (to_string d))
  unfolding dispatch after
  readdir-Serves s o d rep a p = elim (Option-cases (find d s.tree)) [
    | inl e ↦
        let gone : cb_readdir s.tree (to_string d) ≡ (enotdir, []) =
          readdir_missing s.tree d a p rep.closed e in
        (s, _, rw (gone, dispatch) refl, Spec.entries_missing d (rep.absent d e), rep)
    | inr ((it, stat), e) ↦
        let (c, node) = rep.present d it stat e in
        (
          s,
          entries (pos 0) (cb_readdir s.tree (to_string d)).1,
          ap (λ r. ok (s, entries r.0 r.1)) (readdir_there s.tree d a p it stat e),
          Spec.entries_of d stat c _ node (
              readdir-node s.tree fs.node rep.absent rep.present d it stat rep.closed rep.once a p
                e),
          rep,
        )
  ]

  small-Serves :
      (s : Session) (o : Opens) (path : Bytes) (address : ℕ) (it : Iterator) (stat : Stat)
      (c : Option Bytes)
      → Represents h s fs o
      → IsLegal fs (opens path address) o
      → find (from_string path) s.tree ≡ some (it, stat)
      → fs.node (from_string path) ≡ some (stat, c)
      → too_big h stat ≡ false
      → Serves s o (opens path address)
  unfolding dispatch
  small-Serves s o path address it stat none rep legal e node small =
      let refused : fs.refused stat ≡ true = legal.1 stat node in
      let kept : fs.refused stat ≡ false = rep.limit stat ∙ small in absurd (ground arith)
  small-Serves s o path address it stat (some bytes) rep legal e node small =
      let kept : fs.refused stat ≡ false = rep.limit stat ∙ small in
      let (f, extracted, content) = rep.extracts _ it stat bytes e node in
      let o' : Opens = record { holds = set_holds o.holds address (some bytes) } in
      (
        opened s address f,
        handle (pos 0) (some address),
        rw (open_gives h s path address it stat f e small extracted, dispatch) refl,
        Spec.open_gives path address stat bytes node kept,
        subst (Represents h (opened s address f) fs)
            (sym (after_opened fs path address o stat bytes node kept))
            (with_streams h s fs o o' _ rep
              (set-IsStream o.holds s.files address (some bytes) (some f) rep.streams content)),
      )

  pub opens-Serves :
      (s : Session) (o : Opens) (path : Bytes) (address : ℕ)
      → Represents h s fs o
      → IsLegal fs (opens path address) o
      → Serves s o (opens path address)
  unfolding dispatch after cb_open
  opens-Serves s o path address rep legal = elim (Option-cases (find (from_string path) s.tree)) [
    | inl e ↦
        let gone : fs.node (from_string path) ≡ none = rep.absent _ e in
        (
          s,
          _,
          rw (e, dispatch, cb_open) refl,
          Spec.open_missing path address gone,
          subst (Represents h s fs) (sym (after_missing fs path address o gone)) rep,
        )
    | inr ((it, stat), e) ↦
        let (c, node) = rep.present _ it stat e in
        elim (Bool-cases (too_big h stat)) [
          | inl big ↦
              let refused : fs.refused stat ≡ true = rep.limit stat ∙ big in
              (
                s,
                _,
                rw (e, big, dispatch, cb_open) refl,
                Spec.open_refused path address stat c node refused,
                subst (Represents h s fs)
                    (sym (after_refused fs path address o stat c node refused)) rep,
              )
          | inr small ↦ small-Serves s o path address it stat c rep legal e node small
        ]
  ]

  pub reads-Serves :
      (s : Session) (o : Opens) (size n fh : ℕ) (bytes : Bytes)
      → Represents h s fs o
      → o.holds fh ≡ some bytes
      → size < 2 ^ 31
      → n < 2 ^ 63
      → Serves s o (reads size (pos n) fh)
  unfolding dispatch after
  reads-Serves s o size n fh bytes rep e small lt =
      let (f, there, content) = stream_of (o.holds fh) (s.files fh) bytes (rep.streams fh) e in
      let held : Holds fh bytes s = record { stream = f; there = there; content = content } in
      (
        after_read s fh size n f,
        _,
        rw (read_gives s fh size n bytes held small lt, dispatch) refl,
        Spec.read_slice size n fh bytes e,
        with_streams h s fs o o _ rep (
            keep-IsStream o.holds s.files fh bytes _ rep.streams e
              (read-content f size (pos n) ∙ content)),
      )

  pub releases-Serves :
      (s : Session) (o : Opens) (fh : ℕ) (bytes : Bytes)
      → Represents h s fs o
      → o.holds fh ≡ some bytes
      → Serves s o (releases fh)
  unfolding dispatch after cb_release
  releases-Serves s o fh bytes rep e =
      let (f, there, content) = stream_of (o.holds fh) (s.files fh) bytes (rep.streams fh) e in
      (
        record s { files = set_file s.files fh none },
        _,
        rw (there, dispatch, cb_release) refl,
        Spec.release_done fh,
        with_streams h s fs o (after fs (releases fh) o) _ rep
            (set-IsStream o.holds s.files fh none none rep.streams tt),
      )
