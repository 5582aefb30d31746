-- ===== src/Archive/Lifetime/Laws.antt =====
-- What is left of the file of an archive (src/7zip/Archive.cpp, src/7zip/ReadStream.cpp).
use fuse3_p7zip.Base.{
  ℕ, ◌+◌, Bytes, ◌≡◌, refl, ap, ◌∙◌, false, List, [], ◌∷◌, none, some, ◌==◌, Bool-cases, both, inl,
  inr, arith,
}
use fuse3_p7zip.Base.Int.{ℤ, pos, ℤ-eq}
use fuse3_p7zip.Base.Outcome.{Outcome, ok, throws, fault, Outcome-cases, ◌>>=◌}
use fuse3_p7zip.Host.{Host}
use fuse3_p7zip.FilePath.{FilePath}
use fuse3_p7zip.Stdio.{Whence}
use fuse3_p7zip.Stream.Read
use fuse3_p7zip.Stream.Read.{ReadStream, Disk, open_stream}
use fuse3_p7zip.Archive.Format.{Format}
use fuse3_p7zip.Archive.Iterator.{Archive}
use fuse3_p7zip.Archive.Opening.{Library, Opened, class_id_of, open_archive, init_props, open_file}
use fuse3_p7zip.Archive.Lifetime.{
  Keeper, Store, Held, Holding, touch_all, release_arc, destruct, unwind, holding_then, try_formats,
  construct, construct_with, construct_stream,
}
use fuse3_p7zip.Archive.Lifetime.Counting.{GivesBack, deleted, touch_all-in_open}
use fuse3_p7zip.Archive.Lifetime.Owned.{
  Owns, OwnsAfter, release_arc-Owns, destruct_members-Owns, destruct-Owns, kept-OwnsAfter,
  holding_then-outcome, unwind-outcome,
}

module _ (h : Host) (lib : Library) (keeper : Format → Keeper) where
  -- The stream as the handler of that class id leaves it, and what is held then.
  abbrev left : Bytes → ReadStream → ReadStream × ℤ
  left id stream = (lib.create_object id).1.open_stream (Read.seek (pos 0) Whence.set stream).0

  abbrev readied : Format → Held → Held
  readied f held = (some (keeper f), touch_all (keeper f).in_open (release_arc held))

  try_formats-outcome :
      (fs : List Format) (stream : ReadStream) (held : Held)
      → (try_formats h lib keeper fs stream held).0 ≡ open_archive h lib fs stream
  unfolding try_formats open_archive holding_then
  try_formats-outcome [] stream held = refl
  try_formats-outcome (f ∷ fs) stream held = elim (Outcome-cases (class_id_of h lib f)) [
    | inl (id, known) ↦
        let rest = try_formats-outcome fs (left id stream).0 (readied f held) in
        rw (known, try_formats, open_archive) (ground (arith, rest))
    | inr (inl (m, fails)) ↦ rw (fails, try_formats, open_archive) (ground arith)
    | inr (inr faults) ↦ rw (faults, try_formats, open_archive) (ground arith)
  ]

  accepted-OwnsAfter :
      (files : ℕ) (f : Format) (fs : List Format) (stream : ReadStream) (held : Held)
      → Owns files (readied f held)
      → ((id : Bytes)
          → OwnsAfter files (try_formats h lib keeper fs (left id stream).0 (readied f held)))
      → Owns files held
      → Owns files (none, release_arc held)
      → OwnsAfter files (try_formats h lib keeper (f ∷ fs) stream held)
  unfolding try_formats holding_then
  accepted-OwnsAfter files f fs stream held ready rest own freed =
      elim (Bool-cases (h.is_failed (Read.seek (pos 0) Whence.set stream).1)) [
        | inl bad ↦ rw bad own
        | inr good ↦ rw good (elim (Outcome-cases (class_id_of h lib f)) [
          | inl (id, known) ↦ rw known (elim (Bool-cases (h.is_failed (lib.create_object id).0)) [
            | inl bad ↦ rw bad freed
            | inr made ↦ rw made (
                both (OwnsAfter files) ((left id stream).1 == h.s_ok)
                  (kept-OwnsAfter files _ (keeper f) (readied f held).1 ready) (rest id))
          ])
          | inr (inl (m, fails)) ↦ rw fails own
          | inr (inr faults) ↦ rw faults tt
        ])
      ]

  try_formats-OwnsAfter :
      ((f : Format) → GivesBack (keeper f))
      → (files : ℕ) (fs : List Format) (stream : ReadStream) (held : Held) → Owns files held
      → OwnsAfter files (try_formats h lib keeper fs stream held)
  unfolding try_formats
  try_formats-OwnsAfter g files [] stream held o = o
  try_formats-OwnsAfter g files (f ∷ fs) stream held o =
      let freed = release_arc-Owns files held o in
      let ready : Owns files (readied f held) =
        (g f, ap (touch_all (keeper f).in_open) freed ∙ touch_all-in_open (g f) files) in
      accepted-OwnsAfter files f fs stream held ready
        (λ id. try_formats-OwnsAfter g files fs (left id stream).0 (readied f held) ready) o freed

  abbrev archive_of : ℕ → FilePath → ReadStream → Opened → ℕ → Archive
  archive_of address path stream o size = record {
    address = address;
    path = path;
    stat = stream.stat;
    format = o.format;
    handler = o.candidate.handler;
    size = size;
  }

  abbrev body : ℕ → FilePath → ReadStream → Opened → Outcome Archive
  body address path stream o =
      init_props h lib o.candidate >>= λ size. ok (archive_of address path stream o size)

  construct_with-outcome :
      (address : ℕ) (path : FilePath) (s : Store) (o : Outcome ReadStream)
      → (construct_with h lib keeper address path s o).0
        ≡ (o >>= λ stream. open_archive h lib lib.formats stream >>= body address path stream)
  unfolding construct_with
  construct_with-outcome address path s (ok stream) =
      let held : Held = (none, construct_stream s) in
      unwind-outcome _
      ∙ holding_then-outcome (try_formats h lib keeper lib.formats stream held)
          (λ o after. (body address path stream o, after)) (body address path stream)
          (λ o after. refl)
      ∙ ap (λ t. t >>= body address path stream) (try_formats-outcome lib.formats stream held)
  construct_with-outcome address path s (throws m) = refl
  construct_with-outcome address path s fault = refl

-- One file more is open, and the destructor closes it; or nothing is left.
abbrev pub IsClear {ℓ} : {A : Type ℓ} → ℕ → Holding A → Type 0
IsClear files (ok a, held) =
    (held.1.files ≡ files + 1) × (held.1.misused ≡ false) × (destruct held ≡ deleted files)
IsClear files (throws m, held) = held ≡ (none, deleted files)
IsClear files (fault, held) = Unit

unwind-IsClear {ℓ} :
    {A : Type ℓ} (files : ℕ) (r : Holding A) → OwnsAfter (files + 1) r → IsClear files (unwind r)
unfolding unwind
unwind-IsClear files (ok a, (none, s)) o = absurd o
unwind-IsClear files (ok a, (some k, s)) (g, e) =
    (ap (λ t. t.files) e, ap (λ t. t.misused) e, destruct-Owns files k s (g, e))
unwind-IsClear files (throws m, held) o = ap (λ t. (none, t)) (destruct_members-Owns files held o)
unwind-IsClear files (fault, held) o = tt

-- What follows, with the same handler.
after-OwnsAfter {ℓ κ} :
    {A : Type ℓ} {B : Type κ} (files : ℕ) (r : Holding A) (f : A → Outcome B)
    → OwnsAfter files r
    → OwnsAfter files (holding_then r λ a held. (f a, held))
unfolding holding_then
after-OwnsAfter files (ok a, (none, s)) f o = absurd o
after-OwnsAfter files (ok a, (some k, s)) f o = kept-OwnsAfter files (f a) k s o
after-OwnsAfter files (throws m, held) f o = o
after-OwnsAfter files (fault, held) f o = tt

module _ (h : Host) (lib : Library) (keeper : Format → Keeper)
    (g : (f : Format) → GivesBack (keeper f)) where
  construct_with-IsClear :
      (address : ℕ) (path : FilePath) (files : ℕ) (o : Outcome ReadStream)
      → IsClear files (construct_with h lib keeper address path (deleted files) o)
  unfolding construct_with construct_stream
  construct_with-IsClear address path files (ok stream) =
      let held : Held = (none, construct_stream (deleted files)) in
      unwind-IsClear files _ (
        after-OwnsAfter (files + 1) (try_formats h lib keeper lib.formats stream held)
          (body h lib keeper address path stream)
          (try_formats-OwnsAfter h lib keeper g (files + 1) lib.formats stream held refl))
  construct_with-IsClear address path files (throws m) = refl
  construct_with-IsClear address path files fault = tt

  -- If every handler gives back each reference to the stream that it takes, in Close or when it is
  -- deleted, and when it is deleted without Close, and makes fewer calls than the counter can
  -- count, then, from no stream on: the constructor of ImplArchive has the same outcome as
  -- open_file; where it returns, just one file more is open, and its destructor closes that; where
  -- it throws, no file is left open and nothing is held; and no object is called that is deleted.
  pub construct-IsClear :
      (disk : Disk) (address : ℕ) (path : FilePath) (files : ℕ)
      → let r = construct h lib keeper disk address path (deleted files) in
        (r.0 ≡ open_file h lib disk address path) × IsClear files r
  unfolding construct open_file
  construct-IsClear disk address path files = (
    construct_with-outcome h lib keeper address path (deleted files) (open_stream h disk path),
    construct_with-IsClear address path files (open_stream h disk path),
  )
