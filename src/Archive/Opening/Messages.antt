-- ===== src/Archive/Opening/Messages.antt =====
-- What `open_archive` of src/7zip/Archive.cpp logs.
use fuse3_p7zip.Base.{
  Bytes, codes, ◌≡◌, refl, Bool-cases, List, [], ◌∷◌, ◌++◌, inl, inr, ◌==◌, if◌then◌else◌,
}
use fuse3_p7zip.Base.Int.{pos, ℤ-eq}
use fuse3_p7zip.Base.Outcome.{
  Outcome, ok, throws, fault, Outcome-cases, Ensures, returned, thrown, faulted,
}
use fuse3_p7zip.Host.{Host}
use fuse3_p7zip.Exception.{check_com}
use fuse3_p7zip.Stdio.{Whence}
use fuse3_p7zip.Stream.Read
use fuse3_p7zip.Stream.Read.{ReadStream}
use fuse3_p7zip.Archive.Format.{Format, format_name}
use fuse3_p7zip.Archive.Opening.{Library, Opened, class_id_of, open_archive}

-- `log().printf("selected format: %s", it->name().c_str())`
unfoldable pub selected : Outcome Bytes → List Bytes
selected (ok name) = (codes "selected format: " ++ name) ∷ []
selected (throws m) = []
selected fault = []

module _ (h : Host) (lib : Library) where
  -- The messages of the loop over the formats that are left.
  unfoldable pub open_messages : List Format → ReadStream → List Bytes
  unfolding Read.seek ℤ-eq selected format_name class_id_of
  open_messages [] stream = []
  open_messages (f ∷ fs) stream =
      let (start, res, _) = Read.seek (pos 0) Whence.set stream in
      if h.is_failed res then [] else elim (class_id_of h lib f) [
        | ok id ↦
            let (created, c) = lib.create_object id in
            let (left, code) = c.open_stream start in
            let rest = open_messages fs left in
            if h.is_failed created
            then []
            else if code == h.s_ok
            then selected (format_name h lib.exports f)
            else rest
        | throws m ↦ []
        | fault ↦ []
      ]

  abbrev pub Names : List Bytes → Opened → Type 0
  Names messages o =
      (name : Bytes) × (format_name h lib.exports o.format ≡ ok name)
      × (messages ≡ (codes "selected format: " ++ name) ∷ [])

  -- Where a format is selected, one message names it.
  pub open_messages-Names :
      (fs : List Format) (stream : ReadStream)
      → Ensures (Names (open_messages fs stream)) (open_archive h lib fs stream)
  unfolding open_messages open_archive check_com selected
  open_messages-Names [] stream = thrown
  open_messages-Names (f ∷ fs) stream =
      let start = (Read.seek (pos 0) Whence.set stream).0 in
      elim (Bool-cases (h.is_failed (Read.seek (pos 0) Whence.set stream).1)) [
        | inl bad ↦ rw (bad, open_archive) thrown
        | inr good ↦ elim (Outcome-cases (class_id_of h lib f)) [
          | inl (id, known) ↦
              let left = (lib.create_object id).1.open_stream start in
              elim (Bool-cases (h.is_failed (lib.create_object id).0)) [
                | inl bad ↦ rw (good, known, bad, open_archive) thrown
                | inr made ↦ elim (Bool-cases (left.1 == h.s_ok)) [
                  | inl accepts ↦ elim (Outcome-cases (format_name h lib.exports f)) [
                    | inl (name, named) ↦
                        rw (good, known, made, accepts, named, open_archive, open_messages)
                          (returned (name, named, refl))
                    | inr (inl (m, fails)) ↦
                        rw (good, known, made, accepts, fails, open_archive) thrown
                    | inr (inr faults) ↦
                        rw (good, known, made, accepts, faults, open_archive) faulted
                  ]
                  | inr refuses ↦
                      rw (good, known, made, refuses, open_archive, open_messages)
                        (open_messages-Names fs left.0)
                ]
              ]
          | inr (inl (m, fails)) ↦ rw (good, fails, open_archive) thrown
          | inr (inr faults) ↦ rw (good, faults, open_archive) faulted
        ]
      ]
