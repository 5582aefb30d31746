-- ===== src/Archive/Opening/Laws.antt =====
-- `open_archive` of src/7zip/Archive.cpp: which format an archive gets.
use fuse3_p7zip.Base.{
  Bytes, codes, ◌≡◌, refl, List, [], ◌∷◌, ◌++◌, false, beq_refl, ap, ◌∙◌, ◌≢◌, beq_ne,
}
use fuse3_p7zip.Base.Int.{ℤ, pos, ℤ-eq}
use fuse3_p7zip.Base.Outcome.{ok, throws}
use fuse3_p7zip.Host.{Host}
use fuse3_p7zip.Stream.Read.{ReadStream}
use fuse3_p7zip.Archive.Format.{Format, format_name}
use fuse3_p7zip.Archive.Opening.{Library, class_id_of, open_archive}

-- The stream at its start.
abbrev rewound : ReadStream → ReadStream
rewound s = record s { file = record s.file { position = 0 } }

module _ (h : Host) (lib : Library) where
  -- The stream as an attempt to open it with the handler of that class id leaves it, and its code.
  abbrev pub attempt : Bytes → ReadStream → ReadStream × ℤ
  attempt id s = (lib.create_object id).1.open_stream (rewound s)

  -- Every one of the formats has a class id, is created, and refuses the stream as those before it left it.
  abbrev pub Refuse : List Format → ReadStream → ReadStream → Type 0
  Refuse [] s t = s ≡ t
  Refuse (f ∷ fs) s t =
      (id : Bytes) × (class_id_of h lib f ≡ ok id)
      × (h.is_failed (lib.create_object id).0 ≡ false)
      × ((attempt id s).1 ≢ h.s_ok)
      × Refuse fs (attempt id s).0 t

  skip_refused :
      (f : Format) (fs : List Format) (s : ReadStream) (id : Bytes)
      → h.is_failed (pos 0) ≡ false
      → class_id_of h lib f ≡ ok id
      → h.is_failed (lib.create_object id).0 ≡ false
      → (attempt id s).1 ≢ h.s_ok
      → open_archive h lib (f ∷ fs) s ≡ open_archive h lib fs (attempt id s).0
  unfolding open_archive
  skip_refused f fs s id z known made refused =
      rw (z, known, made, beq_ne (attempt id s).1 h.s_ok refused, open_archive) refl

  take_accepted :
      (f : Format) (fs : List Format) (s : ReadStream) (id : Bytes) {text : Bytes}
      → h.is_failed (pos 0) ≡ false
      → class_id_of h lib f ≡ ok id
      → h.is_failed (lib.create_object id).0 ≡ false
      → (attempt id s).1 ≡ h.s_ok
      → format_name h lib.exports f ≡ ok text
      → open_archive h lib (f ∷ fs) s
        ≡ ok
            (record { format = f; candidate = (lib.create_object id).1; stream = (attempt id s).0 })
  unfolding open_archive
  take_accepted f fs s id z known made accepted named =
      rw (z, known, made, accepted, beq_refl h.s_ok, named, open_archive) refl

  -- If every format before one has a class id, for which a handler can be created that refuses the
  -- stream, each from its start, as those before left it, and that one has a class id, for which a
  -- handler can be created that accepts, and a name, then open_archive returns it with its handler
  -- and the stream, whatever formats come after. S_OK's value 0 is no failure code.
  pub open_archive-first :
      (before after : List Format) (f : Format) (id : Bytes) (s t : ReadStream) {text : Bytes}
      → h.is_failed (pos 0) ≡ false
      → Refuse before s t
      → class_id_of h lib f ≡ ok id
      → h.is_failed (lib.create_object id).0 ≡ false
      → (attempt id t).1 ≡ h.s_ok
      → format_name h lib.exports f ≡ ok text
      → open_archive h lib (before ++ (f ∷ after)) s
        ≡ ok
            (record { format = f; candidate = (lib.create_object id).1; stream = (attempt id t).0 })
  open_archive-first [] after f id s t z e known made accepted named =
      ap (open_archive h lib (f ∷ after)) e ∙ take_accepted f after t id z known made accepted named
  open_archive-first (g ∷ before) after f id s t z (j, known', made', refused, rest) known made
        accepted named =
      skip_refused g (before ++ (f ∷ after)) s j z known' made' refused
      ∙ open_archive-first before after f id (attempt j s).0 t z rest known made accepted named

  -- If every format has a class id, for which a handler can be created that refuses the stream,
  -- from its start, as those before left it, open_archive throws ERROR_INVALID_DATA. 0 is no
  -- failure code.
  open_archive-none :
      (formats : List Format) (s t : ReadStream)
      → h.is_failed (pos 0) ≡ false
      → Refuse formats s t
      → open_archive h lib formats s ≡ throws (codes "ERROR_INVALID_DATA")
  unfolding open_archive
  open_archive-none [] s t z e = refl
  open_archive-none (f ∷ fs) s t z (id, known, made, refused, rest) =
      skip_refused f fs s id z known made refused ∙ open_archive-none fs (attempt id s).0 t z rest
