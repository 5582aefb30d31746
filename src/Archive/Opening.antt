-- ===== src/Archive/Opening.antt =====
-- How ImplArchive opens a file: its constructor, `open_archive` and `init_props` of
-- src/7zip/Archive.cpp.
pub mod Laws
pub mod Callbacks
pub mod Sizes
pub mod Messages
use fuse3_p7zip.Base.{
  ℕ, Bytes, codes, ◌≡◌, Bool, true, false, List, [], ◌∷◌, Option, none, some, ◌==◌, if◌then◌else◌,
}
use fuse3_p7zip.Base.Int.{ℤ, pos, ℤ-eq}
use fuse3_p7zip.Base.Outcome.{Outcome, ok, throws, fault, ◌>>=◌}
use fuse3_p7zip.Host.{Host}
use fuse3_p7zip.Exception.{check_com}
use fuse3_p7zip.FilePath.{FilePath}
use fuse3_p7zip.Stdio.{Whence}
use fuse3_p7zip.Stream.Read
use fuse3_p7zip.Stream.Read.{ReadStream, Disk, open_stream}
use fuse3_p7zip.Archive.Property.{Handler}
use fuse3_p7zip.Archive.Format.{Exports, Format, format_name}
use fuse3_p7zip.Archive.Format.Members.{guid}
use fuse3_p7zip.Archive.Iterator.{Archive}

-- What `CreateObject` makes for a class id: the handler that `Open` readies, the stream as `Open`
-- leaves it with the code, and the code and value of GetNumberOfArchiveProperties.
pub record Candidate : Type 0 where
  pub handler : Handler
  pub open_stream : ReadStream → ReadStream × ℤ
  pub get_number_of_archive_properties : ℤ × ℕ

-- The library: its exports, and `CreateObject` for a class id and IID_IInArchive.
pub record Library : Type 0 where
  pub exports : Exports
  pub formats : List Format
  pub create_object : Bytes → ℤ × Candidate

pub record Opened : Type 0 where
  pub format : Format
  pub candidate : Candidate
  pub stream : ReadStream

module _ (h : Host) (lib : Library) where
  -- The class id that `CreateObject` reads behind `it->guid()`, before which `_guid` is not set: to
  -- read it is undefined then.
  unfoldable pub class_id_of : Format → Outcome Bytes
  unfolding guid
  class_id_of f = guid h lib.exports f none >>= λ kept. elim kept [ none ↦ fault | some id ↦ ok id ]

  -- `open_archive`, over the formats that are left. The name of the selected one is read to log it.
  unfoldable pub open_archive : List Format → ReadStream → Outcome Opened
  unfolding Read.seek check_com class_id_of format_name ℤ-eq
  open_archive [] stream = throws (codes "ERROR_INVALID_DATA")
  open_archive (f ∷ fs) stream = do
    let (start, res, _) = Read.seek (pos 0) Whence.set stream
    _ ← check_com h res (codes "Seek")
    id ← class_id_of f
    let (created, c) = lib.create_object id
    _ ← check_com h created (codes "CreateObject")
    let (left, code) = c.open_stream start
    let rest = open_archive fs left
    if code == h.s_ok
        then (format_name h lib.exports f >>= λ _.
            ok (record { format = f; candidate = c; stream = left }))
        else rest

  -- `init_props`
  unfoldable pub init_props : Candidate → Outcome ℕ
  unfolding check_com
  init_props c = do
    _ ← check_com h c.handler.get_number_of_items.0 (codes "GetNumberOfItems")
    _ ← check_com h c.get_number_of_archive_properties.0 (codes "GetNumberOfArchiveProperties")
    ok c.handler.get_number_of_items.1

  -- The constructor, for an object at that address.
  unfoldable pub open_file : Disk → ℕ → FilePath → Outcome Archive
  unfolding open_stream open_archive init_props
  open_file disk address path = do
    stream ← open_stream h disk path
    o ← open_archive lib.formats stream
    size ← init_props o.candidate
    ok (record {
      address = address;
      path = path;
      stat = stream.stat;
      format = o.format;
      handler = o.candidate.handler;
      size = size;
    })
