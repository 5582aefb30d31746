-- ===== src/Com/Classes.antt =====
-- IUnknown as an interface, and the four classes of the program that implement it: FileReadStream,
-- FileWriteStream, ImplArchive and ImplArchiveExtractor.
use fuse3_p7zip.Base.{ℕ, ◌+◌, ◌<◌, ◌≡◌, Bool, true, List, Option, none, some, arith}
use fuse3_p7zip.Host.{Host}
use fuse3_p7zip.Com.{
  Iid, unknown, Answer, word32, add_ref, release, query_interface, read_stream_ids,
  write_stream_ids, archive_ids, extractor_ids,
}
use fuse3_p7zip.Com.Laws.{release-add_ref}

-- The members, over the counter.
pub record Unknown : Type 0 where
  pub add_ref : ℕ → ℕ
  pub release : ℕ → Option ℕ
  pub query_interface : Bool → Iid → ℕ → Answer

-- The rules of COM: Release undoes AddRef; every object gives IUnknown; an interface that is given
-- comes with a reference, and one that is not leaves a null pointer and the counter as it was; and
-- what is given does not change with the references.
pub record IsUnknown (h : Host) (u : Unknown) : Type 0 where
  pub undoes :
      (count : ℕ) → 0 < count → count + 1 < word32 → u.release (u.add_ref count) ≡ some count
  pub gives_unknown : (count : ℕ) → (u.query_interface true unknown count).object ≡ some unknown
  pub counts :
      (object : Bool) (riid : Iid) (count : ℕ)
      → (u.query_interface object riid count).object ≡ some riid
      → (u.query_interface object riid count).count ≡ u.add_ref count
  pub refuses :
      (object : Bool) (riid : Iid) (count : ℕ)
      → (u.query_interface object riid count).object ≡ none
      → (u.query_interface object riid count).count ≡ count
  pub is_static :
      (object : Bool) (riid : Iid) (count other : ℕ)
      → (u.query_interface object riid count).object ≡ (u.query_interface object riid other).object

module _ (h : Host) where
  -- A class that implements those interfaces.
  unfoldable pub class_of : List Iid → Unknown
  unfolding add_ref release query_interface
  class_of ids = record {
    add_ref = add_ref;
    release = release;
    query_interface = query_interface h ids;
  }

  unfoldable pub file_read_stream : Unknown
  unfolding class_of
  file_read_stream = class_of read_stream_ids

  unfoldable pub file_write_stream : Unknown
  unfolding class_of
  file_write_stream = class_of write_stream_ids

  unfoldable pub impl_archive : Unknown
  unfolding class_of
  impl_archive = class_of archive_ids

  unfoldable pub impl_archive_extractor : Unknown
  unfolding class_of
  impl_archive_extractor = class_of extractor_ids

  class_of-IsUnknown : (ids : List Iid) → IsUnknown h (class_of ids)
  unfolding class_of query_interface
  class_of-IsUnknown ids = record {
    undoes = release-add_ref;
    gives_unknown = λ count. ground arith;
    counts = λ object riid count e. ground (arith, e);
    refuses = λ object riid count e. ground (arith, e);
    is_static = λ object riid count other. ground arith;
  }

  -- Each of the four classes keeps the rules of COM.
  classes-IsUnknown :
      IsUnknown h file_read_stream
      × IsUnknown h file_write_stream
      × IsUnknown h impl_archive
      × IsUnknown h impl_archive_extractor
  unfolding file_read_stream file_write_stream impl_archive impl_archive_extractor
  classes-IsUnknown = (
    class_of-IsUnknown read_stream_ids,
    class_of-IsUnknown write_stream_ids,
    class_of-IsUnknown archive_ids,
    class_of-IsUnknown extractor_ids,
  )
