-- ===== src/Archive/Extractor.antt =====
-- ImplArchiveExtractor of src/7zip/ArchiveExtractor.cpp.
pub mod Laws
pub mod Played
use fuse3_p7zip.Base.{
  ℕ, zero, suc, ◌+◌, Bytes, codes, ◌≡◌, Bool, true, false, List, [], ◌∷◌, Option, none, some,
  if◌then◌else◌,
}
use fuse3_p7zip.Base.Int.{ℤ, pos}
use fuse3_p7zip.Base.Outcome.{Outcome, ok, throws, fault, noexcept, ◌>>=◌}
use fuse3_p7zip.Host.{Host, Sys}
use fuse3_p7zip.Exception.{check_com}
use fuse3_p7zip.Com
use fuse3_p7zip.Text.Encoding.{wide_str}
use fuse3_p7zip.Stdio.{File, Whence}
use fuse3_p7zip.Stream.Write.{open_temporary, write_com, seek_com}
use fuse3_p7zip.Stream.Write
use fuse3_p7zip.Archive.Callback.{
  AskMode, extract, test, skip, Call, set_total, set_completed, get_stream, prepare_operation,
  set_operation_result, get_password, write, seek, set_size, release,
}
use fuse3_p7zip.Archive.Property.{Handler}

-- The password of the callback, `total`, the stream that `file` points to with its counter, and
-- whether the library holds the pointer that GetStream gave. `none` is a stream that deleted itself.
pub record Extractor : Type 0 where
  pub password : Bytes
  pub total : ℕ
  pub file : Option File
  pub refs : ℕ
  pub granted : Bool

-- ExtractCallback::notify_progress of include/7zip.hpp
abbrev pub notify_progress : ℕ → ℕ → Bool
notify_progress current of = true

module _ (h : Host) where
  progress : ℕ → ℕ → ℤ
  progress current of = if notify_progress current of then h.s_ok else h.s_false

  -- The stream, if the library holds it and it is there.
  held : Extractor → Outcome File
  held x = elim x.file [ none ↦ fault | some f ↦ if x.granted then ok f else fault ]

  -- One call of the library, in a release build: the state that it leaves, and the code. The
  -- callbacks are noexcept.
  unfoldable pub call : Call → Extractor → Outcome (Extractor × ℤ)
  unfolding progress held write_com seek_com Write.set_size wide_str Com.release noexcept
  call (set_total size) x = ok (record x { total = size }, progress 0 size)
  call (set_completed none) x = ok (x, h.s_ok)
  call (set_completed (some done)) x = ok (x, progress done x.total)
  call (get_stream index extract) x = elim x.file [
    | none ↦ fault
    | some f ↦ ok (record x { granted = true }, h.s_ok)
  ]
  call (get_stream index mode) x = ok (record x { granted = false }, h.s_ok)
  call (prepare_operation mode) x = ok (x, h.s_ok)
  call (set_operation_result result) x = ok (x, h.s_ok)
  call get_password x = noexcept (wide_str h x.password >>= λ _. ok (x, h.s_ok))
  call (write bytes) x =
      held x >>= λ f. let (g, res, _) = write_com bytes f in ok (record x { file = some g }, res)
  call (seek offset whence) x = held x >>= λ f.
      let (g, res, _) = seek_com offset whence f in ok (record x { file = some g }, res)
  call (set_size n) x =
      held x >>= λ f. Write.set_size n f >>= λ r. ok (record x { file = some r.0 }, r.1)
  call release x = held x >>= λ f. elim (Com.release x.refs) [
    | none ↦ ok (record x { file = none; refs = 0; granted = false }, pos 0)
    | some left ↦ ok (record x { refs = left; granted = false }, pos left)
  ]

  unfoldable pub calls : List Call → Extractor → Outcome Extractor
  calls [] x = ok x
  calls (c ∷ cs) x = call c x >>= λ r. calls cs r.0

  -- A fresh stream counts 1; `AddRef` makes it 2.
  unfoldable pub start : Bytes → File → Extractor
  unfolding Com.add_ref
  start password f = record {
    password = password;
    total = 0;
    file = some f;
    refs = Com.add_ref Com.first_count;
    granted = false;
  }

  -- The last two lines of `execute`: a stream that is gone is followed all the same.
  finish : Extractor → Outcome File
  unfolding Write.seek
  finish x = elim x.file [ none ↦ fault | some f ↦ ok (Write.seek 0 Whence.set f).0 ]

  -- `execute(index, test)`, over the result of `tmpfile()`.
  unfoldable pub execute : Handler → Bytes → ℕ → Sys File → Outcome File
  unfolding open_temporary start calls check_com finish
  execute arc password index tmpfile = do
    f ← open_temporary h tmpfile
    x ← calls (arc.extract index).0 (start password f)
    _ ← check_com h (arc.extract index).1 (codes "Extract")
    finish x
