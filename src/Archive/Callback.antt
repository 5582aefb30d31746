-- ===== src/Archive/Callback.antt =====
-- What the 7zip library calls while it extracts an item: IArchiveExtractCallback,
-- ICryptoGetTextPassword and the stream that GetStream hands out.
use fuse3_p7zip.Base.{ℕ, Bytes, Option}
use fuse3_p7zip.Base.Int.{ℤ}
use fuse3_p7zip.Stdio.{Whence}

-- NArchive::NExtract::NAskMode
pub data AskMode : Type 0 where
  extract test skip : AskMode

pub data Call : Type 0 where
  set_total : ℕ → Call
  -- A null pointer is `none`.
  set_completed : Option ℕ → Call
  get_stream : ℕ → AskMode → Call
  prepare_operation : AskMode → Call
  set_operation_result : ℕ → Call
  get_password : Call
  -- IOutStream, and the reference that the caller of GetStream owns
  write : Bytes → Call
  seek : ℤ → Whence → Call
  set_size : ℕ → Call
  release : Call
