-- ===== src/Archive/Extractor/Played.antt =====
-- An extraction (src/7zip/ArchiveExtractor.cpp) by a library that moves in the stream: what it does
-- to the temporary file, by the calls of the stream alone.
use fuse3_p7zip.Base.{
  ℕ, ◌≤◌, Bytes, ◌≡◌, refl, ◌∙◌, take, Bool, true, false, List, [], ◌∷◌, none, some, arith,
}
use fuse3_p7zip.Base.Int.{ℤ}
use fuse3_p7zip.Base.Outcome.{ok, noexcept}
use fuse3_p7zip.Host.{Host, done}
use fuse3_p7zip.Text.Encoding.{Wide, wide_str}
use fuse3_p7zip.Stdio.{File, Whence, new_file, fwrite, fseek, ftruncate, pad}
use fuse3_p7zip.Stream.Write.{check_error, seek_com}
use fuse3_p7zip.Stream.Write
use fuse3_p7zip.Archive.Callback.{
  extract, test, skip, Call, set_total, set_completed, get_stream, prepare_operation,
  set_operation_result, get_password, write, seek, set_size, release,
}
use fuse3_p7zip.Archive.Property.{Handler}
use fuse3_p7zip.Archive.Extractor.{call, calls, execute}
use fuse3_p7zip.Archive.Extractor.Laws.{
  running, call-write, call-release, password_call, Leaves, after_call,
}

-- How the library may use the callbacks and a stream with that much room: as IsOrderly of Laws has
-- it, and it may also move, and set a size that there is room for.
abbrev pub IsUsable : ℕ → Bool → Bool → List Call → Type 0
IsUsable room held back [] = Unit
IsUsable room held back (write bytes ∷ cs) = (held ≡ true) × IsUsable room held back cs
IsUsable room held back (seek offset whence ∷ cs) = (held ≡ true) × IsUsable room held back cs
IsUsable room held back (set_size n ∷ cs) = (held ≡ true) × (n ≤ room) × IsUsable room held back cs
IsUsable room held back (get_stream index extract ∷ cs) =
    (back ≡ false) × IsUsable room true back cs
IsUsable room held back (get_stream index test ∷ cs) = IsUsable room false back cs
IsUsable room held back (get_stream index skip ∷ cs) = IsUsable room false back cs
IsUsable room held back (release ∷ cs) =
    (held ≡ true) × (back ≡ false) × IsUsable room false true cs
IsUsable room held back (set_total n ∷ cs) = IsUsable room held back cs
IsUsable room held back (set_completed n ∷ cs) = IsUsable room held back cs
IsUsable room held back (prepare_operation mode ∷ cs) = IsUsable room held back cs
IsUsable room held back (set_operation_result n ∷ cs) = IsUsable room held back cs
IsUsable room held back (get_password ∷ cs) = IsUsable room held back cs

-- The file with that size, at the same place.
abbrev pub resized : ℕ → File → File
resized n f = record f { content = take n (pad n f.content) }

-- What the calls of the stream do, in order; no other call does anything to it.
abbrev pub played : List Call → File → File
played [] f = f
played (write bytes ∷ cs) f = played cs (fwrite bytes f).0
played (seek offset whence ∷ cs) f = played cs (fseek offset whence f).0
played (set_size n ∷ cs) f = played cs (resized n f)
played (get_stream index mode ∷ cs) f = played cs f
played (release ∷ cs) f = played cs f
played (set_total n ∷ cs) f = played cs f
played (set_completed n ∷ cs) f = played cs f
played (prepare_operation mode ∷ cs) f = played cs f
played (set_operation_result n ∷ cs) f = played cs f
played (get_password ∷ cs) f = played cs f

fwrite-room : (bytes : Bytes) (f : File) → (fwrite bytes f).0.room ≡ f.room
unfolding fwrite
fwrite-room bytes f = refl

fseek-room : (offset : ℤ) (whence : Whence) (f : File) → (fseek offset whence f).0.room ≡ f.room
unfolding fseek
fseek-room offset whence f = ground arith

set_size-resized :
    (n : ℕ) (f : File) → n ≤ f.room → Write.set_size n f ≡ ok (resized n f, check_error f)
unfolding Write.set_size ftruncate fseek check_error noexcept
set_size-resized n f le = ground arith

module _ (h : Host) (password : Bytes) {w : Wide} (decodes : wide_str h password ≡ ok w) where
  call-seek :
      (offset : ℤ) (whence : Whence) (total : ℕ) (f : File) (back : Bool)
      → call h (seek offset whence) (running password total f true back)
        ≡ ok (
          running password total (fseek offset whence f).0 true back,
          check_error (fseek offset whence f).0,
        )
  unfolding call seek_com
  call-seek offset whence total f back = refl

  call-set_size :
      (n total : ℕ) (f : File) (back : Bool)
      → n ≤ f.room
      → call h (set_size n) (running password total f true back)
        ≡ ok (running password total (resized n f) true back, check_error f)
  unfolding call
  call-set_size n total f back le = rw (set_size-resized n f le) refl

  calls-played :
      (cs : List Call) (room total : ℕ) (f : File) (held back : Bool)
      → f.room ≡ room
      → IsUsable room held back cs
      → Leaves h password decodes cs (running password total f held back) (played cs f)
  unfolding calls call
  calls-played [] room total f held back r o = (running password total f held back, refl, refl)
  calls-played (write bytes ∷ cs) room total f false back r o = absurd (ground (arith, o.0))
  calls-played (write bytes ∷ cs) room total f true back r (_, o) =
      after_call h password decodes (write bytes) cs (running password total f true back)
        (call-write h password decodes bytes total f back)
        (calls-played cs room total (fwrite bytes f).0 true back (fwrite-room bytes f ∙ r) o)
  calls-played (seek offset whence ∷ cs) room total f false back r o = absurd (ground (arith, o.0))
  calls-played (seek offset whence ∷ cs) room total f true back r (_, o) =
      after_call h password decodes (seek offset whence) cs (running password total f true back)
        (call-seek offset whence total f back)
        (calls-played cs room total (fseek offset whence f).0 true back
          (fseek-room offset whence f ∙ r) o)
  calls-played (set_size n ∷ cs) room total f false back r o = absurd (ground (arith, o.0))
  calls-played (set_size n ∷ cs) room total f true back r (_, le, o) =
      after_call h password decodes (set_size n) cs (running password total f true back)
        (call-set_size n total f back (omega (arith, r, le)))
        (calls-played cs room total (resized n f) true back r o)
  calls-played (release ∷ cs) room total f true false r (_, _, o) =
      after_call h password decodes release cs (running password total f true false)
        (call-release h password decodes total f) (calls-played cs room total f false true r o)
  calls-played (release ∷ cs) room total f true true r (_, b, _) = absurd (ground (arith, b))
  calls-played (release ∷ cs) room total f false back r (a, _, _) = absurd (ground (arith, a))
  calls-played (get_stream index extract ∷ cs) room total f held back r (_, o) =
      calls-played cs room total f true back r o
  calls-played (get_stream index test ∷ cs) room total f held back r o =
      calls-played cs room total f false back r o
  calls-played (get_stream index skip ∷ cs) room total f held back r o =
      calls-played cs room total f false back r o
  calls-played (set_total n ∷ cs) room total f held back r o =
      calls-played cs room n f held back r o
  calls-played (set_completed none ∷ cs) room total f held back r o =
      calls-played cs room total f held back r o
  calls-played (set_completed (some n) ∷ cs) room total f held back r o =
      calls-played cs room total f held back r o
  calls-played (prepare_operation mode ∷ cs) room total f held back r o =
      calls-played cs room total f held back r o
  calls-played (set_operation_result n ∷ cs) room total f held back r o =
      calls-played cs room total f held back r o
  calls-played (get_password ∷ cs) room total f held back r o =
      after_call h password decodes get_password cs (running password total f held back)
        (password_call h password decodes total f held back)
        (calls-played cs room total f held back r o)

-- A handler that uses the callbacks in order, and may also seek, and set a size that the temporary
-- file has room for, and whose Extract gives no failure code, with a password that decodes:
-- `execute` returns the temporary file as the writes, the seeks and the sizes alone make it, one
-- after the other, and no other call changes it; it stands at its start. There need not be room
-- for all that is written.
pub execute-played :
    (h : Host) (arc : Handler) (password : Bytes) (index room : ℕ) {w : Wide}
    → wide_str h password ≡ ok w
    → IsUsable room false false (arc.extract index).0
    → h.is_failed (arc.extract index).1 ≡ false
    → execute h arc password index (done (new_file room))
      ≡ ok (record (played (arc.extract index).0 (new_file room)) { position = 0 })
unfolding execute new_file
execute-played h arc password index room decodes usable success =
    let (y, ran, left) =
      calls-played h password decodes (arc.extract index).0 room 0 (new_file room) false false refl
        usable in
    ground (arith, ran, left)
