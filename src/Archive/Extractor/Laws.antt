-- ===== src/Archive/Extractor/Laws.antt =====
-- What an extraction (src/7zip/ArchiveExtractor.cpp) leaves in the temporary file.
use fuse3_p7zip.Base.{
  ℕ, ◌≤◌, Bytes, ◌≡◌, refl, ap, ◌∙◌, take, Bool, true, false, List, [], ◌∷◌, none, some,
  if◌then◌else◌, length, arith,
}
use fuse3_p7zip.Base.Int.{ℤ, pos}
use fuse3_p7zip.Base.Outcome.{Outcome, ok}
use fuse3_p7zip.Host.{Host, done}
use fuse3_p7zip.Text.Encoding.{Wide, wide_str}
use fuse3_p7zip.Stdio.{File, new_file, fwrite}
use fuse3_p7zip.Stream.Write.{check_error}
use fuse3_p7zip.Stdio.Writes.{joined, after_writes, after_writes-behind, after_writes-content}
use fuse3_p7zip.Archive.Callback.{
  extract, test, skip, Call, set_total, set_completed, get_stream, prepare_operation,
  set_operation_result, get_password, write, seek, set_size, release,
}
use fuse3_p7zip.Archive.Property.{Handler}
use fuse3_p7zip.Archive.Extractor.{Extractor, call, calls, execute}

-- How the library may use the callbacks and the stream. The first flag says that it holds the
-- stream, the second that it has given its reference back, after which it asks for no other.
abbrev pub IsOrderly : Bool → Bool → List Call → Type 0
IsOrderly held back [] = Unit
IsOrderly held back (write bytes ∷ cs) = (held ≡ true) × IsOrderly held back cs
IsOrderly held back (get_stream index extract ∷ cs) = (back ≡ false) × IsOrderly true back cs
IsOrderly held back (get_stream index test ∷ cs) = IsOrderly false back cs
IsOrderly held back (get_stream index skip ∷ cs) = IsOrderly false back cs
IsOrderly held back (release ∷ cs) = (held ≡ true) × (back ≡ false) × IsOrderly false true cs
IsOrderly held back (seek offset whence ∷ cs) = ⊥
IsOrderly held back (set_size n ∷ cs) = ⊥
IsOrderly held back (set_total n ∷ cs) = IsOrderly held back cs
IsOrderly held back (set_completed n ∷ cs) = IsOrderly held back cs
IsOrderly held back (prepare_operation mode ∷ cs) = IsOrderly held back cs
IsOrderly held back (set_operation_result n ∷ cs) = IsOrderly held back cs
IsOrderly held back (get_password ∷ cs) = IsOrderly held back cs

-- What the library writes, in order.
abbrev pub chunks : List Call → List Bytes
chunks [] = []
chunks (write bytes ∷ cs) = bytes ∷ chunks cs
chunks (get_stream index mode ∷ cs) = chunks cs
chunks (release ∷ cs) = chunks cs
chunks (seek offset whence ∷ cs) = chunks cs
chunks (set_size n ∷ cs) = chunks cs
chunks (set_total n ∷ cs) = chunks cs
chunks (set_completed n ∷ cs) = chunks cs
chunks (prepare_operation mode ∷ cs) = chunks cs
chunks (set_operation_result n ∷ cs) = chunks cs
chunks (get_password ∷ cs) = chunks cs

abbrev pub written : List Call → Bytes
written cs = joined (chunks cs)

abbrev pub refs_of : Bool → ℕ
refs_of back = if back then 1 else 2

abbrev pub running : Bytes → ℕ → File → Bool → Bool → Extractor
running password total f held back = record {
  password = password;
  total = total;
  file = some f;
  refs = refs_of back;
  granted = held;
}

module _ (h : Host) (password : Bytes) {w : Wide} (decodes : wide_str h password ≡ ok w) where
  -- The state after orderly calls: the stream is there, and holds what was written.
  abbrev pub Leaves : List Call → Extractor → File → Type 0
  Leaves cs x f = (y : Extractor) × (calls h cs x ≡ ok y) × (y.file ≡ some f)

  pub call-write :
      (bytes : Bytes) (total : ℕ) (f : File) (back : Bool)
      → call h (write bytes) (running password total f true back)
        ≡ ok (running password total (fwrite bytes f).0 true back, check_error (fwrite bytes f).0)
  unfolding call check_error
  call-write bytes total f back = refl

  pub call-release :
      (total : ℕ) (f : File)
      → call h release (running password total f true false)
        ≡ ok (running password total f false true, pos 1)
  unfolding call
  call-release total f = refl

  pub after_call :
      (c : Call) (cs : List Call) (x : Extractor) {y : Extractor} {res : ℤ} {f : File}
      → call h c x ≡ ok (y, res)
      → Leaves cs y f
      → Leaves (c ∷ cs) x f
  unfolding calls
  after_call c cs x e rest = rw (e, calls) rest

  pub password_call :
      (total : ℕ) (f : File) (held back : Bool)
      → call h get_password (running password total f held back)
        ≡ ok (running password total f held back, h.s_ok)
  unfolding call
  password_call total f held back = rw decodes

  pub calls-chunks :
      (cs : List Call) (total : ℕ) (f : File) (held back : Bool)
      → IsOrderly held back cs
      → Leaves cs (running password total f held back) (after_writes f (chunks cs))
  unfolding calls call
  calls-chunks [] total f held back o = (running password total f held back, refl, refl)
  calls-chunks (write bytes ∷ cs) total f false back o = absurd (ground (arith, o.0))
  calls-chunks (write bytes ∷ cs) total f true back (_, o) =
      after_call (write bytes) cs (running password total f true back)
        (call-write bytes total f back) (calls-chunks cs total (fwrite bytes f).0 true back o)
  calls-chunks (release ∷ cs) total f true false (_, _, o) =
      after_call release cs (running password total f true false) (call-release total f)
        (calls-chunks cs total f false true o)
  calls-chunks (release ∷ cs) total f true true (_, b, _) = absurd (ground (arith, b))
  calls-chunks (release ∷ cs) total f false back (a, _, _) = absurd (ground (arith, a))
  calls-chunks (seek offset whence ∷ cs) total f held back o = absurd o
  calls-chunks (set_size n ∷ cs) total f held back o = absurd o
  calls-chunks (get_stream index extract ∷ cs) total f held back (_, o) =
      calls-chunks cs total f true back o
  calls-chunks (get_stream index test ∷ cs) total f held back o =
      calls-chunks cs total f false back o
  calls-chunks (get_stream index skip ∷ cs) total f held back o =
      calls-chunks cs total f false back o
  calls-chunks (set_total n ∷ cs) total f held back o = calls-chunks cs n f held back o
  calls-chunks (set_completed none ∷ cs) total f held back o = calls-chunks cs total f held back o
  calls-chunks (set_completed (some n) ∷ cs) total f held back o =
      calls-chunks cs total f held back o
  calls-chunks (prepare_operation mode ∷ cs) total f held back o =
      calls-chunks cs total f held back o
  calls-chunks (set_operation_result n ∷ cs) total f held back o =
      calls-chunks cs total f held back o
  calls-chunks (get_password ∷ cs) total f held back o =
      after_call get_password cs (running password total f held back)
        (password_call total f held back) (calls-chunks cs total f held back o)

module _ (h : Host) (arc : Handler) (password : Bytes) (index room : ℕ) {w : Wide}
    (decodes : wide_str h password ≡ ok w) (orderly : IsOrderly false false (arc.extract index).0)
    (success : h.is_failed (arc.extract index).1 ≡ false) where
  abbrev filled : File
  filled = after_writes (new_file room) (chunks (arc.extract index).0)

  execute-chunks :
      execute h arc password index (done (new_file room)) ≡ ok (record filled { position = 0 })
  unfolding execute
  execute-chunks =
      let (y, ran, left) =
        calls-chunks h password decodes (arc.extract index).0 0 (new_file room) false false
          orderly in
      ground (arith, ran, left)

  -- A handler that uses the callbacks in order and whose Extract gives no failure code, with a
  -- password that decodes and a temporary file with room for all that is written: `execute`
  -- returns a file of what was written, from its start, with no error.
  pub execute-written :
      length (written (arc.extract index).0) ≤ room
      → execute h arc password index (done (new_file room))
        ≡ ok (record {
          content = written (arc.extract index).0;
          position = 0;
          error = false;
          room = room;
        })
  unfolding new_file
  execute-written fits =
      let at_start : File → Outcome File = λ f. ok (record f { position = 0 }) in
      execute-chunks
      ∙ ap at_start
          (after_writes-behind (chunks (arc.extract index).0) (new_file room) refl (omega arith))

  -- A handler that uses the callbacks in order and whose Extract gives no failure code, with a
  -- password that decodes: whatever the room on the disk, `execute` returns a file, at its start,
  -- that holds as much of what was written as there is room for.
  execute-clipped :
      (f : File) × (execute h arc password index (done (new_file room)) ≡ ok f)
      × (f.content ≡ take room (written (arc.extract index).0))
      × (f.position ≡ 0)
  unfolding new_file
  execute-clipped = (
    record filled { position = 0 },
    execute-chunks,
    after_writes-content (chunks (arc.extract index).0) (new_file room) refl (omega arith)
        ∙ ap (λ n. take n (written (arc.extract index).0)) (omega arith),
    refl,
  )
