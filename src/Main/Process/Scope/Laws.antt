-- ===== src/Main/Process/Scope/Laws.antt =====
-- What main (src/main.cpp) leaves of the file of the archive.
use fuse3_p7zip.Base.{ℕ, ◌+◌, ◌≤◌, ◌≡◌, refl, ap, ◌∙◌, false, Option, none, some, arith}
use fuse3_p7zip.Base.Outcome.{Outcome, ok, throws, fault, ◌>>=◌}
use fuse3_p7zip.FilePath.{from_string}
use fuse3_p7zip.Archive.Format.{Format}
use fuse3_p7zip.Archive.Iterator.{Archive}
use fuse3_p7zip.Archive.Loading.{Lib, library_of}
use fuse3_p7zip.Archive.Opening.{open_file}
use fuse3_p7zip.Archive.Lifetime.{Keeper, Store, Held, Holding, destruct}
use fuse3_p7zip.Archive.Lifetime.Counting.{GivesBack, deleted}
use fuse3_p7zip.Archive.Lifetime.Laws.{IsClear, construct-IsClear}
use fuse3_p7zip.Fuse.Params.{CmdParams, archive_of}
use fuse3_p7zip.Fuse.Params.Start.{Started, exits, starts, start}
use fuse3_p7zip.Fuse.Password.{Password}
use fuse3_p7zip.Fuse.Lifecycle.{Ending, returned, exited, crashed}
use fuse3_p7zip.Main.{with_encoding}
use fuse3_p7zip.Main.Process.{World, Run, leave, password_of, serve_archive, run}
use fuse3_p7zip.Main.Process.Scope.{
  Leaving, at_ending, leave_archive, with_archive, execute_archive, open_and_serve, run_started,
  run_files,
}

-- The store at the end: as before, but for the one file of a process that exits while it serves.
abbrev pub IsLeft : ℕ → Ending → Store → Type 0
IsLeft files (returned result) s = s ≡ deleted files
IsLeft files (exited status) s = (s.files ≤ files + 1) × (s.misused ≡ false)
IsLeft files crashed s = Unit

abbrev pub IsLeftAfter : ℕ → Leaving → Type 0
IsLeftAfter files (ok none, s) = Unit
IsLeftAfter files (ok (some r), s) = IsLeft files r.ending s
IsLeftAfter files (throws m, s) = s ≡ deleted files
IsLeftAfter files (fault, s) = Unit

at_ending-IsLeft :
    (files : ℕ) (e : Ending) (held : Held)
    → held.1.files ≡ files + 1
    → held.1.misused ≡ false
    → destruct held ≡ deleted files
    → IsLeft files e (at_ending e held)
unfolding at_ending
at_ending-IsLeft files (returned result) held n m d = d
at_ending-IsLeft files (exited status) held n m d = (omega arith, m)
at_ending-IsLeft files crashed held n m d = tt

with_archive-IsLeftAfter :
    (files : ℕ) (r : Holding Archive) (f : Archive → Outcome (Option Run))
    → IsClear files r
    → IsLeftAfter files (with_archive r f)
unfolding with_archive
with_archive-IsLeftAfter files (ok a, held) f (n, m, d) = after (f a)
  where
    after : (o : Outcome (Option Run)) → IsLeftAfter files (leave_archive o held)
    after (ok none) = tt
    after (ok (some r)) = at_ending-IsLeft files r.ending held n m d
    after (throws m') = d
    after fault = tt
with_archive-IsLeftAfter files (throws m, held) f e = ap (λ t. t.1) e
with_archive-IsLeftAfter files (fault, held) f e = tt

leave_archive-outcome : (o : Outcome (Option Run)) (held : Held) → (leave_archive o held).0 ≡ o
unfolding leave_archive
leave_archive-outcome (ok none) held = refl
leave_archive-outcome (ok (some r)) held = refl
leave_archive-outcome (throws m) held = refl
leave_archive-outcome fault held = refl

with_archive-outcome :
    (r : Holding Archive) (f : Archive → Outcome (Option Run)) → (with_archive r f).0 ≡ (r.0 >>= f)
unfolding with_archive
with_archive-outcome (ok a, held) f = leave_archive-outcome (f a) held
with_archive-outcome (throws m, held) f = refl
with_archive-outcome (fault, held) f = refl

-- Both ways to take the second of a pair.
second_of {ℓ κ ι} :
    {A : Type ℓ} {B : Type κ} {C : Type ι} (o : Outcome (A × B)) (f : B → Outcome C)
    → ((o >>= λ r. ok r.1) >>= f) ≡ (o >>= λ (a, b). f b)
second_of (ok (a, b)) f = refl
second_of (throws m) f = refl
second_of fault f = refl

module _ (w : World) (keeper : Format → Keeper) (g : (f : Format) → GivesBack (keeper f))
    (files : ℕ) where
  abbrev served : Lib → CmdParams → Outcome Password → Outcome (Option Run)
  served lib p o = o >>= λ source.
      open_file (with_encoding w.host (archive_of p)) (library_of w.code lib) w.disk w.address
        (from_string (archive_of p))
      >>= execute_archive w keeper p source

  open_and_serve-lem :
      (lib : Lib) (p : CmdParams) (o : Outcome Password)
      → let l = open_and_serve w keeper lib p o (deleted files) in
        (l.0 ≡ served lib p o) × IsLeftAfter files l
  unfolding open_and_serve
  open_and_serve-lem lib p (ok source) =
      let h = with_encoding w.host (archive_of p) in
      let path = from_string (archive_of p) in
      let (same, clear) =
        construct-IsClear h (library_of w.code lib) keeper g w.disk w.address path files in
      (
        with_archive-outcome _ (execute_archive w keeper p source)
            ∙ ap (λ t. t >>= execute_archive w keeper p source) same,
        with_archive-IsLeftAfter files _ (execute_archive w keeper p source) clear,
      )
  open_and_serve-lem lib p (throws m) = (refl, refl)
  open_and_serve-lem lib p fault = (refl, tt)

  abbrev started_run : Lib → Started → Outcome (Option Run)
  started_run lib (exits status) = ok (some (leave status))
  started_run lib (starts p source) = serve_archive w lib p source

  serve_archive-served :
      (lib : Lib) (p : CmdParams) (source : Password)
      → served lib p (password_of w.shell source >>= λ asked. ok asked.1)
        ≡ serve_archive w lib p source
  unfolding serve_archive execute_archive
  serve_archive-served lib p source = second_of (password_of w.shell source) λ kept.
      open_file (with_encoding w.host (archive_of p)) (library_of w.code lib) w.disk w.address
        (from_string (archive_of p))
      >>= execute_archive w keeper p kept

  run_started-lem :
      (lib : Lib) (o : Outcome Started)
      → let l = run_started w keeper lib o (deleted files) in
        (l.0 ≡ (o >>= started_run lib)) × IsLeftAfter files l
  unfolding run_started leave
  run_started-lem lib (ok (exits status)) = (refl, (omega arith, refl))
  run_started-lem lib (ok (starts p source)) =
      let (same, after) =
        open_and_serve-lem lib p (password_of w.shell source >>= λ asked. ok asked.1) in
      (same ∙ serve_archive-served lib p source, after)
  run_started-lem lib (throws m) = (refl, refl)
  run_started-lem lib fault = (refl, tt)

  -- If every handler gives back each reference to the stream that it takes, in Close or when it is
  -- deleted, and when it is deleted without Close, and makes fewer calls than the counter can
  -- count, then, from no stream on: main from the command line to the end of its scope has the
  -- same outcome as `run`; where it returns or throws, the file of the archive is closed again,
  -- once, and the stream is deleted; and where the process exits, at most that one file is open.
  pub run_files-IsLeftAfter :
      (lib : Lib)
      → let l = run_files w keeper lib (deleted files) in (l.0 ≡ run w lib) × IsLeftAfter files l
  unfolding run_files run
  run_files-IsLeftAfter lib = run_started-lem lib (start w.host w.files w.line)
