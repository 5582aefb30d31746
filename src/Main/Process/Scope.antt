-- ===== src/Main/Process/Scope.antt =====
-- The archive as an object of main (src/main.cpp): its destructor runs where the scope is left by
-- `return` or by an exception, before those of the libraries, and not by `exit`.
pub mod Laws
use fuse3_p7zip.Base.{Option, none, some}
use fuse3_p7zip.Base.Outcome.{Outcome, ok, throws, fault, ◌>>=◌}
use fuse3_p7zip.FilePath.{from_string}
use fuse3_p7zip.Archive.Format.{Format}
use fuse3_p7zip.Archive.Iterator.{Archive}
use fuse3_p7zip.Archive.Loading.{Lib, library_of}
use fuse3_p7zip.Archive.Lifetime.{Keeper, Store, Held, Holding, construct, destruct}
use fuse3_p7zip.Fuse.Params.{CmdParams, archive_of}
use fuse3_p7zip.Fuse.Params.Start.{Started, exits, starts, start}
use fuse3_p7zip.Fuse.Password.{Password}
use fuse3_p7zip.Fuse.Tree.{build_tree}
use fuse3_p7zip.Fuse.Lifecycle.{Ending, returned, exited, crashed}
use fuse3_p7zip.Main.{with_encoding, new_session}
use fuse3_p7zip.Main.Process.{World, Run, run_session, password_of, leave}

-- What is done, and what is left of the file of the archive.
abbrev pub Leaving : Type 0
Leaving = Outcome (Option Run) × Store

unfoldable pub at_ending : Ending → Held → Store
unfolding destruct
at_ending (returned result) held = destruct held
at_ending (exited status) held = held.1
at_ending crashed held = held.1

-- The end of the scope of the archive.
unfoldable pub leave_archive : Outcome (Option Run) → Held → Leaving
unfolding at_ending destruct
leave_archive (ok none) held = (ok none, held.1)
leave_archive (ok (some r)) held = (ok (some r), at_ending r.ending held)
leave_archive (throws m) held = (throws m, destruct held)
leave_archive fault held = (fault, held.1)

-- What follows the construction, if that has not thrown.
unfoldable pub with_archive : Holding Archive → (Archive → Outcome (Option Run)) → Leaving
unfolding leave_archive
with_archive (ok a, held) f = leave_archive (f a) held
with_archive (throws m, held) f = (throws m, held.1)
with_archive (fault, held) f = (fault, held.1)

module _ (w : World) (keeper : Format → Keeper) where
  -- Fuse::execute over that archive.
  unfoldable pub execute_archive : CmdParams → Password → Archive → Outcome (Option Run)
  unfolding password_of build_tree run_session new_session
  execute_archive p source a = do
    (password, source') ← password_of w.shell source
    built ← build_tree (with_encoding w.host (archive_of p)) a p.allow_other
    ok (elim built [
      | none ↦ none
      | some tree ↦ some (run_session w (new_session tree password w.tmpfile))
    ])

  unfoldable pub open_and_serve : Lib → CmdParams → Outcome (Password) → Store → Leaving
  unfolding construct library_of with_archive execute_archive
  open_and_serve lib p (ok source) s =
      with_archive
        (construct (with_encoding w.host (archive_of p)) (library_of w.code lib) keeper w.disk
          w.address (from_string (archive_of p)) s)
        (execute_archive p source)
  open_and_serve lib p (throws m) s = (throws m, s)
  open_and_serve lib p fault s = (fault, s)

  -- From the command line on: the try block behind the loading of the libraries.
  unfoldable pub run_started : Lib → Outcome Started → Store → Leaving
  unfolding open_and_serve password_of leave
  run_started lib (ok (exits status)) s = (ok (some (leave status)), s)
  run_started lib (ok (starts p source)) s =
      open_and_serve lib p (password_of w.shell source >>= λ asked. ok asked.1) s
  run_started lib (throws m) s = (throws m, s)
  run_started lib fault s = (fault, s)

  unfoldable pub run_files : Lib → Store → Leaving
  unfolding start run_started
  run_files lib s = run_started lib (start w.host w.files w.line) s
