-- ===== src/Main/Process.antt =====
-- `main` of src/main.cpp from its first line to its end, with the handler of its exceptions.
pub mod Laws
pub mod Runs
pub mod Ends
pub mod Exits
pub mod Scope
pub mod Messages
use fuse3_p7zip.Base.{
  ℕ, Bytes, codes, ◌≡◌, Bool, true, false, List, [], ◌∷◌, ◌++◌, Option, none, some,
}
use fuse3_p7zip.Base.Int.{ℤ, pos}
use fuse3_p7zip.Base.Outcome.{Outcome, ok, throws, fault, ◌>>=◌}
use fuse3_p7zip.Host.{Host, Sys}
use fuse3_p7zip.FilePath.{FilePath, from_string}
use fuse3_p7zip.Stdio.{File}
use fuse3_p7zip.Stream.Read.{Disk}
use fuse3_p7zip.Dynamic.{Linker, Dynamic, Handles, Loads, close_dynamic}
use fuse3_p7zip.Archive.Loading.{Code, Lib, and_then, open_libraries, library_of}
use fuse3_p7zip.Archive.Iterator.{Archive}
use fuse3_p7zip.Archive.Opening.{open_file}
use fuse3_p7zip.Fuse.Params.{CmdParams, Files, archive_of}
use fuse3_p7zip.Fuse.Params.Start.{CommandLine, Started, exits, starts, start}
use fuse3_p7zip.Fuse.Password.{Password, Shell, get}
use fuse3_p7zip.Fuse.Tree.{build_tree}
use fuse3_p7zip.Fuse.Operations.{Session}
use fuse3_p7zip.Fuse.Lifecycle.{Libfuse, Event, Ending, returned, exited, crashed, process}
use fuse3_p7zip.Main.{with_encoding, new_session}

-- What the process finds.
pub record World : Type 0 where
  pub host : Host
  pub linker : Linker
  pub code : Code
  pub exists : FilePath → Bool
  pub files : Files
  pub shell : Shell
  pub disk : Disk
  -- The address that the archive gets.
  pub address : ℕ
  pub tmpfile : Sys File
  pub libfuse : Libfuse
  pub line : CommandLine

-- How it has gone: the calls of libfuse, the end, and the session, if there was one.
pub record Run : Type 0 where
  pub events : List Event
  pub ending : Ending
  pub session : Option Session

-- `exit` before there is an archive.
unfoldable pub leave : ℕ → Run
leave status = record { events = []; ending = exited status; session = none }

-- `get` is noexcept: an exception in it ends the process.
unfoldable pub password_of : Shell → Password → Outcome (Bytes × Password)
unfolding get
password_of sh source = elim (get sh source) [ none ↦ fault | some p ↦ ok p ]

-- How the process has ended, what the handler of `main` has printed, and the handles still open.
pub record Ended : Type 0 where
  pub run : Run
  pub printed : Bytes
  pub handles : Handles

module _ (w : World) where
  -- `Fuse::execute` of that session, and ~Fuse.
  unfoldable pub run_session : Session → Run
  unfolding process
  run_session s =
      let (events, ending) = process w.libfuse in
      record { events = events; ending = ending; session = some s }

  -- From the opening of the archive on; `none` means that the fuel of the loop over the items ran
  -- out.
  unfoldable pub serve_archive : Lib → CmdParams → Password → Outcome (Option Run)
  unfolding open_file build_tree password_of run_session new_session library_of
  serve_archive lib p source = do
    let h = with_encoding w.host (archive_of p)
    (asked, source) ← password_of w.shell source
    a ← open_file h (library_of w.code lib) w.disk w.address (from_string (archive_of p))
    (password, source') ← password_of w.shell source
    built ← build_tree h a p.allow_other
    ok (elim built [
      | none ↦ none
      | some tree ↦ some (run_session (new_session tree password w.tmpfile))
    ])

  -- What follows the loading of the libraries, up to the end of the scope.
  unfoldable pub run : Lib → Outcome (Option Run)
  unfolding start serve_archive leave
  run lib = do
    started ← start w.host w.files w.line
    elim started [
      | exits status ↦ ok (some (leave status))
      | starts p source ↦ serve_archive lib p source
    ]

  -- The destructors of the libraries, in the reverse order.
  unfoldable pub close_all : Option Dynamic × Lib → Handles → Handles
  unfolding close_dynamic
  close_all (none, lib) handles = close_dynamic w.linker lib.dynamic handles
  close_all (some codec, lib) handles =
      close_dynamic w.linker codec (close_dynamic w.linker lib.dynamic handles)

  -- They run when the scope is left, by `return` or by an exception, and not by `exit`.
  unfoldable pub left_open : Ending → Option Dynamic × Lib → Handles → Handles
  unfolding close_all
  left_open (returned result) libs handles = close_all libs handles
  left_open (exited status) libs handles = handles
  left_open crashed libs handles = handles

  unfoldable pub leave_scope :
      Option Dynamic × Lib → Outcome (Option Run) → Handles → Loads (Option Run)
  unfolding close_all left_open
  leave_scope libs (ok none) handles = (ok none, handles)
  leave_scope libs (ok (some r)) handles = (ok (some r), left_open r.ending libs handles)
  leave_scope libs (throws m) handles = (throws m, close_all libs handles)
  leave_scope libs fault handles = (fault, handles)

  -- The handler of the exceptions.
  unfoldable pub catch : Loads (Option Run) → Option Ended
  catch (ok none, handles) = none
  catch (ok (some r), handles) = some (record { run = r; printed = []; handles = handles })
  catch (throws m, handles) = some (record {
    run = record { events = []; ending = returned (pos 1); session = none };
    printed = codes "Critical error:\n  " ++ (m ++ codes "\n");
    handles = handles;
  })
  catch (fault, handles) = some (record {
    run = record { events = []; ending = crashed; session = none };
    printed = [];
    handles = handles;
  })

  unfoldable pub main : Handles → Option Ended
  unfolding catch leave_scope run open_libraries and_then
  main handles = catch (
      and_then w.host w.linker w.code (open_libraries w.host w.linker w.code w.exists handles)
        λ libs opened. leave_scope libs (run libs.1) opened)
