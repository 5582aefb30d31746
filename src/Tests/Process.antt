-- ===== src/Tests/Process.antt =====
-- The program from its start to its end.
use fuse3_p7zip.Base.{
  codes, ◌≡◌, refl, true, false, [], ◌∷◌, none, some, nat_eq, list_eq, arith, Option, ◌++◌,
}
use fuse3_p7zip.Base.Int.{pos, negsuc}
use fuse3_p7zip.Host.{done, failed}
use fuse3_p7zip.Stdio.{new_file}
use fuse3_p7zip.Text.Encoding
use fuse3_p7zip.Archive.Iterator
use fuse3_p7zip.Codepage.{detect_encoding}
use fuse3_p7zip.Archive.Property.{Variant}
use fuse3_p7zip.Archive.Loading.Laws.{mandatory}
use fuse3_p7zip.Fuse.Lifecycle.{Libfuse, returned}
use fuse3_p7zip.Fuse.Params.{Key}
use fuse3_p7zip.Main.Process.{World, Ended, main}
use fuse3_p7zip.Main.Process.Laws.{IsReturned, main_returns}
use fuse3_p7zip.Main.Process.Ends.{main_ends}
use fuse3_p7zip.Main.Process.Exits.{IsExit, main_exits}
use fuse3_p7zip.Dynamic.{Dynamic}
use fuse3_p7zip.Archive.Loading.{Lib}
use fuse3_p7zip.Archive.Loading.Balance.{held}
use fuse3_p7zip.Tests.{host}
use fuse3_p7zip.Tests.Mounting.{disk}
use fuse3_p7zip.Tests.Pointers.{no_archive, linker_of}

abbrev all_succeed : Libfuse
all_succeed = record {
  fuse_new = true;
  fuse_mount = pos 0;
  fuse_daemonize = pos 0;
  fuse_set_signal_handlers = pos 0;
  fuse_loop = pos 0;
}

abbrev pub world : World
world = record {
  host = host;
  linker = linker_of (codes "GetHandlerProperty2" ∷ mandatory);
  code = record no_archive {
    func_get_handler_property2 = λ a i id. (pos 0, Variant.bstr (some (codes "zip")));
  };
  exists = λ path. false;
  files = record {
    exists = λ path. false;
    is_regular_file = λ path. false;
    absolute = λ path. path;
    stdin = [];
  };
  shell = record {
    is_executable = λ path. false;
    contents = λ path. [];
    popen = λ command. failed 2;
  };
  disk = disk;
  address = 16;
  tmpfile = done (new_file 100);
  libfuse = all_succeed;
  line = record {
    password = none;
    passfile = none;
    calls = (Key.nonopt, codes "/x/a.zip") ∷ (Key.nonopt, codes "/mnt") ∷ [];
    opt_parse = pos 0;
    opts = record { show_version = false; show_help = false; mountpoint = some (codes "/mnt") };
    parse_cmdline = pos 0;
  };
}

main_ends_example : (e : Ended) × (main world (3 ∷ []) ≡ some e)
main_ends_example = main_ends world ((λ e. omega arith), (λ a f. omega arith)) (3 ∷ [])

unfoldable ended : Ended
unfolding main
ended = elim (main world (3 ∷ [])) [
  | some e ↦ e
  | none ↦ record {
    run = record { events = []; ending = returned (pos 0); session = none };
    printed = [];
    handles = [];
  }
]

ends : main world (3 ∷ []) ≡ some ended
unfolding ended main Encoding.utf8 Iterator.path detect_encoding Iterator.name Iterator.extension
    Iterator.size Iterator.atime Iterator.mtime Iterator.ctime Iterator.is_dir
ends = refl

main_returns_example : (ended.handles ≡ 3 ∷ []) × IsReturned world ended (pos 0)
unfolding ended main Encoding.utf8 Iterator.path detect_encoding Iterator.name Iterator.extension
    Iterator.size Iterator.atime Iterator.mtime Iterator.ctime Iterator.is_dir
main_returns_example = main_returns world (3 ∷ []) ended (pos 0) ends refl

-- The mount succeeds, and the process cannot become a daemon.
abbrev world_without_daemon : World
world_without_daemon = record world { libfuse = record all_succeed { fuse_daemonize = negsuc 0 } }

unfoldable ended_early : Ended
unfolding main
ended_early = elim (main world_without_daemon (3 ∷ [])) [
  | some e ↦ e
  | none ↦ record {
    run = record { events = []; ending = returned (pos 0); session = none };
    printed = [];
    handles = [];
  }
]

ends_early : main world_without_daemon (3 ∷ []) ≡ some ended_early
unfolding ended_early main Encoding.utf8 Iterator.path detect_encoding Iterator.name
    Iterator.extension Iterator.size Iterator.atime Iterator.mtime Iterator.ctime Iterator.is_dir
ends_early = refl

main_exits_example :
    IsExit ended_early.run 1
    × (ended_early.printed ≡ [])
    × ((libs : Option Dynamic × Lib) × (ended_early.handles ≡ held libs ++ 3 ∷ []))
unfolding ended_early main Encoding.utf8 Iterator.path detect_encoding Iterator.name
    Iterator.extension Iterator.size Iterator.atime Iterator.mtime Iterator.ctime Iterator.is_dir
main_exits_example = main_exits world_without_daemon (3 ∷ []) ended_early 1 ends_early refl
