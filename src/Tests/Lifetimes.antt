-- ===== src/Tests/Lifetimes.antt =====
-- An archive whose first format refuses the file: what is left of the file.
use fuse3_p7zip.Base.{ℕ, zero, suc, codes, ◌≡◌, refl, [], none, some, ◌∷◌, arith}
use fuse3_p7zip.FilePath.{FilePath, from_string}
use fuse3_p7zip.Text.Encoding.{utf8}
use fuse3_p7zip.Archive.Format.{Format}
use fuse3_p7zip.Archive.Opening.{open_file}
use fuse3_p7zip.Archive.Lifetime.{Touch, adds_ref, releases_ref, Keeper, construct}
use fuse3_p7zip.Archive.Lifetime.Counting.{GivesBack, deleted}
use fuse3_p7zip.Archive.Lifetime.Laws.{IsClear, construct-IsClear}
use fuse3_p7zip.Archive.Loading.{Lib, exports}
use fuse3_p7zip.Archive.Iterator
use fuse3_p7zip.Codepage.{detect_encoding}
use fuse3_p7zip.Main.Process.{run}
use fuse3_p7zip.Main.Process.Scope.{run_files}
use fuse3_p7zip.Main.Process.Scope.Laws.{IsLeftAfter, run_files-IsLeftAfter}
use fuse3_p7zip.Tests.Process.{world}
use fuse3_p7zip.Tests.{host}
use fuse3_p7zip.Tests.Archives.{library, format_1}
use fuse3_p7zip.Tests.Mounting.{disk}

-- The first gives the stream back in Open; the second keeps it until Close, or until it goes.
abbrev keeper_of : ℕ → Keeper
keeper_of zero = record {
  in_open = adds_ref ∷ releases_ref ∷ [];
  in_close = [];
  when_closed = [];
  when_open = [];
}
keeper_of (suc n) = record {
  in_open = adds_ref ∷ [];
  in_close = releases_ref ∷ [];
  when_closed = [];
  when_open = releases_ref ∷ [];
}

abbrev keeper : Format → Keeper
keeper f = keeper_of f.idx

keeper_of-GivesBack : (idx : ℕ) → GivesBack (keeper_of idx)
unfolding fuse3_p7zip.Archive.Lifetime.Counting.taken
keeper_of-GivesBack zero = record {
  kept = 0;
  left = 0;
  opens = refl;
  closes = refl;
  goes_closed = refl;
  goes_open = refl;
  few = omega arith;
}
keeper_of-GivesBack (suc n) = record {
  kept = 1;
  left = 0;
  opens = refl;
  closes = refl;
  goes_closed = refl;
  goes_open = refl;
  few = omega arith;
}

abbrev path : FilePath
path = from_string (codes "/x/a.zip")

construct-IsClear_example :
    let r = construct host library keeper disk 16 path (deleted 3) in
    (r.0 ≡ open_file host library disk 16 path) × IsClear 3 r
construct-IsClear_example =
    construct-IsClear host library keeper (λ f. keeper_of-GivesBack f.idx) disk 16 path 3

open_files : (construct host library keeper disk 16 path (deleted 3)).1.1.files ≡ 4
unfolding construct utf8
open_files = refl

-- A library that has loaded, and the program from the command line to its end.
abbrev loaded : Lib
loaded = record {
  dynamic = record { path = from_string (codes "/7z.so"); flags = []; hnd = 16 };
  symbols = record {
    create_object = 1;
    get_method_property = 1;
    get_number_of_formats = 1;
    get_number_of_methods = 1;
    get_handler_property = none;
    get_handler_property2 = some 1;
    set_large_page_mode = none;
  };
  formats = format_1 ∷ [];
  methods = [];
}

run_files-IsLeftAfter_example :
    let l = run_files world keeper loaded (deleted 3) in (l.0 ≡ run world loaded) × IsLeftAfter 3 l
run_files-IsLeftAfter_example =
    run_files-IsLeftAfter world keeper (λ f. keeper_of-GivesBack f.idx) 3 loaded

closed : (run_files world keeper loaded (deleted 3)).1 ≡ deleted 3
unfolding run_files exports utf8 Iterator.path detect_encoding Iterator.name Iterator.extension
    Iterator.size Iterator.atime Iterator.mtime Iterator.ctime Iterator.is_dir
closed = refl
