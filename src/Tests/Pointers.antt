-- ===== src/Tests/Pointers.antt =====
-- Smart pointers and shared libraries at concrete inputs.
use fuse3_p7zip.Base.{
  ℕ, Bytes, codes, ◌≡◌, ◌⊎◌, refl, true, List, [], ◌∷◌, Option, none, some, nat_eq, arith, ◌==◌,
  list_eq, if◌then◌else◌,
}
use fuse3_p7zip.Base.Int.{pos}
use fuse3_p7zip.Base.Outcome.{ok, fault}
use fuse3_p7zip.FilePath.{from_string}
use fuse3_p7zip.Com.{add_ref, release}
use fuse3_p7zip.Com.Object.{address_of, take_ref, assign, same, destroy, assign_moved, attach}
use fuse3_p7zip.Com.Object.Program.{
  step, State, Op, copies, moves, assigns, assigns_moved, releases, receives, detaches, attaches,
  destroys, declares, run, start, all_in_scope,
}
use fuse3_p7zip.Com.Object.Steps.{IsCounted}
use fuse3_p7zip.Com.Object.Runs.{run-IsCounted, run-frees, start-IsCounted}
use fuse3_p7zip.Dynamic.{Linker, Dynamic, Reply, found, missing, throw_library_error}
use fuse3_p7zip.Archive.Property.{Variant}
use fuse3_p7zip.Archive.Loading.{exports, Code, Symbols, load_symbols, fill_lib}
use fuse3_p7zip.Archive.Loading.Laws.{
  mandatory, first_missing, Found, load_symbols-first_missing, fill_lib-fault,
}
use fuse3_p7zip.Tests.{host, handler}

-- An archive is received, shared, moved, and given up again.
abbrev program : List Op
program =
    declares
    ∷ receives 0
    ∷ copies 0
    ∷ moves 1
    ∷ assigns 1 0
    ∷ assigns_moved 0 2
    ∷ detaches 0
    ∷ attaches 2 0
    ∷ destroys 0
    ∷ releases 0
    ∷ destroys 1
    ∷ []

program_in_scope : all_in_scope program 0 0 ≡ true
unfolding all_in_scope
program_in_scope = refl

run-IsCounted_example : (s : State) × (run program start ≡ ok s) × IsCounted s
run-IsCounted_example = run-IsCounted program start start-IsCounted program_in_scope (omega arith)

unfoldable ended : State
unfolding run
ended = elim (run program start) [ ok s ↦ s | _ ↦ start ]

ends : run program start ≡ ok ended
unfolding ended step address_of take_ref nat_eq assign same destroy assign_moved attach release
    add_ref
ends = refl

run-frees_example : ended.memory.counter 0 ≡ none
unfolding ended step address_of take_ref nat_eq assign same destroy assign_moved attach release
    add_ref
run-frees_example =
    run-frees program ended 0 program_in_scope (omega arith) ends (refl, tt) (refl, tt)

abbrev pub no_archive : Code
no_archive = record {
  func_create_object = λ a f. (
    pos 0,
    record {
      handler = handler;
      open_stream = λ s. (s, pos 0);
      get_number_of_archive_properties = (pos 0, 0);
    },
  );
  func_get_method_name = λ a i. (pos 0, Variant.empty);
  func_get_number_of_formats = λ a. (pos 0, 1);
  func_get_number_of_methods = λ a. (pos 0, 0);
  func_get_handler_property = λ a id. (pos 0, Variant.empty);
  func_get_handler_property2 = λ a i id. (pos 0, Variant.empty);
}

-- A library with these symbols only.
abbrev pub linker_of : List Bytes → Linker
linker_of names = record { dlopen = λ path flags. found 16; dlsym = λ hnd name. at names name }
  where
    at : List Bytes → Bytes → Reply ℕ
    at [] name = missing (some (codes "undefined symbol"))
    at (n ∷ ns) name = let rest = at ns name in if n == name then found 1 else rest

abbrev bare : Dynamic
bare = record { path = from_string (codes "/7z.so"); flags = []; hnd = 16 }

abbrev no_handler_properties : Symbols
no_handler_properties = record {
  create_object = 1;
  get_method_property = 1;
  get_number_of_formats = 1;
  get_number_of_methods = 1;
  get_handler_property = none;
  get_handler_property2 = none;
  set_large_page_mode = none;
}

loads : load_symbols host (linker_of mandatory) no_archive bare ≡ ok no_handler_properties
unfolding load_symbols nat_eq list_eq
loads = refl

fill_lib-fault_example : fill_lib host (linker_of mandatory) no_archive bare ≡ fault
unfolding exports
fill_lib-fault_example =
    fill_lib-fault host (linker_of mandatory) no_archive bare no_handler_properties 0 loads refl
      refl refl refl

load_symbols-first_missing_example :
    ((s : Symbols) × (load_symbols host (linker_of []) no_archive bare ≡ ok s)
      × (first_missing (linker_of []) bare mandatory ≡ none)
      × Found host (linker_of []) no_archive bare s)
    ⊎ ((e : Option Bytes) × (first_missing (linker_of []) bare mandatory ≡ some e)
        × (load_symbols host (linker_of []) no_archive bare
            ≡ throw_library_error (codes "dlsym") e))
load_symbols-first_missing_example = load_symbols-first_missing host (linker_of []) no_archive bare
