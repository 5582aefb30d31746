-- ===== src/Main/Process/Ends.antt =====
-- That the loop over the items does not run out of fuel in `main` (src/main.cpp).
use fuse3_p7zip.Base.{Bytes, ℕ, ◌≡◌, ◌≢◌, refl, Option, none, some, ◌<◌}
use fuse3_p7zip.Base.Outcome.{
  Outcome, ok, throws, fault, Ensures, returned, thrown, faulted, >>=-Ensures, Ensures-then,
}
use fuse3_p7zip.FilePath.{from_string}
use fuse3_p7zip.Dynamic.{Handles, Loads, Dynamic}
use fuse3_p7zip.Archive.Iterator.{word32}
use fuse3_p7zip.Archive.Loading.{Lib, and_then, open_libraries, library_of}
use fuse3_p7zip.Archive.Opening.{open_file}
use fuse3_p7zip.Archive.Opening.Sizes.{open_file-IsOpen}
use fuse3_p7zip.Fuse.Operations.{Session}
use fuse3_p7zip.Fuse.Tree.{FileTree, build_tree}
use fuse3_p7zip.Fuse.Tree.Fill.{IsOpen, build_tree_ends}
use fuse3_p7zip.Fuse.Params.{CmdParams, archive_of}
use fuse3_p7zip.Fuse.Params.Start.{Started, exits, starts, start}
use fuse3_p7zip.Fuse.Password.{Password}
use fuse3_p7zip.Main.{with_encoding, new_session}
use fuse3_p7zip.Main.Process.{
  World, Run, Ended, run_session, leave, password_of, serve_archive, run, leave_scope, catch, main,
}

abbrev IsSome {ℓ} : {A : Type ℓ} → Option A → Type 0
IsSome none = ⊥
IsSome (some a) = Unit

ensures-IsSome {ℓ} : {A : Type ℓ} (o : Outcome (Option A)) → o ≢ ok none → Ensures IsSome o
ensures-IsSome (ok none) e = absurd (e refl)
ensures-IsSome (ok (some a)) e = returned tt
ensures-IsSome (throws m) e = thrown
ensures-IsSome fault e = faulted

-- The types of the library: an object has an address, and a count of items is a UInt32.
abbrev pub IsSized : World → Type 0
IsSized w =
    (w.address ≢ 0)
    × ((a : ℕ) (id : Bytes)
        → (w.code.func_create_object a id).1.handler.get_number_of_items.1 < word32)

module _ (w : World) (sized : IsSized w) where
  built-IsSome :
      (built : Option FileTree) (session : FileTree → Session)
      → IsSome built
      → IsSome (elim built [ none ↦ none | some tree ↦ some (run_session w (session tree)) ])
  built-IsSome none session i = i
  built-IsSome (some tree) session i = tt

  serve_archive-IsSome :
      (lib : Lib) (p : CmdParams) (source : Password)
      → Ensures IsSome (serve_archive w lib p source)
  unfolding serve_archive library_of
  serve_archive-IsSome lib p source =
      let h = with_encoding w.host (archive_of p) in
      >>=-Ensures IsSome (password_of w.shell source) _ λ (asked, kept).
        Ensures-then IsOpen IsSome
          (open_file h (library_of w.code lib) w.disk w.address (from_string (archive_of p))) _
          (open_file-IsOpen h (library_of w.code lib) (λ id. sized.1 lib.symbols.create_object id)
            w.disk w.address (from_string (archive_of p)) sized.0)
          λ a is_open. >>=-Ensures IsSome (password_of w.shell kept) _ λ (password, kept').
            Ensures-then IsSome IsSome (build_tree h a p.allow_other) _
              (ensures-IsSome _ (build_tree_ends h a p.allow_other is_open))
              λ built some_tree.
                returned
                  (built-IsSome built (λ tree. new_session tree password w.tmpfile) some_tree)

  started-IsSome :
      (lib : Lib) (started : Started)
      → Ensures IsSome (elim started [
        | exits status ↦ ok (some (leave status))
        | starts p source ↦ serve_archive w lib p source
      ])
  started-IsSome lib (exits status) = returned tt
  started-IsSome lib (starts p source) = serve_archive-IsSome lib p source

  run-IsSome : (lib : Lib) → Ensures IsSome (run w lib)
  unfolding run
  run-IsSome lib = >>=-Ensures IsSome (start w.host w.files w.line) _ (started-IsSome lib)

  abbrev Loaded : Loads (Option Run) → Type 0
  Loaded (o, handles) = Ensures IsSome o

  leave_scope-Loaded :
      (libs : Option Dynamic × Lib) (o : Outcome (Option Run)) (handles : Handles)
      → Ensures IsSome o
      → Loaded (leave_scope w libs o handles)
  unfolding leave_scope
  leave_scope-Loaded libs (ok none) handles i = i
  leave_scope-Loaded libs (ok (some r)) handles i = returned tt
  leave_scope-Loaded libs (throws m) handles i = thrown
  leave_scope-Loaded libs fault handles i = faulted

  and_then-Loaded :
      (r : Loads (Option Dynamic × Lib)) (f : Option Dynamic × Lib → Handles → Loads (Option Run))
      → ((a : Option Dynamic × Lib) (handles : Handles) → Loaded (f a handles))
      → Loaded (and_then w.host w.linker w.code r f)
  unfolding and_then
  and_then-Loaded (ok a, after) f k = k a after
  and_then-Loaded (throws m, after) f k = thrown
  and_then-Loaded (fault, after) f k = faulted

  catch-IsSome : (l : Loads (Option Run)) → Loaded l → IsSome (catch w l)
  unfolding catch
  catch-IsSome (ok none, handles) (returned i) = i
  catch-IsSome (ok (some r), handles) i = tt
  catch-IsSome (throws m, handles) i = tt
  catch-IsSome (fault, handles) i = tt

  main-IsSome : (before : Handles) → IsSome (main w before)
  unfolding main
  main-IsSome before = catch-IsSome _ (
      and_then-Loaded (open_libraries w.host w.linker w.code w.exists before) _
        λ libs opened. leave_scope-Loaded libs (run w libs.1) opened (run-IsSome libs.1))

  -- If the archive gets an address that is not null and every handler counts fewer than 2^32
  -- items, the loop over the items ends before its fuel, whatever the libraries, the arguments and
  -- the environment are: the whole of main has an outcome.
  pub main_ends : (before : Handles) → (e : Ended) × (main w before ≡ some e)
  main_ends before = given (main w before) (main-IsSome before)
    where
      given : (m : Option Ended) → IsSome m → (e : Ended) × (m ≡ some e)
      given none i = absurd i
      given (some e) i = (e, refl)
