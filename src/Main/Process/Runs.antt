-- ===== src/Main/Process/Runs.antt =====
-- What holds of the runs of `main` (src/main.cpp): its exits by the command line, and its sessions.
use fuse3_p7zip.Base.{
  ℕ, Bytes, ◌≡◌, ◌++◌, refl, sym, subst, Option, none, some, inl, inr, Option-cases, arith, not,
  codes, ◌==◌,
}
use fuse3_p7zip.Base.Int.{pos, negsuc, ℤ-eq}
use fuse3_p7zip.Base.Outcome.{
  ok, throws, fault, check_result, Ensures, returned as ensured, >>=-Ensures, Ensures-then,
}
use fuse3_p7zip.Dynamic.{Handles, Loads, Dynamic}
use fuse3_p7zip.Archive.Opening.{open_file}
use fuse3_p7zip.Archive.Loading.{library_of, Lib, and_then, open_libraries}
use fuse3_p7zip.Archive.Loading.Balance.{IsBalanced, held, open_libraries-IsBalanced}
use fuse3_p7zip.Fuse.Operations.{Session}
use fuse3_p7zip.Fuse.Tree.{FileTree, build_tree}
use fuse3_p7zip.Fuse.Params.{CmdParams, CmdlineOpts, archive_of, early_exit, process_args}
use fuse3_p7zip.Fuse.Params.Start.{Started, exits, starts, start, start_with, initial_params}
use fuse3_p7zip.Fuse.Password.{Password}
use fuse3_p7zip.FilePath.{from_string}
use fuse3_p7zip.Main.{new_session, with_encoding}
use fuse3_p7zip.Main.Process.{
  World, Run, run_session, leave, password_of, serve_archive, run, leave_scope,
}

-- The constructor of Fuse::Params never exits but with 0.
abbrev WithZero : Started → Type 0
WithZero (exits status) = status ≡ 0
WithZero (starts p source) = Unit

early_exit-zero :
    (opts : CmdlineOpts) (p : CmdParams) (status : ℕ) → early_exit opts p ≡ some status → status ≡ 0
unfolding early_exit
early_exit-zero opts p status e = ground arith

module _ (w : World) where
  start_with-WithZero :
      (opts : CmdlineOpts) (p : CmdParams) → WithZero (start_with w.host w.files opts p)
  unfolding start_with
  start_with-WithZero opts p = elim (Option-cases (early_exit opts p)) [
    | inl stays ↦ rw (start_with, stays) tt
    | inr (status, leaves) ↦ rw (start_with, leaves) (early_exit-zero opts p status leaves)
  ]

  start-WithZero : Ensures WithZero (start w.host w.files w.line)
  unfolding start
  start-WithZero = elim (Option-cases (process_args w.line.calls (initial_params w.line))) [
    | inl helped ↦ rw (start, helped) (ensured refl)
    | inr ((p, kept), parsed) ↦
        rw (start, parsed)
          (>>=-Ensures WithZero
            (check_result (not (w.line.opt_parse == negsuc 0)) (codes "fuse_opt_parse")) _
            λ _.
              >>=-Ensures WithZero
                (check_result (w.line.parse_cmdline == pos 0) (codes "fuse_parse_cmdline")) _
                λ _. ensured (start_with-WithZero w.line.opts p))
  ]

abbrev pub IfAny : (Run → Type 0) → Option Run → Type 0
IfAny P none = Unit
IfAny P (some r) = P r

module _ (w : World) (P : Run → Type 0) (serves : (s : Session) → P (run_session w s)) where
  built-IfAny :
      (built : Option FileTree) (session : FileTree → Session)
      → IfAny P (elim built [ none ↦ none | some tree ↦ some (run_session w (session tree)) ])
  built-IfAny none session = tt
  built-IfAny (some tree) session = serves (session tree)

  serve_archive-IfAny :
      (lib : Lib) (p : CmdParams) (source : Password)
      → Ensures (IfAny P) (serve_archive w lib p source)
  unfolding serve_archive
  serve_archive-IfAny lib p source =
      let h = with_encoding w.host (archive_of p) in
      >>=-Ensures (IfAny P) (password_of w.shell source) _ λ (asked, kept).
        >>=-Ensures (IfAny P)
          (open_file h (library_of w.code lib) w.disk w.address (from_string (archive_of p))) _
          λ a. >>=-Ensures (IfAny P) (password_of w.shell kept) _ λ (password, kept').
            >>=-Ensures (IfAny P) (build_tree h a p.allow_other) _
              λ built. ensured (built-IfAny built (λ tree. new_session tree password w.tmpfile))

  started-IfAny :
      (lib : Lib) (started : Started)
      → P (leave 0)
      → WithZero started
      → Ensures (IfAny P) (elim started [
        | exits status ↦ ok (some (leave status))
        | starts p source ↦ serve_archive w lib p source
      ])
  started-IfAny lib (exits status) left zero = ensured (subst (λ n. P (leave n)) (sym zero) left)
  started-IfAny lib (starts p source) left zero = serve_archive-IfAny lib p source

  -- What holds of a session that is served, and where the command line exits.
  pub run-IfAny : P (leave 0) → (lib : Lib) → Ensures (IfAny P) (run w lib)
  unfolding run
  run-IfAny left lib =
      Ensures-then WithZero (IfAny P) (start w.host w.files w.line) _ (start-WithZero w)
        λ started zero. started-IfAny lib started left zero

module _ (w : World) (Q : Loads (Option Run) → Type 0) (before : Handles)
    (throwing : (m : Bytes) → Q (throws m, before))
    (faulting : (handles : Handles) → Q (fault, handles)) where
  and_then-any :
      (r : Loads (Option Dynamic × Lib)) (f : Option Dynamic × Lib → Handles → Loads (Option Run))
      → IsBalanced held before r
      → ((a : Option Dynamic × Lib) → Q (f a (held a ++ before)))
      → Q (and_then w.host w.linker w.code r f)
  unfolding and_then
  and_then-any (ok a, after) f b k = subst (λ hs. Q (f a hs)) (sym b) (k a)
  and_then-any (throws m, after) f b k = subst (λ hs. Q (throws m, hs)) (sym b) (throwing m)
  and_then-any (fault, after) f b k = faulting after

  -- What holds when the scope is left, whatever became of the libraries.
  pub opened-any :
      ((libs : Option Dynamic × Lib) → Q (leave_scope w libs (run w libs.1) (held libs ++ before)))
      → Q (
          and_then w.host w.linker w.code
            (open_libraries w.host w.linker w.code w.exists before)
            λ libs opened. leave_scope w libs (run w libs.1) opened)
  opened-any k =
      and_then-any _ _ (open_libraries-IsBalanced w.host w.linker w.code w.exists before) k
