-- ===== src/Main/Process/Laws.antt =====
-- How `main` (src/main.cpp) returns: by its last statement, or by the handler of its exceptions.
use fuse3_p7zip.Base.{
  ℕ, Bytes, codes, ◌≡◌, refl, ap, ◌∙◌, sym, subst, false, [], ◌∷◌, ◌++◌, Option, none, some, ◌⊎◌,
  inl, inr, Bool-cases,
}
use fuse3_p7zip.Base.Int.{ℤ, pos}
use fuse3_p7zip.Base.Outcome.{Outcome, ok, throws, fault, Ensures, returned as ensured}
use fuse3_p7zip.Dynamic.{Handles, Loads, Dynamic, close_dynamic}
use fuse3_p7zip.Archive.Loading.{Lib}
use fuse3_p7zip.Archive.Loading.Balance.{held, close_head}
use fuse3_p7zip.Fuse.Operations.{Session}
use fuse3_p7zip.Fuse.Lifecycle.{
  Libfuse, Ending, returned, exited, crashed, process, execute, destruct,
}
use fuse3_p7zip.Fuse.Lifecycle.Laws.{nothing_held, obey_all, process-obey_all}
use fuse3_p7zip.Main.Process.{
  World, Run, Ended, run_session, leave, run, close_all, left_open, leave_scope, catch, main,
}
use fuse3_p7zip.Main.Process.Runs.{IfAny, run-IfAny, opened-any}

-- The result is that of fuse_loop, and nothing of libfuse is left.
abbrev IsServed : Libfuse → Run → ℤ → Type 0
IsServed l r n =
    (n ≡ l.fuse_loop)
    × (obey_all r.events nothing_held ≡ some nothing_held)
    × ((s : Session) × (r.session ≡ some s))

-- Where it returns, it has served.
abbrev Serves : Libfuse → Run → Type 0
Serves l r = (n : ℤ) → r.ending ≡ returned n → IsServed l r n

exited_not_returned : (status : ℕ) (n : ℤ) → exited status ≡ returned n → ⊥
exited_not_returned status n e = cc

crashed_not_returned : (n : ℤ) → crashed ≡ returned n → ⊥
crashed_not_returned n e = cc

pub process_null : (l : Libfuse) → l.fuse_new ≡ false → (process l).1 ≡ crashed
unfolding process execute destruct
process_null l e = rw e refl

module _ (w : World) where
  run_session-Serves : (s : Session) → Serves w.libfuse (run_session w s)
  unfolding run_session
  run_session-Serves s n e = elim (Bool-cases w.libfuse.fuse_new) [
    | inl new ↦ elim (process-obey_all w.libfuse new) [
      | inl (_, _, _, ends, obeys) ↦
          let same : returned n ≡ returned w.libfuse.fuse_loop = sym e ∙ ends in
          (cc, obeys, (s, refl))
      | inr (inl (_, ends, _)) ↦ absurd (exited_not_returned 1 n (sym ends ∙ e))
      | inr (inr (_, _, ends, _)) ↦ absurd (exited_not_returned 1 n (sym ends ∙ e))
    ]
    | inr null ↦ absurd (crashed_not_returned n (sym (process_null w.libfuse null) ∙ e))
  ]

  run-Serves : (lib : Lib) → Ensures (IfAny (Serves w.libfuse)) (run w lib)
  unfolding leave
  run-Serves lib =
      run-IfAny w (Serves w.libfuse) run_session-Serves (λ n e. absurd (exited_not_returned 0 n e))
        lib

  close_all-held :
      (libs : Option Dynamic × Lib) (before : Handles)
      → close_all w libs (held libs ++ before) ≡ before
  unfolding close_all close_dynamic
  close_all-held (none, lib) before = close_head lib.dynamic.hnd before
  close_all-held (some codec, lib) before =
      ap (close_dynamic w.linker codec) (close_head lib.dynamic.hnd (codec.hnd ∷ before))
      ∙ close_head codec.hnd before

  -- Where the scope is left, the libraries are closed.
  abbrev Closes : Handles → Loads (Option Run) → Type 0
  Closes before (ok none, handles) = Unit
  Closes before (ok (some r), handles) =
      Serves w.libfuse r × ((n : ℤ) → r.ending ≡ returned n → handles ≡ before)
  Closes before (throws m, handles) = handles ≡ before
  Closes before (fault, handles) = Unit

  left_open_returned :
      (libs : Option Dynamic × Lib) (before : Handles) (ending : Ending) (n : ℤ)
      → ending ≡ returned n
      → left_open w ending libs (held libs ++ before) ≡ before
  unfolding left_open
  left_open_returned libs before (returned result) n e = close_all-held libs before
  left_open_returned libs before (exited status) n e = absurd (exited_not_returned status n e)
  left_open_returned libs before crashed n e = absurd (crashed_not_returned n e)

  leave_scope-Closes :
      (libs : Option Dynamic × Lib) (before : Handles) (o : Outcome (Option Run))
      → Ensures (IfAny (Serves w.libfuse)) o
      → Closes before (leave_scope w libs o (held libs ++ before))
  unfolding leave_scope
  leave_scope-Closes libs before (ok none) s = tt
  leave_scope-Closes libs before (ok (some r)) (ensured s) =
      (s, λ n e. left_open_returned libs before r.ending n e)
  leave_scope-Closes libs before (throws m) s = close_all-held libs before
  leave_scope-Closes libs before fault s = tt

  -- What has been served and printed when `main` returns.
  abbrev pub IsReturned : Ended → ℤ → Type 0
  IsReturned e n =
      (IsServed w.libfuse e.run n × (e.printed ≡ []))
      ⊎ ((m : Bytes) × (n ≡ pos 1)
          × (e.run.events ≡ [])
          × (e.run.session ≡ none)
          × (e.printed ≡ codes "Critical error:\n  " ++ (m ++ codes "\n")))

  abbrev Returns : Handles → Option Ended → Type 0
  Returns before none = Unit
  Returns before (some e) =
      (n : ℤ) → e.run.ending ≡ returned n → (e.handles ≡ before) × IsReturned e n

  catch-Returns :
      (before : Handles) (l : Loads (Option Run)) → Closes before l → Returns before (catch w l)
  unfolding catch
  catch-Returns before (ok none, handles) c = tt
  catch-Returns before (ok (some r), handles) (s, closed) = λ n e. (closed n e, inl (s n e, refl))
  catch-Returns before (throws m, handles) c = λ n e. (c, inr (m, by_one n e, refl, refl, refl))
    where
      by_one : (n : ℤ) → returned (pos 1) ≡ returned n → n ≡ pos 1
      by_one n e = cc
  catch-Returns before (fault, handles) c = λ n e. absurd (crashed_not_returned n e)

  main-Returns : (before : Handles) → Returns before (main w before)
  unfolding main
  main-Returns before = catch-Returns before _ (
      opened-any w (Closes before) before (λ m. refl) (λ handles. tt)
        λ libs. leave_scope-Closes libs before (run w libs.1) (run-Serves libs.1))

  -- If main returns, the handles of libraries that are open are those from before, and it returns
  -- in one of two ways: with the result of fuse_loop, after a session was mounted, nothing of
  -- libfuse is left, and nothing is printed by the handler of exceptions; or with 1, after that
  -- handler has printed the message of an exception, no session was mounted and libfuse was not
  -- called.
  pub main_returns :
      (before : Handles) (e : Ended) (n : ℤ)
      → main w before ≡ some e
      → e.run.ending ≡ returned n
      → (e.handles ≡ before) × IsReturned e n
  main_returns before e n q r = subst (Returns before) q (main-Returns before) n r
