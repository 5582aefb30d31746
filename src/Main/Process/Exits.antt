-- ===== src/Main/Process/Exits.antt =====
-- How `main` (src/main.cpp) is left by `exit`.
use fuse3_p7zip.Base.{
  ℕ, ◌≡◌, refl, ◌∙◌, sym, subst, [], ◌++◌, Option, none, some, ◌⊎◌, inl, inr, Bool-cases,
}
use fuse3_p7zip.Base.Int.{ℤ, pos, ℤ-eq}
use fuse3_p7zip.Base.Outcome.{Outcome, ok, throws, fault, Ensures, returned as ensured}
use fuse3_p7zip.Dynamic.{Handles, Loads, Dynamic}
use fuse3_p7zip.Archive.Loading.{Lib}
use fuse3_p7zip.Archive.Loading.Balance.{held}
use fuse3_p7zip.Fuse.Operations.{Session}
use fuse3_p7zip.Fuse.Lifecycle.{Ending, returned, exited, crashed}
use fuse3_p7zip.Fuse.Lifecycle.Laws.{
  nothing_held, created_only, still_mounted, obey_all, process-obey_all,
}
use fuse3_p7zip.Main.Process.{
  World, Run, Ended, run_session, leave, run, left_open, leave_scope, catch, main,
}
use fuse3_p7zip.Main.Process.Laws.{process_null}
use fuse3_p7zip.Main.Process.Runs.{IfAny, run-IfAny, opened-any}

-- By the command line, before the archive is opened; or for want of a mount, a daemon or signal
-- handlers, with what libfuse has then.
abbrev pub IsExit : Run → ℕ → Type 0
IsExit r status =
    ((status ≡ 0) × (r.events ≡ []) × (r.session ≡ none))
    ⊎ ((status ≡ 1)
        × ((obey_all r.events nothing_held ≡ some created_only)
            ⊎ (obey_all r.events nothing_held ≡ some still_mounted))
        × ((s : Session) × (r.session ≡ some s)))

abbrev Exits : Run → Type 0
Exits r = (status : ℕ) → r.ending ≡ exited status → IsExit r status

returned_not_exited : (n : ℤ) (status : ℕ) → returned n ≡ exited status → ⊥
returned_not_exited n status e = cc

crashed_not_exited : (status : ℕ) → crashed ≡ exited status → ⊥
crashed_not_exited status e = cc

is_one : (status : ℕ) → exited 1 ≡ exited status → status ≡ 1
is_one status e = cc

module _ (w : World) where
  run_session-Exits : (s : Session) → Exits (run_session w s)
  unfolding run_session
  run_session-Exits s status e = elim (Bool-cases w.libfuse.fuse_new) [
    | inl new ↦ elim (process-obey_all w.libfuse new) [
      | inl (_, _, _, ends, _) ↦ absurd (returned_not_exited _ status (sym ends ∙ e))
      | inr (inl (_, ends, obeys)) ↦ inr (is_one status (sym ends ∙ e), inl obeys, (s, refl))
      | inr (inr (_, _, ends, obeys)) ↦ inr (is_one status (sym ends ∙ e), inr obeys, (s, refl))
    ]
    | inr null ↦ absurd (crashed_not_exited status (sym (process_null w.libfuse null) ∙ e))
  ]

  run-Exits : (lib : Lib) → Ensures (IfAny Exits) (run w lib)
  unfolding leave
  run-Exits lib = run-IfAny w Exits run_session-Exits left lib
    where
      left : Exits (leave 0)
      left status e = let same : status ≡ 0 = cc in inl (same, refl, refl)

  -- No destructor has run: the handles of the libraries are open.
  abbrev Keeps : Handles → Loads (Option Run) → Type 0
  Keeps before (ok none, handles) = Unit
  Keeps before (ok (some r), handles) =
      Exits r
      × ((status : ℕ)
          → r.ending ≡ exited status
          → (libs : Option Dynamic × Lib) × (handles ≡ held libs ++ before))
  Keeps before (throws m, handles) = Unit
  Keeps before (fault, handles) = Unit

  left_open_exited :
      (libs : Option Dynamic × Lib) (handles : Handles) (ending : Ending) (status : ℕ)
      → ending ≡ exited status
      → left_open w ending libs handles ≡ handles
  unfolding left_open
  left_open_exited libs handles (returned n) status e = absurd (returned_not_exited n status e)
  left_open_exited libs handles (exited n) status e = refl
  left_open_exited libs handles crashed status e = refl

  leave_scope-Keeps :
      (libs : Option Dynamic × Lib) (before : Handles) (o : Outcome (Option Run))
      → Ensures (IfAny Exits) o
      → Keeps before (leave_scope w libs o (held libs ++ before))
  unfolding leave_scope
  leave_scope-Keeps libs before (ok none) x = tt
  leave_scope-Keeps libs before (ok (some r)) (ensured x) =
      (x, λ status e. (libs, left_open_exited libs (held libs ++ before) r.ending status e))
  leave_scope-Keeps libs before (throws m) x = tt
  leave_scope-Keeps libs before fault x = tt

  abbrev ExitsAfter : Handles → Option Ended → Type 0
  ExitsAfter before none = Unit
  ExitsAfter before (some e) =
      (status : ℕ)
      → e.run.ending ≡ exited status
      → IsExit e.run status
        × (e.printed ≡ [])
        × ((libs : Option Dynamic × Lib) × (e.handles ≡ held libs ++ before))

  catch-ExitsAfter :
      (before : Handles) (l : Loads (Option Run)) → Keeps before l → ExitsAfter before (catch w l)
  unfolding catch
  catch-ExitsAfter before (ok none, handles) k = tt
  catch-ExitsAfter before (ok (some r), handles) (x, kept) =
      λ status e. (x status e, refl, kept status e)
  catch-ExitsAfter before (throws m, handles) k =
      λ status e. absurd (returned_not_exited (pos 1) status e)
  catch-ExitsAfter before (fault, handles) k = λ status e. absurd (crashed_not_exited status e)

  main-ExitsAfter : (before : Handles) → ExitsAfter before (main w before)
  unfolding main
  main-ExitsAfter before = catch-ExitsAfter before _ (
      opened-any w (Keeps before) before (λ m. tt) (λ handles. tt)
        λ libs. leave_scope-Keeps libs before (run w libs.1) (run-Exits libs.1))

  -- If main is left by `exit`, the handler of exceptions has printed nothing, the handles of the
  -- libraries that were loaded are still open in front of those from before, and it was left in
  -- one of two ways: with the status 0 by the command line, before a session was mounted and with
  -- no call of libfuse; or with the status 1 while mounting a session, where what fuse_new made is
  -- left, or the file system is left mounted.
  pub main_exits :
      (before : Handles) (e : Ended) (status : ℕ)
      → main w before ≡ some e
      → e.run.ending ≡ exited status
      → IsExit e.run status
        × (e.printed ≡ [])
        × ((libs : Option Dynamic × Lib) × (e.handles ≡ held libs ++ before))
  main_exits before e status q x = subst (ExitsAfter before) q (main-ExitsAfter before) status x
