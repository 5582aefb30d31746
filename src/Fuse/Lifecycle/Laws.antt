-- ===== src/Fuse/Lifecycle/Laws.antt =====
-- The order in which libfuse wants to be called, and what is left of it when the process ends.
use fuse3_p7zip.Base.{
  Bool, true, false, ◌&&◌, not, List, [], ◌∷◌, Option, none, some, if◌then◌else◌, ◌≡◌, ◌≢◌, ◌⊎◌,
  arith,
}
use fuse3_p7zip.Base.Int.{pos, ℤ-eq}
use fuse3_p7zip.Fuse.Lifecycle.{
  Libfuse, Event, creates, mounts, daemonizes, sets_handlers, loops, removes_handlers, unmounts,
  destroys, returned, exited, or_exit, after_event, execute, destruct, process, loop,
}

-- What the process has of libfuse.
pub record Held : Type 0 where
  pub created : Bool
  pub mounted : Bool
  pub handled : Bool

abbrev pub nothing_held : Held
nothing_held = record { created = false; mounted = false; handled = false }

abbrev pub created_only : Held
created_only = record { created = true; mounted = false; handled = false }

abbrev pub still_mounted : Held
still_mounted = record { created = true; mounted = true; handled = false }

-- The call is made where it may be, and leaves that.
unfoldable pub obey : Event → Held → Option Held
obey (creates done) s = if s.created then none else some (record s { created = done })
obey (mounts done) s =
    if s.created && not s.mounted then some (record s { mounted = done }) else none
obey (daemonizes done) s = if s.mounted then some s else none
obey (sets_handlers done) s =
    if s.created && not s.handled then some (record s { handled = done }) else none
obey loops s = if s.mounted && s.handled then some s else none
obey removes_handlers s = if s.handled then some (record s { handled = false }) else none
obey unmounts s = if s.mounted then some (record s { mounted = false }) else none
obey destroys s =
    if s.created && not s.mounted && not s.handled
    then some (record s { created = false })
    else none

unfoldable pub obey_all : List Event → Held → Option Held
unfolding obey
obey_all [] s = some s
obey_all (e ∷ es) s = elim (obey e s) [ none ↦ none | some t ↦ obey_all es t ]

module _ (l : Libfuse) where
  -- If fuse_new gives a pointer, the calls of libfuse come in an order that it allows, and the
  -- process ends in one of three ways: all calls succeed, the result is that of fuse_loop, and
  -- nothing of libfuse is left; the mount fails, the status is 1, and what fuse_new made is left;
  -- or the mount succeeds and the daemon or the signal handlers fail, the status is 1, and the
  -- file system is left mounted.
  pub process-obey_all :
      l.fuse_new ≡ true
      → ((l.fuse_mount ≡ pos 0)
          × (l.fuse_daemonize ≡ pos 0)
          × (l.fuse_set_signal_handlers ≡ pos 0)
          × ((process l).1 ≡ returned l.fuse_loop)
          × (obey_all (process l).0 nothing_held ≡ some nothing_held))
        ⊎ ((l.fuse_mount ≢ pos 0)
            × ((process l).1 ≡ exited 1)
            × (obey_all (process l).0 nothing_held ≡ some created_only))
        ⊎ ((l.fuse_mount ≡ pos 0)
            × ((l.fuse_daemonize ≢ pos 0) ⊎ (l.fuse_set_signal_handlers ≢ pos 0))
            × ((process l).1 ≡ exited 1)
            × (obey_all (process l).0 nothing_held ≡ some still_mounted))
  unfolding process execute destruct or_exit loop after_event obey_all obey
  process-obey_all e = ground (arith, e)
