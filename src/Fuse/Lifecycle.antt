-- ===== src/Fuse/Lifecycle.antt =====
-- How Fuse::execute of src/fuse3.cpp mounts, serves and unmounts, and how its caller ends. libfuse
-- is a parameter; what it is called for is a list of events.
pub mod Laws
use fuse3_p7zip.Base.{
  ℕ, Bool, true, false, ◌&&◌, not, List, [], ◌∷◌, ◌++◌, Option, none, some, ◌==◌, if◌then◌else◌,
}
use fuse3_p7zip.Base.Int.{ℤ, pos, ℤ-eq}

-- What the calls return; `fuse_new` gives a pointer, or null.
pub record Libfuse : Type 0 where
  pub fuse_new : Bool
  pub fuse_mount : ℤ
  pub fuse_daemonize : ℤ
  pub fuse_set_signal_handlers : ℤ
  pub fuse_loop : ℤ

-- A call, and whether it succeeded.
pub data Event : Type 0 where
  creates mounts daemonizes sets_handlers : Bool → Event
  loops removes_handlers unmounts destroys : Event

pub data Ending : Type 0 where
  returned : ℤ → Ending
  exited : ℕ → Ending
  -- A null pointer is followed.
  crashed : Ending

-- The calls that follow a first one.
unfoldable pub after_event : Event → List Event × Ending → List Event × Ending
after_event e (events, ending) = (e ∷ events, ending)

-- A failure of a call ends the process with the status 1.
unfoldable pub or_exit : (Bool → Event) → ℤ → List Event × Ending → List Event × Ending
unfolding after_event
or_exit event result rest =
    if not (result == pos 0) then (event false ∷ [], exited 1) else after_event (event true) rest

module _ (l : Libfuse) where
  unfoldable pub loop : List Event × Ending
  loop = (loops ∷ removes_handlers ∷ unmounts ∷ [], returned l.fuse_loop)

  -- `execute`, from `fuse_new` on: the pointer is not tested.
  unfoldable pub execute : List Event × Ending
  unfolding loop or_exit
  execute =
      if l.fuse_new
      then after_event (creates true) (
          or_exit mounts l.fuse_mount (
            or_exit daemonizes l.fuse_daemonize
              (or_exit sets_handlers l.fuse_set_signal_handlers loop)))
      else (creates false ∷ [], crashed)

  -- ~Fuse, when `main` returns; `exit` does not call it.
  unfoldable pub destruct : List Event × Ending → List Event × Ending
  destruct (events, returned result) = (events ++ destroys ∷ [], returned result)
  destruct (events, exited status) = (events, exited status)
  destruct (events, crashed) = (events, crashed)

  unfoldable pub process : List Event × Ending
  unfolding execute destruct
  process = destruct execute
