-- ===== src/Singleton.antt =====
-- An object that is made by the first call that asks for it: pattern::Singleton of
-- include/pattern.hpp, and a `static` of a function.
use fuse3_p7zip.Base.{◌≡◌, refl, Option, none, some}

-- The object, if it was made, and the state that its constructor and destructor change.
abbrev pub Static {ℓ κ} : Type ℓ → Type κ → Type (ℓ ⊔ κ)
Static A S = Option A × S

module _ {ℓ κ} {A : Type ℓ} {S : Type κ} where
  -- `instance()`
  unfoldable pub instance_of : (S → A × S) → Static A S → A × Static A S
  instance_of construct (some a, s) = (a, (some a, s))
  instance_of construct (none, s) = let (a, t) = construct s in (a, (some a, t))

  -- At the end of the process, by `return` or `exit`.
  unfoldable pub at_exit : (A → S → S) → Static A S → S
  at_exit destruct (some a, s) = destruct a s
  at_exit destruct (none, s) = s

  -- The second call gives the object of the first, and makes none.
  instance_of-instance_of :
      (construct : S → A × S) (s : Static A S)
      → let r = instance_of construct s in instance_of construct r.1 ≡ r
  unfolding instance_of
  instance_of-instance_of construct (some a, s) = refl
  instance_of-instance_of construct (none, s) = refl
