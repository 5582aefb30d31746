-- ===== src/Exception/Debug.antt =====
-- The checks of src/exception.cpp in a debug build, which append the place to the message.
use fuse3_p7zip.Base.{
  ℕ, Bytes, codes, ◌++◌, ◌∷◌, ◌≡◌, refl, ap, ◌⊎◌, inl, inr, true, false, Bool, append_assoc,
  if◌then◌else◌, Bool-cases,
}
use fuse3_p7zip.Base.Int.{ℤ}
use fuse3_p7zip.Base.Outcome.{Outcome, ok, throws, check_result}
use fuse3_p7zip.Host.{Host, Sys, done, failed}
use fuse3_p7zip.Exception.{decimal, throw_errno, check_errno, check_com}

-- `__FILE__`, `__LINE__` and `__PRETTY_FUNCTION__`
pub record Place : Type 0 where
  pub file : Bytes
  pub line : ℕ
  pub func : Bytes

abbrev new_line : Bytes
new_line = 10 ∷ codes "  "

unfoldable pub place_text : Place → Bytes
unfolding decimal
place_text p = new_line ++ p.func ++ codes ":" ++ decimal p.line ++ new_line ++ p.file

behind :
    (a b c d e place : Bytes) → a ++ b ++ c ++ d ++ e ++ place ≡ (a ++ b ++ c ++ d ++ e) ++ place
behind a b c d e place = simp append_assoc

module _ (h : Host) (p : Place) where
  -- `ThrowErrnoFunc`
  unfoldable pub throw_errno_at {ℓ} : {A : Type ℓ} → Bytes → ℕ → Outcome A
  unfolding decimal place_text
  throw_errno_at str errno =
      throws (str ++ codes " [" ++ decimal errno ++ codes "]: " ++ h.strerror errno ++ place_text p)

  -- `CheckErrno`
  unfoldable pub check_errno_at {ℓ} : {A : Type ℓ} → Sys A → Bytes → Outcome A
  unfolding throw_errno_at
  check_errno_at (done a) str = ok a
  check_errno_at (failed errno) str = throw_errno_at str errno

  -- `ThrowResultFunc` and `CheckResult`
  unfoldable pub check_result_at : Bool → Bytes → Outcome (Unit {0})
  unfolding place_text
  check_result_at true str = ok tt
  check_result_at false str = throws (str ++ place_text p)

  -- `CheckComFunc`
  unfoldable pub check_com_at : ℤ → Bytes → Outcome ℤ
  unfolding place_text
  check_com_at res str = if h.is_failed res then throws (str ++ place_text p) else ok res

  -- The same is returned, and a message that is thrown begins with that of a release build.
  abbrev Extends {ℓ} : {A : Type ℓ} → Outcome A → Outcome A → Type ℓ
  Extends {A = A} debug release =
      ((a : A) × (debug ≡ ok a) × (release ≡ ok a))
      ⊎ ((m : Bytes) × (debug ≡ throws (m ++ place_text p)) × (release ≡ throws m))

  check_errno-Extends {ℓ} :
      {A : Type ℓ} (call : Sys A) (str : Bytes)
      → Extends (check_errno_at call str) (check_errno h call str)
  unfolding check_errno_at check_errno throw_errno_at throw_errno
  check_errno-Extends (done a) str = inl (a, refl, refl)
  check_errno-Extends (failed errno) str = inr (
    str ++ codes " [" ++ decimal errno ++ codes "]: " ++ h.strerror errno,
    ap throws
        (behind str (codes " [") (decimal errno) (codes "]: ") (h.strerror errno) (place_text p)),
    refl,
  )

  check_result-Extends :
      (arg : Bool) (str : Bytes) → Extends (check_result_at arg str) (check_result arg str)
  unfolding check_result_at check_result
  check_result-Extends true str = inl (tt, refl, refl)
  check_result-Extends false str = inr (str, refl, refl)

  check_com-Extends : (res : ℤ) (str : Bytes) → Extends (check_com_at res str) (check_com h res str)
  unfolding check_com_at check_com
  check_com-Extends res str = elim (Bool-cases (h.is_failed res)) [
    | inl e ↦ inr (str, rw (e, check_com_at) refl, rw (e, check_com) refl)
    | inr e ↦ inl (res, rw (e, check_com_at) refl, rw (e, check_com) refl)
  ]

  -- Every check of a debug build returns what it does in a release build, or throws the same
  -- message with the place behind it.
  pub check-Extends {ℓ} :
      {A : Type ℓ} (call : Sys A) (arg : Bool) (res : ℤ) (str : Bytes)
      → Extends (check_errno_at call str) (check_errno h call str)
        × Extends (check_result_at arg str) (check_result arg str)
        × Extends (check_com_at res str) (check_com h res str)
  check-Extends call arg res str =
      (check_errno-Extends call str, check_result-Extends arg str, check_com-Extends res str)
