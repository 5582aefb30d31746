-- ===== src/Exception.antt =====
-- src/exception.cpp and include/exception.hpp: the checks that throw.
pub mod Debug
use fuse3_p7zip.Base.{ℕ, Bytes, ◌++◌, codes, ◌/◌, ◌%◌, ◌+◌, [], ◌∷◌, ltb, if◌then◌else◌, zero, suc}
use fuse3_p7zip.Base.Int.{ℤ}
use fuse3_p7zip.Base.Outcome.{Outcome, ok, throws}
use fuse3_p7zip.Host.{Host, Sys, done, failed}

decimal_digits : ℕ → ℕ → Bytes
decimal_digits zero n = []
decimal_digits (suc fuel) n =
    let rest = decimal_digits fuel (n / 10) in
    if ltb n 10 then (b'0' + n) ∷ [] else rest ++ (b'0' + n % 10) ∷ []

-- `std::to_string(int)` of an error number; a number has at most as many digits as its value plus 1.
unfoldable pub decimal : ℕ → Bytes
unfolding decimal_digits
decimal n = decimal_digits (suc n) n

module _ (h : Host) where
  -- `ThrowErrnoFunc`
  unfoldable pub throw_errno {ℓ} : {A : Type ℓ} → Bytes → ℕ → Outcome A
  unfolding decimal
  throw_errno str errno =
      throws (str ++ codes " [" ++ decimal errno ++ codes "]: " ++ h.strerror errno)

  -- `CheckErrno`
  unfoldable pub check_errno {ℓ} : {A : Type ℓ} → Sys A → Bytes → Outcome A
  unfolding throw_errno
  check_errno (done a) str = ok a
  check_errno (failed errno) str = throw_errno str errno

  -- `CheckComFunc`: only a failure code throws, and any other code is returned.
  unfoldable pub check_com : ℤ → Bytes → Outcome ℤ
  check_com res str = if h.is_failed res then throws str else ok res
