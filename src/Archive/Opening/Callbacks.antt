-- ===== src/Archive/Opening/Callbacks.antt =====
-- ImplArchive of src/7zip/Archive.cpp as the callback of IInArchive::Open, and its size.
use fuse3_p7zip.Base.{ℕ, Bytes, Bool, Option, ◌==◌, nat_eq}
use fuse3_p7zip.Base.Int.{ℤ}
use fuse3_p7zip.Base.Outcome.{Outcome, ok, noexcept, ◌>>=◌}
use fuse3_p7zip.Host.{Host}
use fuse3_p7zip.Text.Encoding.{Wide, until_nul, wide_str}
use fuse3_p7zip.Archive.Iterator.{Archive}

-- OpenCallback and ExtractCallback of include/7zip.hpp
pub record OpenCallback : Type 0 where
  pub password : Bytes

pub record ExtractCallback : Type 0 where
  pub password : Bytes

abbrev pub request_password : OpenCallback → Bytes
request_password callback = callback.password

module _ (h : Host) where
  -- `SetTotal` and `SetCompleted` look at nothing.
  unfoldable pub set_total : Option ℕ → Option ℕ → ℤ
  set_total files bytes = h.s_ok

  unfoldable pub set_completed : Option ℕ → Option ℕ → ℤ
  set_completed files bytes = h.s_ok

  -- The text that `*pass` points to, and the code.
  unfoldable pub crypto_get_text_password : OpenCallback → Outcome (Wide × ℤ)
  unfolding noexcept wide_str until_nul
  crypto_get_text_password callback =
      noexcept
        (wide_str h (until_nul (request_password callback)) >>= λ wide. ok (until_nul wide, h.s_ok))

unfoldable pub size : Archive → ℕ
size a = a.size

unfoldable pub is_empty : Archive → Bool
unfolding nat_eq
is_empty a = a.size == 0
