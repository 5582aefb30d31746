-- ===== src/Com/Errors.antt =====
-- ConvertErrorToHRESULT and ConvertBoolToHRESULT of src/7zip/com.cpp. HRESULT_FROM_WIN32 and
-- GetLastError are parameters.
use fuse3_p7zip.Base.{◌≢◌, Bool, false, ◌==◌, if◌then◌else◌, arith}
use fuse3_p7zip.Base.Int.{ℤ, pos, ℤ-eq}
use fuse3_p7zip.Host.{Host}

module _ (h : Host) (hresult_from_win32 : ℤ → ℤ) where
  unfoldable pub convert_error : ℤ → ℤ
  unfolding ℤ-eq
  convert_error error = if error == pos 0 then h.s_ok else hresult_from_win32 error

  unfoldable pub convert_bool : Bool → ℤ → ℤ
  unfolding convert_error
  convert_bool result last_error = if result then h.s_ok else convert_error last_error

  -- If no error is converted to S_OK, a failed call that has set an error is never reported as S_OK.
  convert_bool_failed :
      (last_error : ℤ)
      → ((error : ℤ) → error ≢ pos 0 → hresult_from_win32 error ≢ h.s_ok)
      → last_error ≢ pos 0
      → convert_bool false last_error ≢ h.s_ok
  unfolding convert_bool convert_error
  convert_bool_failed last_error kept e = ground (arith, e, kept last_error e)
