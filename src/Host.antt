-- ===== src/Host.antt =====
-- What the program takes from elsewhere: the C library's environment, error texts and `iconv`, and
-- the HRESULT codes of the 7zip headers (3rdparty/7zip, a submodule).
use fuse3_p7zip.Base.{ℕ, Bytes, ◌≡◌, Bool, true, false, Option}
use fuse3_p7zip.Base.Int.{ℤ, pos, negsuc}

-- A system call gives a value, or fails and sets `errno`.
pub data Sys {ℓ} (A : Type ℓ) : Type ℓ where
  done : A → Sys A
  failed : ℕ → Sys A

pub record Host : Type 0 where
  pub getenv : Bytes → Option Bytes
  pub strerror : ℕ → Bytes
  -- To the first encoding from the second.
  pub iconv_open : Bytes → Bytes → Sys (Unit {0})
  -- Then the input, and the room for the output in bytes.
  pub iconv : Bytes → Bytes → Bytes → ℕ → Sys Bytes
  pub s_ok : ℤ
  pub s_false : ℤ
  pub e_nointerface : ℤ
  -- `FAILED(res)`
  pub is_failed : ℤ → Bool

-- The documented meaning of the HRESULT codes: a failure is negative, S_OK is 0, S_FALSE is 1.
pub record IsDocumented (h : Host) : Type 0 where
  pub is_failed-pos : (n : ℕ) → h.is_failed (pos n) ≡ false
  pub is_failed-negsuc : (n : ℕ) → h.is_failed (negsuc n) ≡ true
  pub s_ok-eq : h.s_ok ≡ pos 0
  pub s_false-eq : h.s_false ≡ pos 1
  pub e_nointerface-eq : h.e_nointerface ≡ negsuc 0x7fffbffd
