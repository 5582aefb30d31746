-- ===== src/Text/Encoding.antt =====
-- The conversions of src/string.cpp, over the `iconv` of the C library.
pub mod RoundTrip
use mathlib.Core.List.{map}
use fuse3_p7zip.Base.{
  ℕ, Bytes, List, codes, ◌/◌, ◌%◌, ◌+◌, ◌*◌, [], ◌∷◌, if◌then◌else◌, ◌==◌, nat_eq, length,
}
use fuse3_p7zip.Base.Outcome.{Outcome, ok, ◌>>=◌, ◌>>◌}
use fuse3_p7zip.Host.{Host}
use fuse3_p7zip.Exception.{check_errno}

-- A `wchar_t` string: its code points, of 32 bits each.
abbrev pub Wide : Type 0
Wide = List ℕ

-- What a C string function sees of an array: the elements before the first 0.
unfoldable pub until_nul : List ℕ → List ℕ
unfolding nat_eq
until_nul [] = []
until_nul (c ∷ s) = let rest = until_nul s in if c == 0 then [] else c ∷ rest

-- A `wchar_t` array as bytes and back, low byte first.
unfoldable pub wide_bytes : Wide → Bytes
wide_bytes [] = []
wide_bytes (c ∷ s) =
    (c % 256) ∷ (c / 256 % 256) ∷ (c / 65536 % 256) ∷ (c / 16777216 % 256) ∷ wide_bytes s

unfoldable pub bytes_wide : Bytes → Wide
bytes_wide (a ∷ b ∷ c ∷ d ∷ s) = (a + 256 * b + 65536 * c + 16777216 * d) ∷ bytes_wide s
bytes_wide _ = []

module _ (h : Host) where
  -- `utf8(const char* str, const char* encoding)`
  unfoldable pub utf8_from : Bytes → Bytes → Outcome Bytes
  unfolding until_nul check_errno
  utf8_from str encoding = do
    check_errno h (h.iconv_open (codes "UTF-8") encoding) (codes "iconv_open: ")
    let input = until_nul str
    result ←
        check_errno h (h.iconv (codes "UTF-8") encoding input (length input * 6)) (codes "iconv: ")
    ok (until_nul result)

  -- `utf8raw`: each character is cut to its low byte.
  unfoldable pub utf8raw : Wide → Bytes → Outcome Bytes
  unfolding utf8_from until_nul
  utf8raw wstr encoding = utf8_from (map (λ c. c % 256) (until_nul wstr)) encoding

  -- `utf8(const wchar_t* wstr)`
  unfoldable pub utf8 : Wide → Outcome Bytes
  unfolding until_nul check_errno wide_bytes
  utf8 wstr = do
    check_errno h (h.iconv_open (codes "UTF-8") (codes "UTF-32")) (codes "iconv_open: ")
    let input = wide_bytes (until_nul wstr)
    result ←
        check_errno h (h.iconv (codes "UTF-8") (codes "UTF-32") input (length input * 6))
          (codes "iconv: ")
    ok (until_nul result)

  -- `wide_str`
  unfoldable pub wide_str : Bytes → Outcome Wide
  unfolding until_nul check_errno bytes_wide
  wide_str str = do
    check_errno h (h.iconv_open (codes "WCHAR_T") (codes "UTF-8")) (codes "iconv_open: ")
    let input = until_nul str
    result ←
        check_errno h (h.iconv (codes "WCHAR_T") (codes "UTF-8") input (length input * 4 * 4))
          (codes "iconv: ")
    ok (until_nul (bytes_wide result))
