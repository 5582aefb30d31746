-- ===== src/Archive/Method.antt =====
-- The methods of the library: src/7zip/Method.cpp.
use fuse3_p7zip.Base.{ℕ, zero, suc, ◌+◌, Bytes, codes, List, [], ◌∷◌}
use fuse3_p7zip.Base.Int.{ℤ}
use fuse3_p7zip.Base.Outcome.{Outcome, ok, noexcept, ◌>>=◌}
use fuse3_p7zip.Host.{Host}
use fuse3_p7zip.Exception.{check_com}
use fuse3_p7zip.Text.Encoding.{utf8}
use fuse3_p7zip.Archive.Property.{Variant, bstr_val, decode_or_nothing}

-- What 7z.so says of its methods: how many, and the name of each.
pub record MethodExports : Type 0 where
  pub get_number_of_methods : ℤ × ℕ
  pub get_method_name : ℕ → ℤ × Variant

-- ImplMethod, by its index
pub record Method : Type 0 where
  pub idx : ℕ

methods_from : ℕ → ℕ → List Method
methods_from zero idx = []
methods_from (suc n) idx = record { idx = idx } ∷ methods_from n (idx + 1)

module _ (h : Host) (lib : MethodExports) where
  -- `ImplMethod::name`, which is noexcept.
  unfoldable pub method_name : Method → Outcome Bytes
  unfolding check_com bstr_val decode_or_nothing utf8 noexcept
  method_name m = noexcept do
    _ ← check_com h (lib.get_method_name m.idx).0 (codes "GetMethodProperty")
    s ← bstr_val (lib.get_method_name m.idx).1
    decode_or_nothing h s (utf8 h)

  -- `ImplLib::fill_methods`
  unfoldable pub fill_methods : Outcome (List Method)
  unfolding methods_from check_com
  fill_methods = do
    _ ← check_com h lib.get_number_of_methods.0 (codes "GetNumberOfMethods")
    ok (methods_from lib.get_number_of_methods.1 0)
