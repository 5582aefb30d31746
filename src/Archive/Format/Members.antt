-- ===== src/Archive/Format/Members.antt =====
-- The other members of ImplFormat in src/7zip/Format.cpp, and of IFormat in include/7zip.hpp. The
-- program itself reads `guid` alone of them.
use fuse3_p7zip.Base.{
  ℕ, Bytes, codes, List, Bool, false, nat_eq, list_eq, ◌==◌, if◌then◌else◌, leb, length, take, some,
  Option, none, [], ◌∷◌, ◌++◌,
}
use fuse3_p7zip.Base.Int.{ℤ, ℤ-eq}
use fuse3_p7zip.Base.Outcome.{Outcome, ok, fault, noexcept, ◌>>=◌}
use fuse3_p7zip.Host.{Host}
use fuse3_p7zip.FilePath.{bytes_lt}
use fuse3_p7zip.Text.Encoding.{wide_bytes}
use fuse3_p7zip.Exception.{check_com}
use fuse3_p7zip.Archive.Property.{Variant, bool, bstr_val}
use fuse3_p7zip.Archive.Format.{Exports, Format, update, class_id, get_prop, format_name}

-- `prop.boolVal`, where the tag names it; a fresh variant has 0 there.
unfoldable pub bool_val : Variant → Outcome Bool
bool_val Variant.empty = ok false
bool_val (bool b) = ok b
bool_val v = fault

abbrev pub guid_size : ℕ
guid_size = 16

-- `memcpy(&_guid, prop.bstrVal, sizeof(GUID))`: a text that is shorter, with the 0 behind it, is read
-- beyond its end.
unfoldable pub guid_bytes : Variant → Outcome Bytes
unfolding bstr_val wide_bytes
guid_bytes prop = do
  text ← bstr_val prop
  elim text [
    | none ↦ fault
    | some wstr ↦
        let behind = wide_bytes (wstr ++ 0 ∷ []) in
        if leb guid_size (length behind) then ok (take guid_size behind) else fault
  ]

module _ (h : Host) (lib : Exports) where
  -- `get_prop(index, prop_id, bool&)`
  unfoldable pub get_prop_bool : ℕ → Bool → Outcome (ℤ × Bool)
  unfolding get_prop bool_val ℤ-eq
  get_prop_bool index value = do
    (res, prop) ← get_prop h lib index update
    if res == h.s_ok then (bool_val prop >>= λ b. ok (res, b)) else ok (res, value)

  unfoldable pub updatable : Format → Outcome Bool
  unfolding get_prop_bool check_com noexcept
  updatable f = noexcept do
    (res, result) ← get_prop_bool f.idx false
    _ ← check_com h res (codes "get_prop")
    ok result

  -- `operator==` and `operator<` of IFormat, by the name.
  unfoldable pub format_eq : Format → Bytes → Outcome Bool
  unfolding format_name list_eq nat_eq
  format_eq f rhs = format_name h lib f >>= λ text. ok (text == rhs)

  unfoldable pub format_lt : Format → Bytes → Outcome Bool
  unfolding format_name bytes_lt
  format_lt f rhs = format_name h lib f >>= λ text. ok (bytes_lt text rhs)

  -- `guid`: what the member `_guid` holds then, and held before; `none` is a member that is not set.
  -- The code of `get_prop` alone is tested; the bytes are those behind a pointer, which a text has
  -- if it is not null.
  unfoldable pub guid : Format → Option Bytes → Outcome (Option Bytes)
  unfolding get_prop guid_bytes ℤ-eq noexcept
  guid f kept = noexcept do
    (res, prop) ← get_prop h lib f.idx class_id
    if res == h.s_ok then (guid_bytes prop >>= λ id. ok (some id)) else ok kept

unfoldable pub default_extension : Format → List Bytes
default_extension f = f.ext_def

unfoldable pub additional_extension : Format → List Bytes
additional_extension f = f.ext_add
