-- ===== src/Archive/Format.antt =====
-- src/7zip/Format.cpp and src/7zip/Library.cpp: the formats that the library offers.
pub mod Order
pub mod Members
use fuse3_p7zip.Base.{
  ℕ, zero, suc, ◌+◌, ◌<◌, Bytes, codes, ◌≡◌, refl, Bool, true, false, List, [], ◌∷◌, ◌++◌, Option,
  none, some, ◌==◌, nat_eq, list_eq, if◌then◌else◌,
}
use fuse3_p7zip.Base.Int.{ℤ, ℤ-eq}
use fuse3_p7zip.Base.Outcome.{Outcome, ok, throws, fault, noexcept, ◌>>=◌, ◌>>◌}
use fuse3_p7zip.Host.{Host}
use fuse3_p7zip.Exception.{check_com}
use fuse3_p7zip.Text.Encoding.{Wide, utf8}
use fuse3_p7zip.Text.Split.{split}
use Order.{reorder}
use mathlib.Core.List.{map}
use fuse3_p7zip.Archive.Property.{Variant, empty, bstr, bstr_val}

-- NArchive::NHandlerPropID
pub data HandlerProp : Type 0 where
  name class_id extension add_extension update : HandlerProp

-- The functions that 7z.so exports; GetHandlerProperty and GetHandlerProperty2 may be missing.
pub record Exports : Type 0 where
  pub get_number_of_formats : ℤ × ℕ
  pub get_handler_property2 : Option (ℕ → HandlerProp → ℤ × Variant)
  pub get_handler_property : Option (HandlerProp → ℤ × Variant)

-- `ImplFormat`: its index, and the lists of extensions that its constructor reads.
pub record Format : Type 0 where
  pub idx : ℕ
  pub ext_def : List Bytes
  pub ext_add : List Bytes

module _ (h : Host) (lib : Exports) where
  -- `ImplLib::get_prop(index, prop_id, prop)`: the older function does not see the index.
  unfoldable pub get_prop : ℕ → HandlerProp → Outcome (ℤ × Variant)
  get_prop index id = elim lib.get_handler_property2 [
    | some f ↦ ok (f index id)
    | none ↦ elim lib.get_handler_property [ some g ↦ ok (g id) | none ↦ fault ]
  ]

  assign_text : ℤ → Option Wide → Bytes → Outcome (ℤ × Bytes)
  assign_text res none value = ok (res, value)
  assign_text res (some wstr) value = utf8 h wstr >>= λ text. ok (res, text)

  -- `get_prop(index, prop_id, std::string&)`, which is noexcept: the value stays as it was unless a
  -- text is there.
  unfoldable pub get_prop_text : ℕ → HandlerProp → Bytes → Outcome (ℤ × Bytes)
  unfolding get_prop assign_text bstr_val ℤ-eq noexcept
  get_prop_text index id value = noexcept do
    (res, prop) ← get_prop index id
    if res == h.s_ok then (bstr_val prop >>= λ s. assign_text res s value) else ok (res, value)

  -- The constructor of `ImplFormat`; the two codes are not checked.
  unfoldable pub make_format : ℕ → Outcome Format
  unfolding get_prop_text split
  make_format idx = do
    (_, ext) ← get_prop_text idx extension []
    (_, add) ← get_prop_text idx add_extension []
    ok (record { idx = idx; ext_def = split (codes " ") ext; ext_add = split (codes " ") add })

  -- `ImplFormat::name`, which is noexcept.
  unfoldable pub format_name : Format → Outcome Bytes
  unfolding get_prop_text check_com noexcept
  format_name f =
      noexcept do
        (res, text) ← get_prop_text f.idx name []
        _ ← check_com h res (codes "get_prop")
        ok text

  -- The loop of `fill_formats` over the indices from `idx` on.
  make_formats : ℕ → ℕ → Outcome (List Format)
  unfolding make_format
  make_formats zero idx = ok []
  make_formats (suc n) idx = do f ← make_format idx; rest ← make_formats n (idx + 1); ok (f ∷ rest)

  reorder_by : Option Bytes → List Format → Outcome (List Format)
  unfolding format_name reorder split
  reorder_by none formats = ok formats
  reorder_by (some value) formats = reorder format_name (split (codes ":") value) formats

  -- `ImplLib::fill_formats`
  unfoldable pub fill_formats : Outcome (List Format)
  unfolding make_formats reorder_by check_com
  fill_formats = do
    _ ← check_com h lib.get_number_of_formats.0 (codes "GetNumberOfFormats")
    formats ← make_formats lib.get_number_of_formats.1 0
    reorder_by (h.getenv (codes "FUSE3_P7ZIP_FORMATS")) formats
