-- ===== src/Archive/Property.antt =====
-- The properties of the items: ci_iterator's accessors of src/7zip/Archive.cpp.
pub mod Laws
use fuse3_p7zip.Base.{
  List, ℕ, Bytes, codes, Bool, false, Option, none, some, ◌/◌, ◌%◌, ◌+◌, ◌-◌, ◌*◌, [],
  if◌then◌else◌, ◌==◌, nat_eq,
}
use fuse3_p7zip.Base.Int.{ℤ, pos, ℤ-eq, int64, word64}
use fuse3_p7zip.Base.Outcome.{Outcome, ok, fault, ◌>>=◌}
use fuse3_p7zip.Host.{Host}
use fuse3_p7zip.Text.Encoding.{Wide, utf8, utf8raw}
use fuse3_p7zip.Fuse.Stat.{Timespec}
use fuse3_p7zip.Archive.Callback.{Call}

-- kpidPath, kpidName, and so on
pub data PropId : Type 0 where
  path name extension comment size pack_size atime mtime ctime is_dir : PropId

-- `CPropVariant`: its tag `vt` and the member of the union that the tag names. A fresh one is
-- empty, with a null pointer in `bstrVal`.
pub data Variant : Type 0 where
  empty : Variant
  bstr : Option Wide → Variant
  ui8 : ℕ → Variant
  filetime : ℕ → Variant
  bool : Bool → Variant
  other : ℕ → Variant

-- `IInArchive`: the item count, the properties by index, and the calls that `Extract` makes for an
-- index, with its code. The handler answers alike each time, and does not heed our answers.
pub record Handler : Type 0 where
  pub get_number_of_items : ℤ × ℕ
  pub get_property : ℕ → PropId → ℤ × Variant
  pub extract : ℕ → List Call × ℤ

-- `prop.bstrVal`, read whatever the tag says.
unfoldable pub bstr_val : Variant → Outcome (Option Wide)
bstr_val empty = ok none
bstr_val (bstr s) = ok s
bstr_val v = fault

-- `prop.vt == 8 && prop.bstrVal`
unfoldable pub bstr_checked : Variant → Option Wide
bstr_checked (bstr s) = s
bstr_checked v = none

-- `_to_time`: a FILETIME counts 100 ns from 1601.
unfoldable pub to_time : ℕ → Timespec
to_time ft = record { sec = int64 (date / 10000000); nsec = int64 date }
  where
    date : ℕ
    date = (ft + word64 - 11644473600000 * 10000) % word64

module _ (h : Host) where
  -- FUSE3_P7ZIP_FORCE_ENCODING decides how the path is decoded.
  unfoldable pub decode_path : Wide → Outcome Bytes
  unfolding utf8 utf8raw
  decode_path wstr = elim (h.getenv (codes "FUSE3_P7ZIP_FORCE_ENCODING")) [
    | none ↦ utf8 h wstr
    | some encoding ↦ utf8raw h wstr encoding
  ]

  unfoldable pub decode_or_nothing : Option Wide → (Wide → Outcome Bytes) → Outcome Bytes
  decode_or_nothing none decode = ok []
  decode_or_nothing (some wstr) decode = decode wstr

  unfoldable pub path_of : ℤ × Variant → Outcome Bytes
  unfolding bstr_val decode_path decode_or_nothing ℤ-eq
  path_of (res, prop) =
      if res == h.s_ok then (bstr_val prop >>= λ s. decode_or_nothing s (decode_path)) else ok []

  -- `name`, `extension` and `comment`
  unfoldable pub text_of : ℤ × Variant → Outcome Bytes
  unfolding bstr_checked utf8 decode_or_nothing ℤ-eq
  text_of (res, prop) =
      if res == h.s_ok then decode_or_nothing (bstr_checked prop) (utf8 h) else ok []

  -- `size` and `size_packed`
  unfoldable pub size_of : ℤ × Variant → ℕ
  unfolding ℤ-eq
  size_of (res, prop) = if res == h.s_ok then elim prop [ ui8 n ↦ n | _ ↦ 0 ] else 0

  abbrev epoch : Timespec
  epoch = record { sec = pos 0; nsec = pos 0 }

  -- `atime`, `mtime` and `ctime`: a FILETIME of 0 is no time.
  unfoldable pub time_of : ℤ × Variant → Timespec
  unfolding to_time ℤ-eq nat_eq
  time_of (res, prop) =
      if res == h.s_ok
      then elim prop [ filetime ft ↦ if ft == 0 then epoch else to_time ft | _ ↦ epoch ]
      else epoch

  unfoldable pub is_dir_of : ℤ × Variant → Bool
  unfolding ℤ-eq
  is_dir_of (res, prop) = if res == h.s_ok then elim prop [ bool b ↦ b | _ ↦ false ] else false
