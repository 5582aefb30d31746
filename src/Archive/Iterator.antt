-- ===== src/Archive/Iterator.antt =====
-- ci_iterator of src/7zip/Archive.cpp, and the archive that it walks.
pub mod Laws
pub mod Values
use fuse3_p7zip.Base.{
  ℕ, zero, suc, ◌+◌, ◌<◌, ◌%◌, ◌^◌, Bytes, codes, ◌≡◌, refl, Bool, true, false, ◌&&◌, ◌||◌, List,
  [], ◌∷◌, ◌++◌, Option, none, some, ◌==◌, nat_eq, list_eq, if◌then◌else◌, leb, get_elem?, not,
}
use fuse3_p7zip.Base.Int.{ℤ, pos}
use fuse3_p7zip.Base.Outcome.{Outcome, ok, throws, fault, ◌>>=◌, ◌>>◌}
use fuse3_p7zip.Host.{Host}
use fuse3_p7zip.Exception.{check_com}
use fuse3_p7zip.FilePath.{FilePath, from_string, to_string, filename}
use fuse3_p7zip.Fuse.Stat.{Stat, Timespec}
use fuse3_p7zip.Archive.Format.{Format}
use fuse3_p7zip.Archive.Property
use fuse3_p7zip.Archive.Property.{
  Handler, Variant, PropId, path_of, text_of, size_of, time_of, is_dir_of,
}

-- `ImplArchive`, when it is open: its address, the file's path and stat, the selected format, the
-- handler, and the item count, a UInt32.
pub record Archive : Type 0 where
  pub address : ℕ
  pub path : FilePath
  pub stat : Stat
  pub format : Format
  pub handler : Handler
  pub size : ℕ

abbrev pub word32 : ℕ
word32 = 2 ^ 32

-- `ci_iterator::Impl`
pub record Iterator : Type 0 where
  pub seq : Option Archive
  pub index : ℕ
  pub at_end : Bool

-- `Impl()`, `Impl(seq)` and `Impl(seq, index)`
unfoldable pub end_iterator : Iterator
end_iterator = record { seq = none; index = 0; at_end = true }

unfoldable pub begin_iterator : Archive → Iterator
begin_iterator a = record { seq = some a; index = 0; at_end = leb a.size 0 }

unfoldable pub iterator_at : Archive → ℕ → Iterator
iterator_at a index = record {
  seq = some a;
  index = index;
  at_end = leb a.size 0 || leb a.size index;
}

-- `ImplArchive::at`
unfoldable pub at : Host → Archive → ℕ → Outcome Iterator
unfolding iterator_at check_com
at h a index =
    (if leb a.size index then check_com h (pos 1) (codes "out of bounds") else ok (pos 0)) >>= λ _.
    ok (iterator_at a index)

-- `operator++`
unfoldable pub advance : Iterator → Outcome Iterator
advance it = elim it.seq [
  | none ↦ fault
  | some a ↦
      let index = (it.index + 1) % word32 in
      ok (record {
        seq = it.seq;
        index = index;
        at_end = if leb a.size index then true else it.at_end;
      })
]

-- Pointers are compared by address; 0 is the null pointer.
abbrev pub address_of : Option Archive → ℕ
address_of none = 0
address_of (some a) = a.address

-- `operator==`
unfoldable pub iterator_eq : Iterator → Iterator → Bool
unfolding nat_eq
iterator_eq x y =
    if x.at_end && y.at_end
    then true
    else address_of x.seq == address_of y.seq && x.index == y.index

module _ (h : Host) where
  -- `Impl::get_prop`
  unfoldable pub get_prop : Iterator → PropId → Outcome (ℤ × Variant)
  get_prop it id = elim it.seq [ none ↦ fault | some a ↦ ok (a.handler.get_property it.index id) ]

  unfoldable pub path : Iterator → Outcome Bytes
  unfolding get_prop path_of
  path it = get_prop it PropId.path >>= path_of h

  unfoldable pub name : Iterator → Outcome Bytes
  unfolding get_prop text_of
  name it = get_prop it PropId.name >>= text_of h

  unfoldable pub extension : Iterator → Outcome Bytes
  unfolding get_prop text_of
  extension it = get_prop it PropId.extension >>= text_of h

  unfoldable pub comment : Iterator → Outcome Bytes
  unfolding get_prop text_of
  comment it = get_prop it PropId.comment >>= text_of h

  unfoldable pub size : Iterator → Outcome ℕ
  unfolding get_prop size_of
  size it = get_prop it PropId.size >>= λ v. ok (size_of h v)

  unfoldable pub size_packed : Iterator → Outcome ℕ
  unfolding get_prop size_of
  size_packed it = get_prop it PropId.pack_size >>= λ v. ok (size_of h v)

  unfoldable pub atime : Iterator → Outcome Timespec
  unfolding get_prop time_of
  atime it = get_prop it PropId.atime >>= λ v. ok (time_of h v)

  unfoldable pub mtime : Iterator → Outcome Timespec
  unfolding get_prop time_of
  mtime it = get_prop it PropId.mtime >>= λ v. ok (time_of h v)

  unfoldable pub ctime : Iterator → Outcome Timespec
  unfolding get_prop time_of
  ctime it = get_prop it PropId.ctime >>= λ v. ok (time_of h v)

  unfoldable pub is_dir : Iterator → Outcome Bool
  unfolding get_prop is_dir_of
  is_dir it = get_prop it PropId.is_dir >>= λ v. ok (is_dir_of h v)

  unfoldable pub is_file : Iterator → Outcome Bool
  unfolding is_dir
  is_file it = is_dir it >>= λ b. ok (not b)
