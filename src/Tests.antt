-- ===== src/Tests.antt =====
-- The theorems at concrete inputs: an archive of two items, its tree, its handles.
mod Files
mod Listings
mod Handles
mod Archives
mod Lifetimes
mod Texts
mod Encodings
mod Mounting
mod Serving
mod Process
mod Pointers
use fuse3_p7zip.Base.{
  ℕ, zero, suc, Bytes, codes, ◌≡◌, ◌≢◌, refl, Bool, true, false, List, [], ◌∷◌, ◌++◌, Option, none,
  some, ◌<◌, ◌≤◌, ◌==◌, nat_eq, if◌then◌else◌, arith,
}
use fuse3_p7zip.Base.Int.{ℤ, pos, negsuc}
use fuse3_p7zip.Base.Outcome.{Outcome, ok, throws, fault}
use fuse3_p7zip.Host.{Host, IsDocumented, Sys, done, failed}
use fuse3_p7zip.FilePath.{from_string}
use fuse3_p7zip.Fuse.Stat.{Stat, Timespec}
use fuse3_p7zip.Stdio.{new_file}
use fuse3_p7zip.Archive.Callback.{
  Call, extract, get_stream, prepare_operation, set_operation_result, set_total, write, release,
}
use fuse3_p7zip.Archive.Property.{Handler, Variant, PropId}
use fuse3_p7zip.Archive.Format.{Format}
use fuse3_p7zip.Archive.Iterator.{Archive, Iterator}
use fuse3_p7zip.Fuse.Tree.{read_entry, build_tree, Entry}

-- An `iconv` that drops the zero bytes of a wide text.
abbrev without_zeros : Bytes → Bytes
without_zeros [] = []
without_zeros (c ∷ s) = let rest = without_zeros s in if c == 0 then rest else c ∷ rest

abbrev no_failure : ℤ → Bool
no_failure (pos n) = false
no_failure (negsuc n) = true

abbrev host : Host
host = record {
  getenv = λ name. none;
  strerror = λ errno. codes "error";
  iconv_open = λ to from. done tt;
  iconv = λ to from input room. done (without_zeros input);
  s_ok = pos 0;
  s_false = pos 1;
  e_nointerface = negsuc 0x7fffbffd;
  is_failed = no_failure;
}

abbrev host-IsDocumented : IsDocumented host
host-IsDocumented = record {
  is_failed-pos = λ n. refl;
  is_failed-negsuc = λ n. refl;
  s_ok-eq = refl;
  s_false-eq = refl;
  e_nointerface-eq = refl;
}

abbrev properties : ℕ → PropId → ℤ × Variant
properties zero PropId.path = (pos 0, Variant.bstr (some (codes "d/f")))
properties zero PropId.size = (pos 0, Variant.ui8 3)
properties zero id = (pos 0, Variant.empty)
properties (suc n) PropId.path = (pos 0, Variant.bstr (some (codes "e")))
properties (suc n) PropId.is_dir = (pos 0, Variant.bool true)
properties (suc n) id = (pos 0, Variant.empty)

abbrev extraction : List Call
extraction =
    set_total 3
    ∷ get_stream 0 extract
    ∷ prepare_operation extract
    ∷ write (codes "ab")
    ∷ write (codes "c")
    ∷ release
    ∷ set_operation_result 0
    ∷ []

abbrev handler : Handler
handler = record {
  get_number_of_items = (pos 0, 2);
  get_property = properties;
  extract = λ index. (extraction, pos 0);
}

abbrev no_time : Timespec
no_time = record { sec = pos 0; nsec = pos 0 }

abbrev archive_stat : Stat
archive_stat = record {
  mode = 0o100644;
  size = pos 100;
  atim = no_time;
  mtim = no_time;
  ctim = no_time;
  ino = 7;
  nlink = 1;
  uid = 0;
  gid = 0;
}

abbrev format : Format
format = record {
  idx = 0;
  ext_def = codes "zip" ∷ codes "gz" ∷ [];
  ext_add = codes "*" ∷ codes "tar" ∷ [];
}

abbrev archive : Archive
archive = record {
  address = 16;
  path = from_string (codes "/x/a.zip");
  stat = archive_stat;
  format = format;
  handler = handler;
  size = 2;
}

abbrev item : ℕ → Iterator
item n = record { seq = some archive; index = n; at_end = false }
