-- ===== src/Tests/Archives.antt =====
-- Formats, iterators, names and times.
use fuse3_p7zip.Base.{
  ℕ, zero, suc, Bytes, codes, ◌≡◌, refl, false, List, [], ◌∷◌, none, some, nat_eq, list_eq, arith,
  take, drop, ◌+◌, replicate,
}
use fuse3_p7zip.Base.Int.{pos, ◌<ℤ◌}
use fuse3_p7zip.Base.Outcome.{Outcome, ok}
use mathlib.Core.List.{Perm}
use fuse3_p7zip.Text.Encoding
use fuse3_p7zip.Text.Encoding.{wide_bytes}
use fuse3_p7zip.Archive.ProposedName
use fuse3_p7zip.FilePath
use fuse3_p7zip.FilePath.{from_string}
use fuse3_p7zip.Stdio.{File, Whence, pad}
use fuse3_p7zip.Stream.Read.{ReadStream}
use fuse3_p7zip.Stream.Write
use fuse3_p7zip.Stream.Write.Laws.{write_com_short, write-seek-read}
use fuse3_p7zip.Archive.Property.{Variant, to_time}
use fuse3_p7zip.Archive.Property.Laws.{to_time_lem, to_time_before}
use fuse3_p7zip.Archive.Format.{Exports, Format, format_name, class_id}
use fuse3_p7zip.Archive.Format.Order.{reorder}
use fuse3_p7zip.Archive.Format.Order.Laws.{reorder-Perm, reorder-first}
use fuse3_p7zip.Archive.Iterator.{Archive}
use fuse3_p7zip.Archive.ProposedName.{proposed_name, extension, split_name}
use fuse3_p7zip.Archive.ProposedName.Laws.{proposed_name-first}
use fuse3_p7zip.Archive.Opening.{Library, Candidate, class_id_of, open_archive}
use fuse3_p7zip.Archive.Opening.Laws.{open_archive-first}
use fuse3_p7zip.Tests.{host, host-IsDocumented, archive, archive_stat, format, handler}

-- A library of two formats: the handler of the first reads a byte and refuses.
abbrev pub format_1 : Format
format_1 = record format { idx = 1 }

abbrev exports : Exports
exports = record {
  get_number_of_formats = (pos 0, 2);
  get_handler_property2 = some (λ idx id.
      (pos 0, Variant.bstr (some (elim id [ class_id ↦ idx ∷ 0 ∷ 0 ∷ [] | _ ↦ codes "zip" ]))));
  get_handler_property = none;
}

abbrev candidate : ℕ → Candidate
candidate idx = record {
  handler = handler;
  open_stream = λ s. (
    record s { file = record s.file { position = 1 } },
    elim idx [ zero ↦ pos 1 | suc n ↦ pos 0 ],
  );
  get_number_of_archive_properties = (pos 0, 0);
}

abbrev pub library : Library
library = record {
  exports = exports;
  formats = format ∷ format_1 ∷ [];
  create_object = λ id. (pos 0, candidate (elim id [ [] ↦ 0 | idx ∷ rest ↦ idx ]));
}

abbrev stream_at : ℕ → ReadStream
stream_at n = record {
  path = from_string (codes "/x/a.zip");
  stat = archive_stat;
  file = record { content = codes "PK"; position = n; error = false; room = 2 };
}

named : format_name host exports format_1 ≡ ok (codes "zip")
unfolding format_name Encoding.utf8
named = refl

-- The class id of the format with that index.
abbrev id_of : ℕ → Bytes
id_of idx = idx ∷ replicate 15 0

first_known : class_id_of host library format ≡ ok (id_of 0)
unfolding class_id_of wide_bytes
first_known = refl

second_known : class_id_of host library format_1 ≡ ok (id_of 1)
unfolding class_id_of wide_bytes
second_known = refl

open_archive-first_example :
    open_archive host library (format ∷ format_1 ∷ []) (stream_at 2)
    ≡ ok (record { format = format_1; candidate = candidate 1; stream = stream_at 1 })
open_archive-first_example =
    open_archive-first host library (format ∷ []) [] format_1 (id_of 1) (stream_at 2) (stream_at 1)
      refl (id_of 0, first_known, refl, (λ e. cc), refl) second_known refl refl named

-- A library that refuses with each handler, and has no class id for the second format.
abbrev nameless : Library
nameless = record library {
  exports = record exports {
    get_handler_property2 = some (λ idx id.
        (pos 0, elim idx [ zero ↦ Variant.bstr (some (codes "zip")) | suc n ↦ Variant.empty ]));
  };
  create_object = λ id. (pos 0, candidate 0);
}

-- The names of three formats.
abbrev name_of_index : ℕ → Outcome Bytes
name_of_index zero = ok (codes "7z")
name_of_index (suc zero) = ok (codes "zip")
name_of_index (suc (suc n)) = ok (codes "Split")

reorder-Perm_example :
    (out : List ℕ) × (reorder name_of_index
        (codes "zip" ∷ codes "*" ∷ codes "7z" ∷ [])
        (0 ∷ 1 ∷ 2 ∷ [])
      ≡ ok out)
    × Perm (0 ∷ 1 ∷ 2 ∷ []) out
reorder-Perm_example =
    reorder-Perm name_of_index (codes "zip" ∷ codes "*" ∷ codes "7z" ∷ []) (0 ∷ 1 ∷ 2 ∷ [])
      ((codes "7z", refl), ((codes "zip", refl), ((codes "Split", refl), tt)))

reorder-first_example :
    (rest : List ℕ) × (reorder name_of_index
        (codes "zip" ∷ codes "*" ∷ codes "7z" ∷ [])
        (0 ∷ 1 ∷ 2 ∷ [])
      ≡ ok (1 ∷ rest))
reorder-first_example =
    reorder-first name_of_index (codes "zip") (codes "*" ∷ codes "7z" ∷ []) (0 ∷ []) (2 ∷ []) 1
      (λ e. cc) ((codes "7z", refl, (λ e. cc)), tt) refl ((codes "Split", refl), tt)

-- The star puts the formats that are named behind it last.
reordered :
    reorder name_of_index (codes "zip" ∷ codes "*" ∷ codes "7z" ∷ []) (0 ∷ 1 ∷ 2 ∷ [])
    ≡ ok (1 ∷ 2 ∷ 0 ∷ [])
unfolding reorder
reordered = refl

abbrev long_archive : Archive
long_archive = record archive { path = from_string (codes "/x/a.gz") }

proposed_name-first_example : proposed_name long_archive ≡ ok (codes "a.tar")
unfolding split_name FilePath.filename from_string ProposedName.replace_extension
proposed_name-first_example =
    proposed_name-first long_archive 1 (codes "gz") (codes "tar") ((λ e. cc), refl) refl refl
      (λ e. cc)

-- A format with an extension that has no replacement.
abbrev short_archive : Archive
short_archive = record archive {
  path = from_string (codes "/x/a.gz");
  format = record format { ext_add = codes "*" ∷ [] };
}

-- A second after 1970
to_time_lem_example : to_time 116444736010000000 ≡ record { sec = pos 1; nsec = pos 10000000 }
to_time_lem_example = to_time_lem 116444736010000000 (omega arith) (omega arith)

to_time_before_example : pos (1099511627776) <ℤ (to_time 116444735990000000).sec
to_time_before_example = to_time_before 116444735990000000 (omega arith)

abbrev full : File
full = record { content = codes "ab"; position = 2; error = false; room = 3 }

write_com_short_example :
    ((Write.write_com (codes "cd") full).2 ≡ 1)
    × (host.is_failed (Write.write_com (codes "cd") full).1 ≡ false)
write_com_short_example =
    write_com_short host full (codes "cd") host-IsDocumented (omega arith) (omega arith)

-- Two bytes are written over the middle of five.
abbrev middle : File
middle = record { content = codes "abcde"; position = 1; error = false; room = 9 }

write-seek-read_example :
    ((Write.read 2 (Write.seek 1 Whence.set (Write.write (codes "xy") middle).0).0).1 ≡ codes "xy")
    × (take 1 (Write.write (codes "xy") middle).0.content ≡ take 1 (pad 1 (codes "abcde")))
    × (drop (1 + 2) (Write.write (codes "xy") middle).0.content ≡ drop (1 + 2) (codes "abcde"))
write-seek-read_example = write-seek-read middle b'x' (codes "y") (omega arith) (omega arith)
