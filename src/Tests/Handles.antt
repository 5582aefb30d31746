-- ===== src/Tests/Handles.antt =====
-- The handles of a session over the archive's tree.
use fuse3_p7zip.Base.{
  codes, ◌≡◌, ◌↔◌, refl, false, List, [], ◌∷◌, Option, none, some, nat_eq, arith, ◌++◌,
}
use fuse3_p7zip.Base.Int.{pos}
use fuse3_p7zip.Base.Outcome.{ok}
use fuse3_p7zip.Host.{done}
use fuse3_p7zip.FilePath.{FilePath-eq, from_string, to_string}
use fuse3_p7zip.OrderedMap.{find}
use fuse3_p7zip.Text.Encoding.{wide_str}
use fuse3_p7zip.Stdio.{File, new_file}
use fuse3_p7zip.Stream.Write
use fuse3_p7zip.Archive.Extractor
use fuse3_p7zip.Archive.Extractor.{execute}
use fuse3_p7zip.Stdio
use fuse3_p7zip.Archive.Extractor.Laws.{IsOrderly}
use fuse3_p7zip.Stdio.{Whence}
use fuse3_p7zip.Archive.Callback.{
  Call, extract as extract_mode, get_stream, write, seek, set_size, release,
}
use fuse3_p7zip.Archive.Extractor.Played.{execute-played}
use fuse3_p7zip.Fuse.Tree.{add_entries, root_tree}
use fuse3_p7zip.Fuse.Operations.{Session, set_file, extract, cb_open, cb_read, cb_release, too_big}
use fuse3_p7zip.Fuse.Operations.Handles.{Holds, reading, nothing, then_step}
use fuse3_p7zip.Fuse.Operations.Opening.{open-written, open_answers, IsAnswer, Steps-read}
use fuse3_p7zip.Fuse.Operations.Whole.{read_whole, read_whole-content}
use fuse3_p7zip.Fuse.Loop.{
  Request, Answer, getattr, readdir, opens as opens_path, reads, releases as releases_handle, serve,
}
use fuse3_p7zip.Fuse.Loop.Spec.{after, AllLegal, AllAllowed}
use fuse3_p7zip.Fuse.Loop.Mounted.{file_system, nothing_open, Extractable, mounted-AllAllowed}
use fuse3_p7zip.Archive.Iterator.{end_iterator}
use fuse3_p7zip.Tests.Files.{tree-IsClosed, tree-NodupKeys}
use fuse3_p7zip.Tests.{host, archive, handler, extraction, item}
use fuse3_p7zip.Tests.Files.{tree, stat_0}

abbrev pub session : Session
session = record { tree = tree; password = []; files = λ k. none; tmpfile = done (new_file 100) }

abbrev extracted : File
extracted = record { content = codes "abc"; position = 0; error = false; room = 100 }

-- The session with that stream at the first address.
abbrev with_file : File → Session
with_file f = record session { files = set_file session.files 0 (some f) }

pub password_decodes : wide_str host [] ≡ ok []
unfolding wide_str
password_decodes = refl

pub orderly : IsOrderly false false extraction
orderly = (refl, (refl, (refl, (refl, refl, tt))))

found : find (from_string (codes "/d/f")) tree ≡ some (item 0, stat_0)
unfolding find FilePath-eq from_string add_entries root_tree
found = refl

small : too_big host stat_0 ≡ false
unfolding too_big
small = refl

-- A library that goes back over what it has written, and makes the file longer.
abbrev moving : List Call
moving =
    get_stream 0 extract_mode
    ∷ write (codes "abc")
    ∷ seek (pos 1) Whence.set
    ∷ write (codes "X")
    ∷ set_size 5
    ∷ release
    ∷ []

abbrev patched : File
patched = record { content = codes "aXc" ++ (0 ∷ 0 ∷ []); position = 0; error = false; room = 9 }

execute-played_example :
    execute host (record handler { extract = λ index. (moving, pos 0) }) [] 0 (done (new_file 9))
    ≡ ok patched
unfolding new_file Stdio.fwrite Stdio.fseek Stdio.write_at
execute-played_example =
    execute-played host (record handler { extract = λ index. (moving, pos 0) }) [] 0 9
      password_decodes (refl, (refl, (refl, (refl, (refl, omega arith, (refl, refl, tt)))))) refl

open-written_example :
    (t : Session) × (cb_open host session (codes "/d/f") 0 ≡ ok (t, pos 0, some 0))
    × Holds 0 (codes "abc") t
open-written_example =
    open-written host session (codes "/d/f") 0 (item 0) stat_0 archive 100 found small refl refl
      password_decodes orderly refl (omega arith)

opens : cb_open host session (codes "/d/f") 0 ≡ ok (with_file extracted, pos 0, some 0)
unfolding cb_open find FilePath-eq from_string add_entries root_tree too_big extract Extractor.call
    Stdio.fwrite Stdio.write_at new_file
opens = refl

open_answers_example :
    (cb_open host session (codes "/d/f") 0 ≡ ok (with_file extracted, pos 0, some 0))
    ↔ IsAnswer host session (codes "/d/f") 0 (with_file extracted, pos 0, some 0)
open_answers_example =
    open_answers host session (codes "/d/f") 0 (with_file extracted, pos 0, some 0)

-- The session after another callback has set the stream.
abbrev then_set : Option File → Session
then_set f = record (with_file extracted) { files = set_file (with_file extracted).files 0 f }

abbrev after_read : Session
after_read = then_set (some (record extracted { position = 3 }))

abbrev after_release : Session
after_release = then_set none

-- After a read of two bytes from the second on, the stream stands at its end.
one_read : cb_read (with_file extracted) 2 (pos 1) 0 ≡ ok (after_read, pos 2, codes "bc")
unfolding cb_read Write.read Write.seek
one_read = refl

holds : Holds 0 (codes "abc") (with_file extracted)
unfolding nat_eq
holds = record { stream = extracted; there = refl; content = refl }

Steps-read_example : (u : Session) × (cb_read after_read 2 (pos 0) 0 ≡ ok (u, pos 2, codes "ab"))
Steps-read_example =
    Steps-read host 0 (codes "abc") (with_file extracted) _ 2 0 holds
      (then_step (with_file extracted) _ _
        (reading (with_file extracted) _ 0 2 (pos 1) (pos 2) (codes "bc") one_read) (nothing _))
      (omega arith) (omega arith)

read_whole-content_example : read_whole 4 2 0 0 (with_file extracted) ≡ ok (some (codes "abc"))
read_whole-content_example =
    read_whole-content 0 2 (codes "abc") (omega arith) (omega arith) (with_file extracted) holds
      (omega arith)

-- The session that is mounted, asked for a directory, its file, and a part of the file.
abbrev pub requests : List Request
requests =
    getattr (codes "/x")
    ∷ readdir (to_string (from_string (codes "/d")))
    ∷ opens_path (codes "/d/f") 0
    ∷ reads 2 (pos 1) 0
    ∷ releases_handle 0
    ∷ []

every_item : Extractable host 100 tree
unfolding add_entries root_tree end_iterator
every_item = (tt, (tt, ((orderly, refl, omega arith), ((orderly, refl, omega arith), tt))))

pub legal : AllLegal (file_system host session) requests nothing_open
unfolding after find FilePath-eq from_string add_entries root_tree to_string too_big
legal = (
  tt,
  (
    (from_string (codes "/d"), refl, refl, (((λ e. cc), ((λ e. omega arith), tt)), tt)),
    (
      (refl, λ stat e. let e' : some (stat_0, some (codes "abc")) ≡ some (stat, none) = e in cc),
      ((codes "abc", 1, refl, refl, omega arith, omega arith), ((codes "abc", refl), tt)),
    ),
  ),
)

mounted-AllAllowed_example :
    (t : Session) × (answers : List Answer) × (serve host requests session ≡ ok (t, answers))
    × AllAllowed (file_system host session) requests answers nothing_open
mounted-AllAllowed_example =
    mounted-AllAllowed host session 100 password_decodes refl every_item tree-IsClosed
      tree-NodupKeys (λ fh. refl) requests legal

releases : cb_release (with_file extracted) 0 ≡ ok (after_release, pos 0)
unfolding cb_release
releases = refl
