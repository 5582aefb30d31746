-- ===== src/Archive/Members.antt =====
-- The members of ImplArchive (src/7zip/Archive.cpp) that read it, and its ends.
use fuse3_p7zip.Base.{◌≡◌, ◌≢◌, nat_eq, arith}
use fuse3_p7zip.FilePath.{FilePath}
use fuse3_p7zip.Fuse.Stat.{Stat}
use fuse3_p7zip.Archive.Format.{Format}
use fuse3_p7zip.Archive.Property.{Handler}
use fuse3_p7zip.Archive.Iterator.{Archive, Iterator, begin_iterator, end_iterator, iterator_eq}
use fuse3_p7zip.Archive.Opening.Callbacks.{is_empty}

unfoldable pub path : Archive → FilePath
path a = a.path

unfoldable pub stat : Archive → Stat
stat a = a.stat

unfoldable pub format : Archive → Format
format a = a.format

-- `operator->`, and the conversion to an Object.
unfoldable pub arrow : Archive → Handler
arrow a = a.handler

unfoldable pub to_object : Archive → Handler
to_object a = a.handler

unfoldable pub begin : Archive → Iterator
unfolding begin_iterator
begin a = begin_iterator a

unfoldable pub end : Archive → Iterator
unfolding end_iterator
end a = end_iterator

-- The archive, at an address that is not null, begins at its end just if it has no items.
begin-end-is_empty : (a : Archive) → a.address ≢ 0 → iterator_eq (begin a) (end a) ≡ is_empty a
unfolding begin end iterator_eq is_empty
begin-end-is_empty a e = ground (arith, e)
