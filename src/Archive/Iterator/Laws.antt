-- ===== src/Archive/Iterator/Laws.antt =====
-- The comparison of iterators and `at` of src/7zip/Archive.cpp.
use fuse3_p7zip.Base.{ℕ, ◌≤◌, ◌≡◌, true, nat_eq, arith, ◌⊎◌, ◌↔◌}
use fuse3_p7zip.Base.Outcome.{ok}
use fuse3_p7zip.Host.{Host, IsDocumented}
use fuse3_p7zip.Exception.{check_com}
use fuse3_p7zip.Archive.Iterator.{Archive, iterator_at, iterator_eq, at}

-- Two places of an archive are equal as iterators just if the indices are the same, or both are
-- behind the last item.
iterator_eq-iterator_at :
    (a : Archive) (i j : ℕ)
    → (iterator_eq (iterator_at a i) (iterator_at a j) ≡ true)
      ↔ ((i ≡ j) ⊎ ((a.size ≤ i) × (a.size ≤ j)))
unfolding iterator_eq iterator_at
iterator_eq-iterator_at a i j = ground arith

-- If the HRESULT codes are as documented, `at` returns an iterator for every index, also for one
-- out of range.
pub at_never_throws :
    (h : Host) (a : Archive) (index : ℕ) → IsDocumented h → at h a index ≡ ok (iterator_at a index)
unfolding at check_com
at_never_throws h a index d = ground (arith, d.is_failed-pos 1)
