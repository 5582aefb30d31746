-- ===== src/Archive/Property/Laws.antt =====
-- `_to_time` of src/7zip/Archive.cpp.
use fuse3_p7zip.Base.{refl, subst, sym, ℕ, ◌+◌, ◌-◌, ◌/◌, ◌%◌, ◌≤◌, ◌<◌, ◌^◌, ◌≡◌, arith}
use fuse3_p7zip.Base.Int.{pos, int64, word64, ◌<ℤ◌}
use fuse3_p7zip.Archive.Property.{to_time}

-- 1970 as a FILETIME
abbrev pub unix_epoch : ℕ
unix_epoch = 116444736000000000

date_from :
    (ft : ℕ) → unix_epoch ≤ ft → ft < word64 → (ft + word64 - unix_epoch) % word64 ≡ ft - unix_epoch
date_from ft le lt = omega arith

date_before :
    (ft : ℕ) → ft < unix_epoch → (ft + word64 - unix_epoch) % word64 ≡ ft + word64 - unix_epoch
date_before ft lt = omega arith

int64_small : (n : ℕ) → n < 2 ^ 63 → int64 n ≡ pos n
int64_small n lt = ground arith

int64_above : (n : ℕ) → 2 ^ 40 < n → n < 2 ^ 63 → pos (2 ^ 40) <ℤ int64 n
int64_above n a b = subst (λ z. pos (2 ^ 40) <ℤ z) (sym (int64_small n b)) a

-- A FILETIME from 1970 on and below 2^63 has the right second, and as nanoseconds the number of
-- all the 100 ns since 1970.
pub to_time_lem :
    (ft : ℕ)
    → unix_epoch ≤ ft
    → ft < 2 ^ 63
    → to_time ft ≡ record { sec = pos ((ft - unix_epoch) / 10000000); nsec = pos (ft - unix_epoch) }
unfolding to_time
to_time_lem ft le lt =
    rw
      (
        date_from ft le (omega arith),
        int64_small ((ft - unix_epoch) / 10000000) (omega arith),
        int64_small (ft - unix_epoch) (omega arith),
      )
      refl

-- A FILETIME before 1970 has a second greater than 2^40.
pub to_time_before : (ft : ℕ) → ft < unix_epoch → pos (2 ^ 40) <ℤ (to_time ft).sec
unfolding to_time
to_time_before ft lt =
    rw (date_before ft lt)
      (int64_above ((ft + word64 - unix_epoch) / 10000000) (omega arith) (omega arith))
