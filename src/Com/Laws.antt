-- ===== src/Com/Laws.antt =====
-- The counter and QueryInterface of src/7zip/com.cpp.
use fuse3_p7zip.Base.{ℕ, ◌+◌, ◌<◌, ◌≡◌, ◌≢◌, ◌⊎◌, ◌↔◌, List, true, false, Bool, some, none, arith}
use fuse3_p7zip.Host.{Host}
use fuse3_p7zip.Com.{Iid, unknown, word32, add_ref, release, query_interface, is_one_of}

-- For a counter that is not 0, and whose successor is below 2^32, `Release` undoes `AddRef`.
pub release-add_ref :
    (count : ℕ) → 0 < count → count + 1 < word32 → release (add_ref count) ≡ some count
unfolding release add_ref
release-add_ref count p lt = ground arith

-- For a counter below 2^32 the object deletes itself at a `Release` just if the counter is 1.
pub release-eq-none : (count : ℕ) → count < word32 → (release count ≡ none) ↔ (count ≡ 1)
unfolding release
release-eq-none count lt = ground arith

-- QueryInterface succeeds exactly for IUnknown and the interfaces of the class, if it is given a
-- place for the pointer; then it returns S_OK, points to that interface and takes one reference.
-- Otherwise it points to nothing, returns E_NOINTERFACE and takes none.
query_interface_lem :
    (h : Host) (ids : List Iid) (object : Bool) (riid : Iid) (count : ℕ)
    → let a = query_interface h ids object riid count in
      ((object ≡ true)
        × ((is_one_of riid ids ≡ true) ⊎ (riid ≡ unknown))
        × (a.res ≡ h.s_ok)
        × (a.object ≡ some riid)
        × (a.count ≡ add_ref count))
      ⊎ (((object ≡ false) ⊎ ((is_one_of riid ids ≡ false) × (riid ≢ unknown)))
          × (a.res ≡ h.e_nointerface)
          × (a.object ≡ none)
          × (a.count ≡ count))
unfolding query_interface
query_interface_lem h ids object riid count = ground arith
