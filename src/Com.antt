-- ===== src/Com.antt =====
-- com::UnknownImp of src/7zip/com.cpp and src/include/com.hpp: the counter of references, and
-- QueryInterface as the classes that inherit from it refine it.
pub mod Laws
pub mod Errors
pub mod Classes
pub mod Object
use fuse3_p7zip.Base.{
  ℕ, ◌+◌, ◌-◌, ◌%◌, ◌^◌, Bool, true, false, List, [], ◌∷◌, Option, none, some, ◌≡◌, ◌==◌, nat_eq,
  if◌then◌else◌, Eq, ◌&&◌,
}
use fuse3_p7zip.Base.Int.{ℤ}
use fuse3_p7zip.Host.{Host}
use native.Mathlib.Decide.{ℕ_discrete}

-- A ULONG has 32 bits.
abbrev pub word32 : ℕ
word32 = 2 ^ 32

-- The constructor's counter.
abbrev pub first_count : ℕ
first_count = 1

unfoldable pub add_ref : ℕ → ℕ
add_ref count = (count + 1) % word32

-- The counter that is left, or `none` where the object deleted itself.
unfoldable pub release : ℕ → Option ℕ
unfolding nat_eq
release count = let left = (count + word32 - 1) % word32 in if left == 0 then none else some left

-- The value that `Release` returns.
unfoldable pub release_value : Option ℕ → ℕ
release_value none = 0
release_value (some left) = left

-- IID_IUnknown and the interfaces that the program implements.
pub data Iid : Type 0 where
  unknown in_stream sequential_in_stream out_stream sequential_out_stream : Iid
  open_callback extract_callback get_text_password : Iid
  foreign : ℕ → Iid

Iid-dec : Discrete Iid
Iid-dec = hlevel ℕ_discrete

-- What a call leaves: the counter, the code, and the interface that `*object` points to.
pub record Answer : Type 0 where
  pub count : ℕ
  pub res : ℤ
  pub object : Option Iid

instance unfoldable pub Iid-eq : Eq Iid
unfolding Iid-dec ℕ_discrete
Iid-eq = record { dec = Iid-dec }

unfoldable pub is_one_of : Iid → List Iid → Bool
unfolding Iid-eq
is_one_of riid [] = false
is_one_of riid (i ∷ is) = if riid == i then true else is_one_of riid is

module _ (h : Host) where
  -- `UnknownImp::QueryInterface`; the flag says that `object` is not null.
  unfoldable pub query_unknown : Bool → Iid → ℕ → Answer
  unfolding add_ref Iid-eq
  query_unknown object riid count =
      if object && riid == unknown
      then record { count = add_ref count; res = h.s_ok; object = some unknown }
      else record { count = count; res = h.e_nointerface; object = none }

  -- The override in a class that implements those interfaces.
  unfoldable pub query_interface : List Iid → Bool → Iid → ℕ → Answer
  unfolding add_ref query_unknown is_one_of
  query_interface ids object riid count =
      if object && is_one_of riid ids
      then record { count = add_ref count; res = h.s_ok; object = some riid }
      else query_unknown object riid count

abbrev pub read_stream_ids : List Iid
read_stream_ids = in_stream ∷ sequential_in_stream ∷ []

abbrev pub write_stream_ids : List Iid
write_stream_ids = out_stream ∷ sequential_out_stream ∷ []

abbrev pub archive_ids : List Iid
archive_ids = open_callback ∷ get_text_password ∷ []

abbrev pub extractor_ids : List Iid
extractor_ids = extract_callback ∷ get_text_password ∷ []

-- `UnknownImp::use_count`
unfoldable pub use_count : ℕ → ℕ
use_count count = count
