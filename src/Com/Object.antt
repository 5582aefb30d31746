-- ===== src/Com/Object.antt =====
-- com::Object of src/include/com.hpp: a pointer that owns one reference to what it points to. The
-- objects of 7zip lie in a memory that has the counter of each; a pointer is an address or null,
-- and the interfaces of one object have one address.
pub mod Program
pub mod Occurrences
pub mod Counted
pub mod Steps
pub mod Members
pub mod Runs
use fuse3_p7zip.Base.{
  ℕ, zero, suc, ◌+◌, List, [], ◌∷◌, ◌++◌, ◌-◌, Option, none, some, Bool, true, false, ◌==◌, nat_eq,
  not, ltb, ◌&&◌, if◌then◌else◌, get_elem?,
}
use fuse3_p7zip.Base.Outcome.{Outcome, ok, fault, ◌>>=◌}
use fuse3_p7zip.Com.{first_count, add_ref, release}

abbrev pub Ptr : Type 0
Ptr = Option ℕ

abbrev pub null : Ptr
null = none

-- The counters of the objects that are not deleted; an object that is made is put at `next`.
pub record Memory : Type 0 where
  pub counter : ℕ → Option ℕ
  pub next : ℕ

unfoldable pub set_counter : ℕ → Option ℕ → Memory → Memory
set_counter a c m = record m { counter = λ b. if b == a then c else m.counter b }

-- `new` of a class under UnknownImp.
unfoldable pub new_object : Memory → Ptr × Memory
unfolding set_counter
new_object m = (some m.next, record (set_counter m.next (some first_count) m) { next = m.next + 1 })

-- `if (ptr) ptr->AddRef();`
unfoldable pub take_ref : Ptr → Memory → Outcome Memory
unfolding set_counter
take_ref none m = ok m
take_ref (some a) m = elim (m.counter a) [
  | none ↦ fault
  | some count ↦ ok (set_counter a (some (add_ref count)) m)
]

-- `release`, for the pointer that is then null.
unfoldable pub drop_ref : Ptr → Memory → Outcome Memory
unfolding set_counter
drop_ref none m = ok m
drop_ref (some a) m = elim (m.counter a) [
  | none ↦ fault
  | some count ↦ ok (set_counter a (release count) m)
]

unfoldable pub same : Ptr → Ptr → Bool
same none none = true
same none (some b) = false
same (some a) none = false
same (some a) (some b) = a == b

-- The destructor.
unfoldable pub destroy : Ptr → Memory → Outcome Memory
destroy this m = drop_ref this m

-- `Object()`
abbrev pub declare : Ptr
declare = null

-- `Object(pointer)` takes no reference: it owns the one that the pointer had.
unfoldable pub adopt : Ptr → Ptr
adopt other = other

unfoldable pub copy : Ptr → Memory → Outcome (Ptr × Memory)
copy other m = do m ← take_ref other m; ok (other, m)

-- The copy of an Object of another interface.
unfoldable pub convert : Ptr → Memory → Outcome (Ptr × Memory)
convert other m = do m ← take_ref other m; ok (other, m)

-- The new pointer, and what is left in the other.
unfoldable pub move : Ptr → Ptr × Ptr
move other = (other, null)

unfoldable pub swap : Ptr → Ptr → Ptr × Ptr
swap this other = (other, this)

-- `operator=` of a copy: what the pointer is then.
unfoldable pub assign : Ptr → Ptr → Memory → Outcome (Ptr × Memory)
unfolding swap
assign this other m =
    if not (same this other)
    then (do
      (temporary, m) ← copy other m
      let (temporary', this') = swap temporary this
      m ← destroy temporary' m
      ok (this', m))
    else ok (this, m)

-- `operator=` of an Object of another interface.
unfoldable pub assign_converted : Ptr → Ptr → Memory → Outcome (Ptr × Memory)
unfolding swap
assign_converted this other m =
    if not (same this other)
    then (do
      (temporary, m) ← convert other m
      let (this', temporary') = swap this temporary
      m ← destroy temporary' m
      ok (this', m))
    else ok (this, m)

-- `operator=` of a moved pointer: what the two are then.
unfoldable pub assign_moved : Ptr → Ptr → Memory → Outcome ((Ptr × Ptr) × Memory)
unfolding move swap
assign_moved this other m =
    if not (same this other)
    then (do
      let (temporary, other') = move other
      let (temporary', this') = swap temporary this
      m ← destroy temporary' m
      ok ((this', other'), m))
    else ok ((this, other), m)

-- `operator&`, before the callee writes through it.
unfoldable pub address_of : Ptr → Memory → Outcome (Ptr × Memory)
address_of this m = do m ← drop_ref this m; ok (null, m)

-- `attach`: the pointer, and what is left in the bare pointer.
unfoldable pub attach : Ptr → Ptr → Memory → Outcome ((Ptr × Ptr) × Memory)
attach this other m = do m ← drop_ref this m; ok ((other, null), m)

-- `detach`: the pointer, and what the bare pointer is then.
unfoldable pub detach : Ptr → Ptr × Ptr
detach this = (null, this)
