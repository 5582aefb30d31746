-- ===== src/Archive/Iterator/Values.antt =====
-- ci_iterator of src/7zip/Archive.cpp as an object that owns its Impl: how it is copied, moved and
-- compared. One that was moved from has none.
use fuse3_p7zip.Base.{ℕ, Bool, true, false, not, Option, none, some, ◌≡◌, refl, ap, if◌then◌else◌}
use fuse3_p7zip.Base.Outcome.{Outcome, ok, fault, ◌>>=◌}
use fuse3_p7zip.Archive.Iterator.{Archive, Iterator, advance, iterator_eq}

abbrev pub Owner : Type 0
Owner = Option Iterator

unfoldable pub impl_of : Owner → Outcome Iterator
impl_of none = fault
impl_of (some it) = ok it

-- The copy has an Impl of its own.
unfoldable pub copy : Owner → Outcome Owner
unfolding impl_of
copy other = do it ← impl_of other; ok (some it)

-- The new iterator, and what is left in the other.
unfoldable pub move : Owner → Owner × Owner
move other = (other, none)

unfoldable pub swap : Owner → Owner → Owner × Owner
swap this other = (other, this)

-- `impl != other.impl`: two objects share a pointer only if it is null.
unfoldable pub differ : Bool → Owner → Owner → Bool
differ one_object none none = false
differ one_object _ _ = not one_object

-- The flag says that the two are one object. What this one is then.
unfoldable pub assign : Bool → Owner → Owner → Outcome Owner
unfolding copy swap differ
assign one_object this other =
    if differ one_object this other
    then (do temporary ← copy other; let (_, this') = swap temporary this; ok this')
    else ok this

-- What the two are then.
unfoldable pub assign_moved : Bool → Owner → Owner → Owner × Owner
unfolding move swap differ
assign_moved one_object this other =
    if differ one_object this other
    then (let (temporary, other') = move other in
        let (_, this') = swap temporary this in (this', other'))
    else (this, other)

-- `operator++(int)`: the iterator and the copy that is returned.
unfoldable pub post_advance : Owner → Outcome (Owner × Owner)
unfolding copy impl_of advance
post_advance this = do ret ← copy this; it ← impl_of this; it' ← advance it; ok (some it', ret)

unfoldable pub not_equal : Owner → Owner → Outcome Bool
unfolding impl_of iterator_eq
not_equal this rhs = do x ← impl_of this; y ← impl_of rhs; ok (not (iterator_eq x y))

-- `get_props_count`, over what GetNumberOfProperties writes, if it writes at all.
unfoldable pub get_props_count : (Archive → Option ℕ) → Owner → Outcome ℕ
unfolding impl_of
get_props_count number this = do
  it ← impl_of this
  elim it.seq [ none ↦ fault | some a ↦ elim (number a) [ none ↦ ok 0 | some props ↦ ok props ] ]

-- What an assignment leaves, where an iterator is there to be copied.
pub assign-copy :
    (one_object : Bool) (this : Owner) (it : Iterator)
    → (one_object ≡ true → this ≡ some it)
    → assign one_object this (some it) ≡ ok (some it)
unfolding assign copy impl_of differ swap
assign-copy true none it same = let e : none ≡ some it = same refl in cc
assign-copy true (some x) it same = ap ok (same refl)
assign-copy false none it same = refl
assign-copy false (some x) it same = refl
