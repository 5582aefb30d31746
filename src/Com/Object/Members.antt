-- ===== src/Com/Object/Members.antt =====
-- The members of com::Object (src/include/com.hpp) that only read it.
use fuse3_p7zip.Base.{◌≡◌, refl, Bool, true, false, not, none, some}
use fuse3_p7zip.Com.Object.{Ptr, null, same}

-- `operator bool`
unfoldable pub is_set : Ptr → Bool
is_set none = false
is_set (some a) = true

-- `operator pointer`, `operator->` and `get_ptr`
unfoldable pub to_pointer : Ptr → Ptr
to_pointer this = this

unfoldable pub arrow : Ptr → Ptr
arrow this = this

unfoldable pub get_ptr : Ptr → Ptr
get_ptr this = this

-- `operator==` and `operator!=` for a bare pointer, and `operator!=` for an Object.
unfoldable pub eq_pointer : Ptr → Ptr → Bool
unfolding same
eq_pointer this other = same this other

unfoldable pub ne_pointer : Ptr → Ptr → Bool
unfolding same
ne_pointer this other = not (same this other)

unfoldable pub ne_object : Ptr → Ptr → Bool
unfolding same
ne_object this other = not (same this other)

-- An Object is true just if it differs from null.
is_set-ne_pointer : (this : Ptr) → is_set this ≡ ne_pointer this null
unfolding is_set ne_pointer same
is_set-ne_pointer none = refl
is_set-ne_pointer (some a) = refl

-- Objects differ just as their bare pointers do.
ne_object-get_ptr :
    (this other : Ptr) → ne_object this other ≡ not (eq_pointer this (get_ptr other))
unfolding ne_object eq_pointer get_ptr
ne_object-get_ptr this other = refl
