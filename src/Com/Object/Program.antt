-- ===== src/Com/Object/Program.antt =====
-- A program over Objects: which it has, what it does with them, and what may be done.
use fuse3_p7zip.Base.{
  ℕ, zero, suc, ◌+◌, List, [], ◌∷◌, ◌++◌, ◌-◌, none, some, Bool, true, nat_eq, ltb, ◌&&◌, get_elem?,
}
use fuse3_p7zip.Base.Outcome.{Outcome, ok, fault, ◌>>=◌}
use fuse3_p7zip.Com.Object.{
  Ptr, null, Memory, new_object, drop_ref, destroy, declare, adopt, convert, assign_converted,
  address_of, copy, move, swap, assign, assign_moved, attach, detach,
}

-- The Objects of a program, and the bare pointers that own a reference.
pub record State : Type 0 where
  pub memory : Memory
  pub objects : List Ptr
  pub bare : List Ptr

abbrev pub set {ℓ} : {A : Type ℓ} → List A → ℕ → A → List A
set [] i x = []
set (y ∷ ys) zero x = x ∷ ys
set (y ∷ ys) (suc i) x = y ∷ set ys i x

abbrev pub remove_at {ℓ} : {A : Type ℓ} → List A → ℕ → List A
remove_at [] i = []
remove_at (y ∷ ys) zero = ys
remove_at (y ∷ ys) (suc i) = y ∷ remove_at ys i

-- What a program does with its Objects, which are named by their places.
pub data Op : Type 0 where
  -- Object(); Object(pointer) of a new object; Object(other), copied, converted and moved.
  declares creates : Op
  copies converts moves : ℕ → Op
  -- operator=, copied, converted and moved; swap; release.
  assigns assigns_converted assigns_moved swaps : ℕ → ℕ → Op
  releases : ℕ → Op
  -- `&object`, where the callee then puts a new object.
  receives : ℕ → Op
  -- attach, from a bare pointer; detach, into one that is declared for it.
  attaches : ℕ → ℕ → Op
  detaches : ℕ → Op
  -- A bare pointer to a new object.
  makes : Op
  -- The destructor.
  destroys : ℕ → Op

-- No program names an Object that is not there.
unfoldable pub at : List Ptr → ℕ → Outcome Ptr
at ps i = elim (get_elem? ps i) [ none ↦ fault | some p ↦ ok p ]

unfoldable pub step : Op → State → Outcome State
unfolding at new_object adopt copy move swap drop_ref detach
step declares s = ok (record s { objects = s.objects ++ declare ∷ [] })
step creates s =
    let (p, m) = new_object s.memory in ok (record s { memory = m; objects = s.objects ++ p ∷ [] })
step (copies j) s = do
  other ← at s.objects j
  (p, m) ← copy other s.memory
  ok (record s { memory = m; objects = s.objects ++ p ∷ [] })
step (converts j) s = do
  other ← at s.objects j
  (p, m) ← convert other s.memory
  ok (record s { memory = m; objects = s.objects ++ p ∷ [] })
step (moves j) s = do
  other ← at s.objects j
  let (p, other') = move other
  ok (record s { objects = set s.objects j other' ++ p ∷ [] })
step (assigns i j) s = do
  this ← at s.objects i
  other ← at s.objects j
  (p, m) ← assign this other s.memory
  ok (record s { memory = m; objects = set s.objects i p })
step (assigns_converted i j) s = do
  this ← at s.objects i
  other ← at s.objects j
  (p, m) ← assign_converted this other s.memory
  ok (record s { memory = m; objects = set s.objects i p })
step (assigns_moved i j) s = do
  this ← at s.objects i
  other ← at s.objects j
  ((p, other'), m) ← assign_moved this other s.memory
  ok (record s { memory = m; objects = set (set s.objects j other') i p })
step (swaps i j) s = do
  this ← at s.objects i
  other ← at s.objects j
  let (p, other') = swap this other
  ok (record s { objects = set (set s.objects j other') i p })
step (releases i) s = do
  this ← at s.objects i
  m ← drop_ref this s.memory
  ok (record s { memory = m; objects = set s.objects i null })
step (receives i) s = do
  this ← at s.objects i
  (_, m) ← address_of this s.memory
  let (p, m') = new_object m
  ok (record s { memory = m'; objects = set s.objects i p })
step (attaches i k) s = do
  this ← at s.objects i
  other ← at s.bare k
  ((p, other'), m) ← attach this other s.memory
  ok (record s { memory = m; objects = set s.objects i p; bare = set s.bare k other' })
step (detaches i) s = do
  this ← at s.objects i
  let (p, other) = detach this
  ok (record s { objects = set s.objects i p; bare = s.bare ++ other ∷ [] })
step makes s =
    let (p, m) = new_object s.memory in ok (record s { memory = m; bare = s.bare ++ p ∷ [] })
step (destroys i) s = do
  this ← at s.objects i
  m ← destroy this s.memory
  ok (record s { memory = m; objects = remove_at s.objects i })

-- The Objects and the bare pointers that it names are declared.
unfoldable pub in_scope : Op → ℕ → ℕ → Bool
in_scope declares n k = true
in_scope creates n k = true
in_scope (copies j) n k = ltb j n
in_scope (converts j) n k = ltb j n
in_scope (moves j) n k = ltb j n
in_scope (assigns i j) n k = ltb i n && ltb j n
in_scope (assigns_converted i j) n k = ltb i n && ltb j n
in_scope (assigns_moved i j) n k = ltb i n && ltb j n
in_scope (swaps i j) n k = ltb i n && ltb j n
in_scope (releases i) n k = ltb i n
in_scope (receives i) n k = ltb i n
in_scope (attaches i j) n k = ltb i n && ltb j k
in_scope (detaches i) n k = ltb i n
in_scope makes n k = true
in_scope (destroys i) n k = ltb i n

-- How many Objects there are after it.
unfoldable pub objects_after : Op → ℕ → ℕ
objects_after declares n = n + 1
objects_after creates n = n + 1
objects_after (copies j) n = n + 1
objects_after (converts j) n = n + 1
objects_after (moves j) n = n + 1
objects_after (destroys i) n = n - 1
objects_after _ n = n

unfoldable pub bare_after : Op → ℕ → ℕ
bare_after (detaches i) k = k + 1
bare_after makes k = k + 1
bare_after _ k = k

unfoldable pub run : List Op → State → Outcome State
run [] s = ok s
run (op ∷ ops) s = do s ← step op s; run ops s

unfoldable pub all_in_scope : List Op → ℕ → ℕ → Bool
unfolding in_scope objects_after bare_after
all_in_scope [] n k = true
all_in_scope (op ∷ ops) n k =
    in_scope op n k && all_in_scope ops (objects_after op n) (bare_after op k)

abbrev pub start : State
start = record { memory = record { counter = λ _. none; next = 0 }; objects = []; bare = [] }
