-- ===== src/Com/Object/Occurrences.antt =====
-- How often the pointers of a program lead to an object.
use fuse3_p7zip.Base.{
  ℕ, zero, suc, ◌+◌, ◌-◌, ◌≤◌, ◌<◌, ◌≡◌, refl, ap, sym, ◌∙◌, List, [], ◌∷◌, ◌++◌, none, some, ◌==◌,
  nat_eq, if◌then◌else◌, get_elem?, length, arith,
}
use fuse3_p7zip.Com.Object.{Ptr}
use fuse3_p7zip.Com.Object.Program.{set, remove_at}

-- 1 if the pointer leads to the object.
abbrev pub points : Ptr → ℕ → ℕ
points none a = 0
points (some b) a = if a == b then 1 else 0

abbrev pub occurrences : List Ptr → ℕ → ℕ
occurrences [] a = 0
occurrences (p ∷ ps) a = points p a + occurrences ps a

pub points_le : (p : Ptr) (a : ℕ) → points p a ≤ 1
points_le none a = omega arith
points_le (some b) a = ground arith

pub points_self : (a : ℕ) → points (some a) a ≡ 1
points_self a = ground arith

pub occurrences-append :
    (ps : List Ptr) (p : Ptr) (a : ℕ) → occurrences (ps ++ p ∷ []) a ≡ occurrences ps a + points p a
occurrences-append [] p a = omega arith
occurrences-append (q ∷ ps) p a = omega (arith, occurrences-append ps p a)

pub occurrences-set :
    (ps : List Ptr) (i : ℕ) (p q : Ptr) (a : ℕ)
    → get_elem? ps i ≡ some q
    → occurrences (set ps i p) a + points q a ≡ occurrences ps a + points p a
occurrences-set [] i p q a e = cc
occurrences-set (r ∷ ps) zero p q a e = ground arith
occurrences-set (r ∷ ps) (suc i) p q a e = omega (arith, occurrences-set ps i p q a e)

pub occurrences-remove_at :
    (ps : List Ptr) (i : ℕ) (q : Ptr) (a : ℕ)
    → get_elem? ps i ≡ some q
    → occurrences (remove_at ps i) a + points q a ≡ occurrences ps a
occurrences-remove_at [] i q a e = cc
occurrences-remove_at (r ∷ ps) zero q a e = ground arith
occurrences-remove_at (r ∷ ps) (suc i) q a e = omega (arith, occurrences-remove_at ps i q a e)

pub occurrences-length : (ps : List Ptr) (a : ℕ) → occurrences ps a ≤ length ps
occurrences-length [] a = omega arith
occurrences-length (p ∷ ps) a = omega (arith, occurrences-length ps a, points_le p a)

-- Two places are set. They may be one, which then is set once.
pub occurrences-set_both :
    (ps : List Ptr) (i j : ℕ) (p q p' q' : Ptr) (a : ℕ)
    → get_elem? ps i ≡ some p
    → get_elem? ps j ≡ some q
    → (i ≡ j → points q' a ≡ points q a)
    → occurrences (set (set ps j q') i p') a + (points p a + points q a)
      ≡ occurrences ps a + (points p' a + points q' a)
occurrences-set_both [] i j p q p' q' a ei ej h = cc
occurrences-set_both (r ∷ ps) zero zero p q p' q' a ei ej h = ground (arith, h refl)
occurrences-set_both (r ∷ ps) zero (suc j) p q p' q' a ei ej h =
    ground (arith, occurrences-set ps j q' q a ej)
occurrences-set_both (r ∷ ps) (suc i) zero p q p' q' a ei ej h =
    ground (arith, occurrences-set ps i p' p a ei)
occurrences-set_both (r ∷ ps) (suc i) (suc j) p q p' q' a ei ej h =
    omega (arith, occurrences-set_both ps i j p q p' q' a ei ej (λ s. h (ap suc s)))

-- Equal places hold one pointer.
pub elem_unique :
    (ps : List Ptr) (i j : ℕ) (p q : Ptr)
    → get_elem? ps i ≡ some p
    → get_elem? ps j ≡ some q
    → i ≡ j
    → p ≡ q
elem_unique ps i j p q ei ej e = let e' : some p ≡ some q = sym ei ∙ ap (get_elem? ps) e ∙ ej in cc

-- A place of the list holds a pointer.
pub get_elem?-below :
    (ps : List Ptr) (i : ℕ) → i < length ps → (p : Ptr) × (get_elem? ps i ≡ some p)
get_elem?-below [] i lt = absurd (omega arith)
get_elem?-below (p ∷ ps) zero lt = (p, refl)
get_elem?-below (p ∷ ps) (suc i) lt = get_elem?-below ps i (omega arith)

pub points_of_elem :
    (ps : List Ptr) (i : ℕ) (p : Ptr) (a : ℕ)
    → get_elem? ps i ≡ some p
    → points p a ≤ occurrences ps a
points_of_elem [] i p a e = cc
points_of_elem (q ∷ ps) zero p a e = ground arith
points_of_elem (q ∷ ps) (suc i) p a e = omega (arith, points_of_elem ps i p a e)

pub length-set : (ps : List Ptr) (i : ℕ) (p : Ptr) → length (set ps i p) ≡ length ps
length-set [] i p = refl
length-set (q ∷ ps) zero p = refl
length-set (q ∷ ps) (suc i) p = ap suc (length-set ps i p)

pub length-remove_at :
    (ps : List Ptr) (i : ℕ) → i < length ps → length (remove_at ps i) ≡ length ps - 1
length-remove_at [] i lt = omega arith
length-remove_at (q ∷ ps) zero lt = omega arith
length-remove_at (q ∷ ps) (suc i) lt = omega (arith, length-remove_at ps i (omega arith))
