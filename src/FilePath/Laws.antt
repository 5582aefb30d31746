-- ===== src/FilePath/Laws.antt =====
-- What the operations of a path keep: the root directory, and the shape of the names.
use fuse3_p7zip.Base.{
  ℕ, ◌-◌, Bytes, ◌≡◌, ◌≢◌, refl, sym, ap, ◌∙◌, Bool, true, false, List, [], ◌∷◌, ◌++◌, length,
  arith, All, ◌==◌, nat_eq, Bool-cases, inl, inr, beq_ne,
}
use fuse3_p7zip.FilePath.{
  FilePath, root, slash, is_empty, init, last, parent_path, append, append_names, cons_part, cut,
  names_after, names_of, from_string, join_names, to_string,
}

pub is_empty_absolute : (p : FilePath) → p.absolute ≡ true → is_empty p ≡ false
unfolding is_empty
is_empty_absolute p a = rw a

pub root_of_no_names : (p : FilePath) → p.absolute ≡ true → p.names ≡ [] → p ≡ root
root_of_no_names p a e = λ i. record { absolute = a i; names = e i }

pub length-init : (ns : List Bytes) → length (init ns) ≡ length ns - 1
length-init [] = refl
length-init (n ∷ []) = refl
length-init (n ∷ m ∷ ns) = omega (arith, length-init (m ∷ ns))

pub append-absolute : (p q : FilePath) → p.absolute ≡ true → (append p q).absolute ≡ true
unfolding append
append-absolute p q a = ground arith

abbrev pub Lacks : ℕ → Bytes → Type 0
Lacks c [] = Unit
Lacks c (b ∷ s) = (b ≢ c) × Lacks c s

-- No name holds a slash, and none but the last is empty.
abbrev pub IsProper : List Bytes → Type 0
IsProper [] = Unit
IsProper (n ∷ []) = Lacks slash n
IsProper (n ∷ m ∷ ns) = (n ≢ []) × Lacks slash n × IsProper (m ∷ ns)

pub init-IsProper : (ns : List Bytes) → IsProper ns → IsProper (init ns)
init-IsProper [] p = tt
init-IsProper (n ∷ []) p = tt
init-IsProper (n ∷ m ∷ []) (_, l, _) = l
init-IsProper (n ∷ m ∷ k ∷ ns) (e, l, p) = (e, l, init-IsProper (m ∷ k ∷ ns) p)

IsProper-cons :
    (n : Bytes) (ns : List Bytes) → n ≢ [] → Lacks slash n → IsProper ns → IsProper (n ∷ ns)
IsProper-cons n [] e l p = l
IsProper-cons n (m ∷ ns) e l p = (e, l, p)

pub append_names-IsProper :
    (ns qs : List Bytes) → IsProper ns → IsProper qs → IsProper (append_names ns qs)
unfolding append_names
append_names-IsProper [] qs p q = q
append_names-IsProper ([] ∷ []) [] p q = p
append_names-IsProper ([] ∷ []) (r ∷ qs) p q = q
append_names-IsProper ((c ∷ n) ∷ []) [] p q = ((λ e. cc), p, tt)
append_names-IsProper ((c ∷ n) ∷ []) (r ∷ qs) p q = ((λ e. cc), p, q)
append_names-IsProper (n ∷ m ∷ ns) qs (e, l, p) q =
    IsProper-cons n _ e l (append_names-IsProper (m ∷ ns) qs p q)

cons_part-Lacks :
    (closes : Bool) (c : ℕ) (parts : List Bytes)
    → (closes ≡ false → c ≢ slash)
    → All (Lacks slash) parts
    → All (Lacks slash) (cons_part closes c parts)
unfolding cons_part
cons_part-Lacks true c parts h l = (tt, l)
cons_part-Lacks false c [] h l = ((h refl, tt), tt)
cons_part-Lacks false c (p ∷ parts) h l = ((h refl, l.0), l.1)

-- Every part of a text lacks the slash.

cut-Lacks : (s : Bytes) → All (Lacks slash) (cut s)
unfolding cut
cut-Lacks [] = (tt, tt)
cut-Lacks (c ∷ s) = cons_part-Lacks (c == slash) c (cut s) (λ e. ground arith) (cut-Lacks s)

names_after-IsProper : (ps : List Bytes) → All (Lacks slash) ps → IsProper (names_after ps)
unfolding names_after
names_after-IsProper [] l = tt
names_after-IsProper ([] ∷ []) l = tt
names_after-IsProper ([] ∷ q ∷ qs) l = names_after-IsProper (q ∷ qs) l.1
names_after-IsProper ((c ∷ p) ∷ qs) l =
    IsProper-cons (c ∷ p) _ (λ e. cc) l.0 (names_after-IsProper qs l.1)

names_of-IsProper : (ps : List Bytes) → All (Lacks slash) ps → IsProper (names_of ps)
unfolding names_of
names_of-IsProper [] l = tt
names_of-IsProper ([] ∷ qs) l = names_of-IsProper qs l.1
names_of-IsProper ((c ∷ p) ∷ qs) l =
    IsProper-cons (c ∷ p) _ (λ e. cc) l.0 (names_after-IsProper qs l.1)

-- The names that a text gives are proper.
pub from_string-IsProper : (s : Bytes) → IsProper (from_string s).names
unfolding from_string
from_string-IsProper s = names_of-IsProper (cut s) (cut-Lacks s)

-- Names that can be written behind one another: none is empty or holds a slash.
abbrev pub IsPlain : List Bytes → Type 0
IsPlain = All (λ n. (n ≢ []) × Lacks slash n)

pub IsProper-IsPlain : (ns : List Bytes) → IsProper ns → last ns ≢ [] → IsPlain ns
IsProper-IsPlain [] p e = tt
IsProper-IsPlain (n ∷ []) p e = ((e, p), tt)
IsProper-IsPlain (n ∷ m ∷ ns) (a, l, p) e = ((a, l), IsProper-IsPlain (m ∷ ns) p e)

cut_plain : (n : Bytes) → Lacks slash n → cut n ≡ n ∷ []
unfolding cut
cut_plain [] l = refl
cut_plain (b ∷ n) (e, l) = rw (beq_ne b slash e, cut_plain n l)

cut-append : (n rest : Bytes) → Lacks slash n → cut (n ++ (slash ∷ rest)) ≡ n ∷ cut rest
unfolding cut
cut-append [] rest l = refl
cut-append (b ∷ n) rest (e, l) = rw (beq_ne b slash e, cut-append n rest l)

cut-join_names :
    (n : Bytes) (ns : List Bytes) → IsPlain (n ∷ ns) → cut (join_names (n ∷ ns)) ≡ n ∷ ns
unfolding join_names
cut-join_names n [] ((_, l), _) = cut_plain n l
cut-join_names n (m ∷ ns) ((_, l), p) =
    rw (cut-append n (join_names (m ∷ ns)) l, cut-join_names m ns p)

names_after_plain : (ns : List Bytes) → IsPlain ns → names_after ns ≡ ns
unfolding names_after
names_after_plain [] p = refl
names_after_plain ([] ∷ ns) ((e, _), _) = absurd (e refl)
names_after_plain ((c ∷ n) ∷ ns) (_, p) = ap (◌∷◌ (c ∷ n)) (names_after_plain ns p)

names_of_plain : (ns : List Bytes) → IsPlain ns → names_of ns ≡ ns
unfolding names_of
names_of_plain [] p = refl
names_of_plain ([] ∷ ns) ((e, _), _) = absurd (e refl)
names_of_plain ((c ∷ n) ∷ ns) (_, p) = ap (◌∷◌ (c ∷ n)) (names_after_plain ns p)

names_of_skip : (ps : List Bytes) → names_of ([] ∷ ps) ≡ names_of ps
unfolding names_of
names_of_skip ps = refl

names_of-join_names : (ns : List Bytes) → IsPlain ns → names_of (cut (slash ∷ join_names ns)) ≡ ns
names_of-join_names [] p = unfold cut names_of join_names in refl
names_of-join_names (n ∷ ns) p =
    rw (cut-append [] (join_names (n ∷ ns)) tt, cut-join_names n ns p)
      (names_of_skip (n ∷ ns) ∙ names_of_plain (n ∷ ns) p)

from_string-slash :
    (j : Bytes)
    → from_string (slash ∷ j) ≡ record { absolute = true; names = names_of (cut (slash ∷ j)) }
unfolding from_string
from_string-slash j = refl

to_string_absolute : (p : FilePath) → p.absolute ≡ true → to_string p ≡ slash ∷ join_names p.names
unfolding to_string
to_string_absolute p a = rw a

-- An absolute path of plain names is read back from its text.
pub from_string-to_string :
    (p : FilePath) → p.absolute ≡ true → IsPlain p.names → from_string (to_string p) ≡ p
from_string-to_string p a l =
    ap from_string (to_string_absolute p a)
    ∙ (from_string-slash (join_names p.names) ∙ λ i. record {
      absolute = sym a i;
      names = names_of-join_names p.names l i;
    })

pub append_names-init-last :
    (ns : List Bytes) → ns ≢ [] → IsPlain ns → append_names (init ns) (last ns ∷ []) ≡ ns
unfolding append_names
append_names-init-last [] e p = absurd (e refl)
append_names-init-last (n ∷ []) e p = refl
append_names-init-last ([] ∷ m ∷ ns) e ((f, _), _) = absurd (f refl)
append_names-init-last ((c ∷ n) ∷ m ∷ []) e p = refl
append_names-init-last ((c ∷ n) ∷ m ∷ k ∷ ns) e (_, p) =
    ap (◌∷◌ (c ∷ n)) (append_names-init-last (m ∷ k ∷ ns) (λ q. cc) p)

-- A path from the root, of proper names.
abbrev pub IsRooted : FilePath → Type 0
IsRooted p = (p.absolute ≡ true) × IsProper p.names

pub parent_path-IsRooted : (p : FilePath) → IsRooted p → IsRooted (parent_path p)
unfolding parent_path
parent_path-IsRooted p (a, l) = (a, init-IsProper p.names l)

-- What is put behind a rooted path is rooted: an absolute right side replaces the left.
pub append-IsRooted : (p q : FilePath) → IsRooted p → IsProper q.names → IsRooted (append p q)
unfolding append
append-IsRooted p q (a, l) r = elim (Bool-cases q.absolute) [
  | inl b ↦ rw b (refl, r)
  | inr b ↦ rw b (a, append_names-IsProper p.names q.names l r)
]
