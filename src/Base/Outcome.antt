-- ===== src/Base/Outcome.antt =====
-- include/exception.hpp and src/exception.cpp: a call returns, throws, or is undefined.
use mathlib.Core.Path.{◌≡◌, refl, subst}
use mathlib.Core.Logic.{◌⊎◌, inl, inr}
use mathlib.Core.Bool.{Bool, true, false}
use fuse3_p7zip.Base.Tests.{Bytes}

pub data Outcome {ℓ} (A : Type ℓ) : Type ℓ where
  ok : A → Outcome A
  -- A `std::runtime_error` and its message, without the place that a debug build appends.
  throws : Bytes → Outcome A
  -- Undefined behaviour: a null pointer is followed, or an index is out of range.
  fault : Outcome A

infixl 5 ◌>>=◌ ◌>>◌
abbrev pub ◌>>=◌ {ℓ κ} : {A : Type ℓ} {B : Type κ} → Outcome A → (A → Outcome B) → Outcome B
ok a >>= f = f a
throws m >>= f = throws m
fault >>= f = fault

abbrev pub ◌>>◌ {ℓ} : {B : Type ℓ} → Outcome (Unit {0}) → Outcome B → Outcome B
m >> k = m >>= λ _. k

-- `CheckResult(arg, str)`
unfoldable pub check_result : Bool → Bytes → Outcome (Unit {0})
check_result true message = ok tt
check_result false message = throws message

-- An exception that leaves a `noexcept` function ends the process.
unfoldable pub noexcept {ℓ} : {A : Type ℓ} → Outcome A → Outcome A
noexcept (ok a) = ok a
noexcept (throws m) = fault
noexcept fault = fault

pub Outcome-cases {ℓ} :
    {A : Type ℓ} (o : Outcome A)
    → ((a : A) × (o ≡ ok a)) ⊎ ((m : Bytes) × (o ≡ throws m)) ⊎ (o ≡ fault)
Outcome-cases (ok a) = inl (a, refl)
Outcome-cases (throws m) = inr (inl (m, refl))
Outcome-cases fault = inr (inr refl)

ok_injective {ℓ} : {A : Type ℓ} {a b : A} → ok a ≡ ok b → a ≡ b
ok_injective e = cc

-- What is returned, if anything is, has the property.
pub data Ensures {ℓ κ} {A : Type ℓ} (P : A → Type κ) : Outcome A → Type (ℓ ⊔ κ) where
  returned : {a : A} → P a → Ensures P (ok a)
  thrown : {m : Bytes} → Ensures P (throws m)
  faulted : Ensures P fault

module _ {ℓ κ ι} {A : Type ℓ} {B : Type κ} (P : B → Type ι) where
  pub >>=-Ensures :
      (m : Outcome A) (f : A → Outcome B) → ((a : A) → Ensures P (f a)) → Ensures P (m >>= f)
  >>=-Ensures (ok a) f h = h a
  >>=-Ensures (throws m) f h = thrown
  >>=-Ensures fault f h = faulted

pub Ensures-then {ℓ κ ι ν} :
    {A : Type ℓ} {B : Type κ} (P : A → Type ι) (Q : B → Type ν) (m : Outcome A) (f : A → Outcome B)
    → Ensures P m
    → ((a : A) → P a → Ensures Q (f a))
    → Ensures Q (m >>= f)
Ensures-then P Q (ok a) f (returned p) k = k a p
Ensures-then P Q (throws m) f e k = thrown
Ensures-then P Q fault f e k = faulted

pub of_Ensures {ℓ κ} :
    {A : Type ℓ} (P : A → Type κ) (o : Outcome A) {a : A} → Ensures P o → o ≡ ok a → P a
of_Ensures {A = A} P (ok b) {a} h e = subst P (ok_injective e) (inner h)
  where
    inner : {c : A} → Ensures P (ok c) → P c
    inner (returned p) = p
of_Ensures P (throws m) h e = cc
of_Ensures P fault h e = cc

-- The call returns, with that property.
pub data Gives {ℓ κ} {A : Type ℓ} (P : A → Type κ) : Outcome A → Type (ℓ ⊔ κ) where
  gives : {a : A} → P a → Gives P (ok a)

pub Gives-then {ℓ κ ι ν} :
    {A : Type ℓ} {B : Type κ} (P : A → Type ι) (Q : B → Type ν) (m : Outcome A) (f : A → Outcome B)
    → Gives P m
    → ((a : A) → P a → Gives Q (f a))
    → Gives Q (m >>= f)
Gives-then P Q (ok a) f (gives p) k = k a p
Gives-then P Q (throws m) f g k = elim g [ ]
Gives-then P Q fault f g k = elim g [ ]

pub given {ℓ κ} :
    {A : Type ℓ} (P : A → Type κ) (o : Outcome A) → Gives P o → (a : A) × (o ≡ ok a) × P a
given P (ok a) (gives p) = (a, refl, p)
given P (throws m) g = elim g [ ]
given P fault g = elim g [ ]

pub Gives-map {ℓ κ ι} :
    {A : Type ℓ} (P : A → Type κ) (Q : A → Type ι) (m : Outcome A)
    → Gives P m
    → ((a : A) → P a → Q a)
    → Gives Q m
Gives-map P Q (ok a) (gives p) k = gives (k a p)
Gives-map P Q (throws m) g k = elim g [ ]
Gives-map P Q fault g k = elim g [ ]
