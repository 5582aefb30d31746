-- ===== src/Base/Int.antt =====
-- Signed integers, and the two's complement reading of a 64-bit word.
use Prim.Native.Nat.{ℕ, suc, ◌+◌, ◌-◌, ◌%◌, ◌^◌, ◌<◌}
use mathlib.Core.Option.{Option, none, some}
use mathlib.Core.Bool.{Bool, true, false}
use mathlib.Core.Path.{ap}
use mathlib.Core.Logic.{dite}
use fuse3_p7zip.Base.Tests.{ltb, if◌then◌else◌, Eq, nat_eq}

-- `negsuc n` is -(n + 1).
pub data ℤ : Type 0 where
  pos : ℕ → ℤ
  negsuc : ℕ → ℤ

infix 50 ◌<ℤ◌
abbrev pub ◌<ℤ◌ : ℤ → ℤ → Type 0
pos a <ℤ pos b = a < b
pos a <ℤ negsuc b = ⊥
negsuc a <ℤ pos b = Unit
negsuc a <ℤ negsuc b = b < a

abbrev pub ltz : ℤ → ℤ → Bool
ltz (pos a) (pos b) = ltb a b
ltz (pos a) (negsuc b) = false
ltz (negsuc a) (pos b) = true
ltz (negsuc a) (negsuc b) = ltb b a

abbrev pub word64 : ℕ
word64 = 2 ^ 64

-- `static_cast<int64_t>(n)` for a `uint64_t`
abbrev pub int64 : ℕ → ℤ
int64 n = if ltb (n % word64) (2 ^ 63) then pos (n % word64) else negsuc (word64 - n % word64 - 1)

ℤ-dec : Discrete ℤ
ℤ-dec (pos a) (pos b) = dite (nat_eq.dec a b) (λ e. yes (ap pos e)) (λ n. no (λ e. n (cc)))
ℤ-dec (pos a) (negsuc b) = no (λ e. cc)
ℤ-dec (negsuc a) (pos b) = no (λ e. cc)
ℤ-dec (negsuc a) (negsuc b) = dite (nat_eq.dec a b) (λ e. yes (ap negsuc e)) (λ n. no (λ e. n (cc)))

instance unfoldable pub ℤ-eq : Eq ℤ
unfolding ℤ-dec nat_eq
ℤ-eq = record { dec = ℤ-dec }

-- a + n, for an offset `a` from a position `n`; `none` where the sum is negative.
abbrev pub offset_from : ℕ → ℤ → Option ℕ
offset_from n (pos a) = some (n + a)
offset_from n (negsuc a) = if ltb a n then some (n - suc a) else none

-- `static_cast<int>(n)` for a `uint64_t`
abbrev pub int32 : ℕ → ℤ
int32 n = if ltb (n % 2 ^ 32) (2 ^ 31) then pos (n % 2 ^ 32) else negsuc (2 ^ 32 - n % 2 ^ 32 - 1)

-- `static_cast<uint64_t>(z)` for an `int64_t`
abbrev pub uint64 : ℤ → ℕ
uint64 (pos n) = n % word64
uint64 (negsuc n) = (word64 - (n % word64) - 1) % word64
