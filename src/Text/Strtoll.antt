-- ===== src/Text/Strtoll.antt =====
-- `std::strtoll(str, nullptr, 10)`, which src/fuse3.cpp reads a size limit with.
use fuse3_p7zip.Base.{
  ℕ, zero, suc, ◌+◌, ◌-◌, ◌*◌, ◌^◌, Bytes, Bool, true, false, [], ◌∷◌, if◌then◌else◌, leb, ltb,
  ◌==◌, nat_eq, ◌&&◌, ◌||◌,
}
use fuse3_p7zip.Base.Int.{ℤ, pos, negsuc}

is_digit : ℕ → Bool
is_digit c = leb b'0' c && leb c b'9'

is_space : ℕ → Bool
unfolding nat_eq
is_space c = c == 32 || (leb 9 c && leb c 13)

-- The value of the digits in front.
digits_value : ℕ → Bytes → ℕ
unfolding is_digit
digits_value acc [] = acc
digits_value acc (c ∷ s) =
    let rest = digits_value (acc * 10 + (c - b'0')) s in if is_digit c then rest else acc

-- Out of range the value is the nearest `long long`.
saturate : Bool → ℕ → ℤ
saturate true zero = pos 0
saturate true (suc n) = if ltb n (2 ^ 63) then negsuc n else negsuc (2 ^ 63 - 1)
saturate false n = if ltb n (2 ^ 63) then pos n else pos (2 ^ 63 - 1)

signed : Bytes → ℤ
unfolding saturate digits_value nat_eq
signed [] = pos 0
signed (c ∷ s) =
    if c == b'-'
    then saturate true (digits_value 0 s)
    else if c == b'+'
    then saturate false (digits_value 0 s)
    else saturate false (digits_value 0 (c ∷ s))

unfoldable pub strtoll : Bytes → ℤ
unfolding signed is_space
strtoll [] = pos 0
strtoll (c ∷ s) = let rest = strtoll s in if is_space c then rest else signed (c ∷ s)
