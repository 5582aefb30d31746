-- ===== src/Text/Split.antt =====
-- `split` of src/string.cpp.
pub mod Laws
use mathlib.Core.Option
use fuse3_p7zip.Base.{
  ℕ, zero, suc, ◌+◌, Bytes, ◌≡◌, Bool, true, false, List, [], ◌∷◌, ◌++◌, Option, none, some, ◌==◌,
  nat_eq, take, drop, length, if◌then◌else◌,
}

unfoldable pub is_prefix : Bytes → Bytes → Bool
unfolding nat_eq
is_prefix [] s = true
is_prefix (c ∷ d) [] = false
is_prefix (c ∷ d) (b ∷ s) = let rest = is_prefix d s in if c == b then rest else false

-- `str.find(d)`: the first place where `d` stands.
unfoldable pub find : Bytes → Bytes → Option ℕ
unfolding is_prefix
find d [] = if is_prefix d [] then some 0 else none
find d (c ∷ s) = let rest = find d s in if is_prefix d (c ∷ s) then some 0 else Option.map suc rest

-- The loop cuts a part off at each delimiter; `none` means that the fuel ran out.
unfoldable pub split_loop : ℕ → Bytes → Bytes → Option (List Bytes)
unfolding find
split_loop zero d str = none
split_loop (suc fuel) d str = elim (find d str) [
  | none ↦ some (str ∷ [])
  | some pos ↦
      Option.map (λ parts. take pos str ∷ parts) (split_loop fuel d (drop (pos + length d) str))
]

-- With a delimiter that is not empty, each round takes at least one byte away.
unfoldable pub split : Bytes → Bytes → List Bytes
unfolding split_loop
split d str = elim (split_loop (suc (length str)) d str) [ none ↦ [] | some parts ↦ parts ]
