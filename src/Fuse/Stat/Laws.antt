-- ===== src/Fuse/Stat/Laws.antt =====
-- The file type that each change of a mode in Fuse::execute (src/fuse3.cpp) leaves.
use Prim.Native.Nat.{bit_or}
use fuse3_p7zip.Base.{
  ℕ, zero, suc, ◌%◌, ◌<◌, ◌≡◌, refl, ◌∙◌, Bool, true, false, arith, ltb, if◌then◌else◌, ◌⊎◌, inl,
  inr, Bool-cases,
}
use fuse3_p7zip.Fuse.Stat.{
  format_of, directory, regular, or_permissions, as_directory, as_regular, as_root, open_to_others,
  set_format, clear_format,
}

-- Whether each permission bits `x` below the bound stay permission bits when the others are set.
stays_below : (bits bound : ℕ) → Bool
stays_below bits zero = true
stays_below bits (suc x) =
    let rest = stays_below bits x in if ltb (bit_or x bits) 0o1000 then rest else false

lt_or_last : (x bound : ℕ) → x < suc bound → (x < bound) ⊎ (x ≡ bound)
lt_or_last x bound lt = elim (Bool-cases (ltb x bound)) [
  | inl below ↦ inl (ground (arith, below))
  | inr last ↦ inr (ground (arith, last))
]

bit_or-lt : (bits x bound : ℕ) → x < bound → stays_below bits bound ≡ true → bit_or x bits < 0o1000
unfolding stays_below
bit_or-lt bits x zero lt table = absurd (omega arith)
bit_or-lt bits x (suc bound) lt table =
    ground (arith, bit_or-lt bits x bound, lt_or_last x bound lt)

or_permissions-format :
    (bits mode : ℕ)
    → stays_below bits 0o1000 ≡ true
    → format_of (or_permissions bits mode) ≡ format_of mode
unfolding or_permissions
or_permissions-format bits mode table =
    omega (arith, bit_or-lt bits (mode % 0o1000) 0o1000 (omega arith) table)

pub format_of-as_directory : (mode : ℕ) → format_of (as_directory mode) ≡ directory
unfolding as_directory stays_below
format_of-as_directory mode =
    or_permissions-format 0o775 (set_format directory (clear_format mode)) refl ∙ omega arith

pub format_of-as_regular : (mode : ℕ) → format_of (as_regular mode) ≡ regular
unfolding as_regular stays_below
format_of-as_regular mode =
    or_permissions-format 0o664 (set_format regular (clear_format mode)) refl ∙ omega arith

pub format_of-as_root : (mode : ℕ) → format_of (as_root mode) ≡ directory
unfolding as_root stays_below
format_of-as_root mode =
    or_permissions-format 0o110 (set_format directory (clear_format mode)) refl ∙ omega arith

pub format_of-open_to_others : (mode : ℕ) → format_of (open_to_others mode) ≡ format_of mode
unfolding open_to_others stays_below
format_of-open_to_others mode = or_permissions-format 0o005 mode refl
