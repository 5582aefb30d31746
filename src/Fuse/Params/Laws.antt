-- ===== src/Fuse/Params/Laws.antt =====
-- What process_arg of src/fuse3.cpp takes a command line for.
use fuse3_p7zip.Base.{
  ℕ, Bytes, codes, ◌≡◌, ◌≢◌, refl, ap, ◌∙◌, sym, All, Bool, true, false, ◌||◌, not, List, [], ◌∷◌,
  ◌++◌, append_assoc, append-nil, some, ◌==◌, nat_eq, list_eq, arith, inl, inr, Bool-cases,
  if◌then◌else◌,
}
use fuse3_p7zip.Fuse.Params.{
  unless_first, CmdParams, Key, opt, nonopt, other, keep, discard, process_arg, collect,
  process_args,
}

-- Whether a call is for the list `cli_args`.
abbrev pub is_collected : Key × Bytes → Bool
is_collected (opt, arg) = not (arg == codes "allow_other")
is_collected (nonopt, arg) = true
is_collected (other, arg) = false

abbrev pub asks_allow_other : Key × Bytes → Bool
asks_allow_other (opt, arg) = arg == codes "allow_other"
asks_allow_other (nonopt, arg) = false
asks_allow_other (other, arg) = false

-- The arguments that are collected, in order.
abbrev pub collected : List (Key × Bytes) → List Bytes
collected [] = []
collected (call ∷ calls) =
    let rest = collected calls in if is_collected call then call.1 ∷ rest else rest

abbrev pub any_allow_other : List (Key × Bytes) → Bool
any_allow_other [] = false
any_allow_other (call ∷ calls) = asks_allow_other call || any_allow_other calls

abbrev pub all_args : List (Key × Bytes) → List Bytes
all_args [] = []
all_args (call ∷ calls) = call.1 ∷ all_args calls

-- All arguments, without the first of those that are collected.
abbrev pub without_archive : List (Key × Bytes) → List Bytes
without_archive [] = []
without_archive (call ∷ calls) =
    let rest = without_archive calls in if is_collected call then all_args calls else call.1 ∷ rest

-- The parameters after the calls.
abbrev pub after : CmdParams → List (Key × Bytes) → CmdParams
after p calls = record p {
  cli_args = p.cli_args ++ collected calls;
  allow_other = p.allow_other || any_allow_other calls;
}

process_arg_collects :
    (key : Key) (c : ℕ) (arg : Bytes) (p : CmdParams)
    → is_collected (key, c ∷ arg) ≡ true
    → process_arg key (c ∷ arg) p
      ≡ (record p { cli_args = p.cli_args ++ ((c ∷ arg) ∷ []) }, unless_first p.cli_args)
unfolding process_arg collect
process_arg_collects opt c arg p i = ground (arith, i)
process_arg_collects nonopt c arg p i = refl
process_arg_collects other c arg p i = absurd (ground (arith, i))

or_true : (b : Bool) → (b || true) ≡ true
or_true true = refl
or_true false = refl

or_false : (b : Bool) → (b || false) ≡ b
or_false true = refl
or_false false = refl

or_assoc : (a b c : Bool) → ((a || b) || c) ≡ (a || (b || c))
or_assoc true b c = refl
or_assoc false b c = refl

process_arg_passes :
    (key : Key) (arg : Bytes) (p : CmdParams)
    → is_collected (key, arg) ≡ false
    → process_arg key arg p
      ≡ (record p { allow_other = p.allow_other || asks_allow_other (key, arg) }, keep)
unfolding process_arg
process_arg_passes opt arg p i = elim (Bool-cases (arg == codes "allow_other")) [
  | inl asks ↦ rw (asks, or_true p.allow_other) refl
  | inr asks_not ↦ absurd (ground (arith, i, asks_not))
]
process_arg_passes nonopt arg p i = absurd (ground (arith, i))
process_arg_passes other arg p i = rw (or_false p.allow_other) refl

asks_collected : (call : Key × Bytes) → is_collected call ≡ true → asks_allow_other call ≡ false
asks_collected (opt, arg) i = ground (arith, i)
asks_collected (nonopt, arg) i = refl
asks_collected (other, arg) i = refl

after_collects :
    (call : Key × Bytes) (calls : List (Key × Bytes)) (p : CmdParams)
    → is_collected call ≡ true
    → after (record p { cli_args = p.cli_args ++ (call.1 ∷ []) }) calls ≡ after p (call ∷ calls)
after_collects call calls p i =
    rw (i, asks_collected call i)
      (ap (λ a. record p { cli_args = a; allow_other = p.allow_other || any_allow_other calls })
        (append_assoc p.cli_args (call.1 ∷ []) (collected calls)))

after_passes :
    (call : Key × Bytes) (calls : List (Key × Bytes)) (p : CmdParams)
    → is_collected call ≡ false
    → after (record p { allow_other = p.allow_other || asks_allow_other call }) calls
      ≡ after p (call ∷ calls)
after_passes call calls p i = rw i (
    ap (λ b. record p { cli_args = p.cli_args ++ collected calls; allow_other = b })
      (or_assoc p.allow_other (asks_allow_other call) (any_allow_other calls)))

step_keep :
    (key : Key) (arg : Bytes) (calls : List (Key × Bytes)) (p q r : CmdParams) (kept : List Bytes)
    → process_arg key arg p ≡ (q, keep)
    → process_args calls q ≡ some (r, kept)
    → process_args ((key, arg) ∷ calls) p ≡ some (r, arg ∷ kept)
unfolding process_args
step_keep key arg calls p q r kept e f = rw (ap (λ s. s.1) e, ap (λ s. s.0) e, f, process_args) refl

step_discard :
    (key : Key) (arg : Bytes) (calls : List (Key × Bytes)) (p q : CmdParams)
    → process_arg key arg p ≡ (q, discard)
    → process_args ((key, arg) ∷ calls) p ≡ process_args calls q
unfolding process_args
step_discard key arg calls p q e = rw (ap (λ s. s.1) e, ap (λ s. s.0) e, process_args) refl

abbrev with_arg : CmdParams → Bytes → CmdParams
with_arg p arg = record p { cli_args = p.cli_args ++ (arg ∷ []) }

abbrev with_option : CmdParams → Key × Bytes → CmdParams
with_option p call = record p { allow_other = p.allow_other || asks_allow_other call }

keep_collected :
    (key : Key) (c : ℕ) (arg : Bytes) (p : CmdParams) (archive : Bytes) (args : List Bytes)
    → is_collected (key, c ∷ arg) ≡ true
    → p.cli_args ≡ archive ∷ args
    → process_arg key (c ∷ arg) p ≡ (with_arg p (c ∷ arg), keep)
unfolding unless_first
keep_collected key c arg p archive args i e =
    process_arg_collects key c arg p i ∙ ap (λ a. (with_arg p (c ∷ arg), unless_first a)) e

discard_first :
    (key : Key) (c : ℕ) (arg : Bytes) (p : CmdParams)
    → is_collected (key, c ∷ arg) ≡ true
    → p.cli_args ≡ []
    → process_arg key (c ∷ arg) p ≡ (with_arg p (c ∷ arg), discard)
unfolding unless_first
discard_first key c arg p i e =
    process_arg_collects key c arg p i ∙ ap (λ a. (with_arg p (c ∷ arg), unless_first a)) e

process_args_none : (p : CmdParams) → process_args [] p ≡ some (after p [], [])
unfolding process_args
process_args_none p = rw (append-nil p.cli_args, or_false p.allow_other) refl

-- Once there is an archive, all arguments are kept.
process_args_more :
    (calls : List (Key × Bytes)) (p : CmdParams) (archive : Bytes) (args : List Bytes)
    → p.cli_args ≡ archive ∷ args
    → All (λ call. call.1 ≢ []) calls
    → process_args calls p ≡ some (after p calls, all_args calls)
process_args_more [] p archive args e ne = process_args_none p
process_args_more ((key, []) ∷ calls) p archive args e (ne, nes) = absurd (ne refl)
process_args_more ((key, c ∷ arg) ∷ calls) p archive args e (ne, nes) =
    elim (Bool-cases (is_collected (key, c ∷ arg))) [
      | inl is ↦
          step_keep key (c ∷ arg) calls p (with_arg p (c ∷ arg)) (after p ((key, c ∷ arg) ∷ calls))
            (all_args calls) (keep_collected key c arg p archive args is e)
            (process_args_more calls (with_arg p (c ∷ arg)) archive (args ++ ((c ∷ arg) ∷ []))
                (rw e refl) nes
              ∙ ap (λ q. some (q, all_args calls)) (after_collects (key, c ∷ arg) calls p is))
      | inr is_not ↦
          step_keep key (c ∷ arg) calls p (with_option p (key, c ∷ arg))
            (after p ((key, c ∷ arg) ∷ calls)) (all_args calls)
            (process_arg_passes key (c ∷ arg) p is_not)
            (process_args_more calls (with_option p (key, c ∷ arg)) archive args e nes
              ∙ ap (λ q. some (q, all_args calls)) (after_passes (key, c ∷ arg) calls p is_not))
    ]

without_archive_first :
    (call : Key × Bytes) (calls : List (Key × Bytes))
    → is_collected call ≡ true
    → without_archive (call ∷ calls) ≡ all_args calls
without_archive_first call calls i = rw i refl

-- Over parameters with no argument collected yet, and calls of which none has an empty argument,
-- the process goes on: the first argument that is an operand, or an option other than
-- `allow_other`, is the archive and is taken out of the arguments, and all others are kept in
-- order; `allow_other` is set if it was, or is among the options.
pub process_args_lem :
    (calls : List (Key × Bytes)) (p : CmdParams)
    → p.cli_args ≡ []
    → All (λ call. call.1 ≢ []) calls
    → process_args calls p ≡ some (after p calls, without_archive calls)
process_args_lem [] p e ne = process_args_none p
process_args_lem ((key, []) ∷ calls) p e (ne, nes) = absurd (ne refl)
process_args_lem ((key, c ∷ arg) ∷ calls) p e (ne, nes) =
    elim (Bool-cases (is_collected (key, c ∷ arg))) [
      | inl is ↦
          step_discard key (c ∷ arg) calls p (with_arg p (c ∷ arg)) (discard_first key c arg p is e)
          ∙ (process_args_more calls (with_arg p (c ∷ arg)) (c ∷ arg) [] (rw e refl) nes ∙ λ i.
              some (
                after_collects (key, c ∷ arg) calls p is i,
                sym (without_archive_first (key, c ∷ arg) calls is) i,
              ))
      | inr is_not ↦
          step_keep key (c ∷ arg) calls p (with_option p (key, c ∷ arg))
            (after p ((key, c ∷ arg) ∷ calls)) (without_archive calls)
            (process_arg_passes key (c ∷ arg) p is_not)
            (process_args_lem calls (with_option p (key, c ∷ arg)) e nes
              ∙ ap (λ q. some (q, without_archive calls))
                  (after_passes (key, c ∷ arg) calls p is_not))
          ∙ rw is_not refl
    ]
