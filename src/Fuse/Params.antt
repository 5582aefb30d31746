-- ===== src/Fuse/Params.antt =====
-- Fuse::Params of src/fuse3.cpp: the command line, and the choice of the password's source.
pub mod Laws
pub mod Sources
pub mod Start
pub mod Output
use fuse3_p7zip.Base.{
  ℕ, Bytes, codes, ◌≡◌, Bool, true, false, ◌&&◌, List, [], ◌∷◌, ◌++◌, Option, none, some, ◌==◌,
  nat_eq, list_eq, if◌then◌else◌, length,
}
use fuse3_p7zip.Host.{Host}
use fuse3_p7zip.Fuse.Password.{Password, from_text, from_file, from_stdin}

-- `cmd_params_t`
pub record CmdParams : Type 0 where
  pub password : Option Bytes
  pub passfile : Option Bytes
  pub cli_args : List Bytes
  pub allow_other : Bool

-- FUSE_OPT_KEY_OPT, FUSE_OPT_KEY_NONOPT, and any other key
pub data Key : Type 0 where
  opt nonopt other : Key

-- What `process_arg` answers; `print_usage` ends the process.
pub data Verdict : Type 0 where
  keep discard exit : Verdict

-- `cli_args.size() == 1` with the new one, by those before it
unfoldable pub unless_first : List Bytes → Verdict
unless_first [] = discard
unless_first (archive ∷ args) = keep

-- The case FUSE_OPT_KEY_NONOPT.
unfoldable pub collect : Bytes → CmdParams → CmdParams × Verdict
unfolding unless_first
collect [] p = (record p { cli_args = p.cli_args ++ ([] ∷ []) }, exit)
collect (c ∷ arg) p =
    (record p { cli_args = p.cli_args ++ ((c ∷ arg) ∷ []) }, unless_first p.cli_args)

-- The case FUSE_OPT_KEY_OPT falls through to the next unless the option is `allow_other`.
unfoldable pub process_arg : Key → Bytes → CmdParams → CmdParams × Verdict
unfolding collect list_eq nat_eq
process_arg opt arg p =
    let collected = collect arg p in
    if arg == codes "allow_other" then (record p { allow_other = true }, keep) else collected
process_arg nonopt arg p = collect arg p
process_arg other arg p = (p, keep)

-- The calls that `fuse_opt_parse` makes, in order: what is left of the parameters, and the arguments
-- that are kept; `none` when the process ends.
unfoldable pub process_args : List (Key × Bytes) → CmdParams → Option (CmdParams × List Bytes)
unfolding process_arg
process_args [] p = some (p, [])
process_args ((key, arg) ∷ calls) p =
    let rest = process_args calls (process_arg key arg p).0 in
    elim (process_arg key arg p).1 [
      | exit ↦ none
      | discard ↦ rest
      | keep ↦ elim rest [ none ↦ none | some (q, kept) ↦ some (q, arg ∷ kept) ]
    ]

-- The options that libfuse reads itself: `fuse_cmdline_opts`.
pub record CmdlineOpts : Type 0 where
  pub show_version : Bool
  pub show_help : Bool
  pub mountpoint : Option Bytes

-- The first chain of tests: the status that the process exits with, if it does.
unfoldable pub early_exit : CmdlineOpts → CmdParams → Option ℕ
early_exit o p =
    if o.show_version
    then some 0
    else if o.show_help
    then some 0
    else exit_without p.cli_args o.mountpoint
  where
    exit_without : List Bytes → Option Bytes → Option ℕ
    exit_without [] mountpoint = some 0
    exit_without (archive ∷ args) none = some 0
    exit_without (archive ∷ args) (some mountpoint) = none

-- The file system: whether a path exists and is a regular file, `absolute`, and the whole standard
-- input.
pub record Files : Type 0 where
  pub exists : Bytes → Bool
  pub is_regular_file : Bytes → Bool
  pub absolute : Bytes → Bytes
  pub stdin : Bytes

-- `cmd_params.cli_args[0]`, after the test that there is one
abbrev pub archive_of : CmdParams → Bytes
archive_of p = elim p.cli_args [ [] ↦ [] | archive ∷ _ ↦ archive ]

module _ (h : Host) (files : Files) (p : CmdParams) where
  usable : Bytes → Bool
  usable path = files.exists path && files.is_regular_file path

  file_source : Bytes → Password
  file_source path = from_file (archive_of p) (files.absolute path) []

  -- FUSE3_P7ZIP_PASSFILE, behind all else; what is left is the empty password that was set up.
  from_env_passfile : Option Bytes → Password
  unfolding usable file_source
  from_env_passfile none = from_text []
  from_env_passfile (some path) = if usable path then file_source path else from_text []

  -- FUSE3_P7ZIP_PASSWORD
  from_env : Option Bytes → Password
  unfolding from_env_passfile
  from_env none = from_env_passfile (h.getenv (codes "FUSE3_P7ZIP_PASSFILE"))
  from_env (some password) = from_text password

  -- --passfile
  from_passfile : Option Bytes → Password
  unfolding from_env usable file_source from_stdin list_eq nat_eq
  from_passfile none = from_env (h.getenv (codes "FUSE3_P7ZIP_PASSWORD"))
  from_passfile (some path) =
      if path == codes "-"
      then from_stdin files.stdin
      else if usable path
      then file_source path
      else from_env (h.getenv (codes "FUSE3_P7ZIP_PASSWORD"))

  -- The rest of the constructor.
  unfoldable pub choose_password : Password
  unfolding from_passfile
  choose_password = elim p.password [
    | some password ↦ from_text password
    | none ↦ from_passfile p.passfile
  ]
