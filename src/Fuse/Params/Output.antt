-- ===== src/Fuse/Params/Output.antt =====
-- What the constructor of Fuse::Params (src/fuse3.cpp) prints before it exits, and `print_usage`.
-- The version of the project and the texts of libfuse are parameters.
use fuse3_p7zip.Base.{
  Bytes, codes, ◌≡◌, ◌↔◌, List, [], ◌∷◌, ◌++◌, Option, none, some, if◌then◌else◌, arith,
}
use fuse3_p7zip.Fuse.Params.{CmdParams, CmdlineOpts, early_exit}

-- The standard output and the standard error.
pub record Output : Type 0 where
  pub out : Bytes
  pub err : Bytes

abbrev complaint : Bytes → Output
complaint message = record { out = []; err = message }

-- A line, ended.
abbrev line : Bytes → Bytes
line text = text ++ codes "\n"

module _ (project_version cmdline_help lib_help : Bytes) where
  unfoldable pub print_usage : Output
  print_usage = record {
    out =
        line (line (codes "usage: fuse3-7z [options] <archive> <mountpoint>"))
        ++ line (codes "Options:")
        ++ line (codes "    -p <password>          provide a password for protected archives")
        ++ line (codes "    --password <password>  provide a password for protected archives")
        ++ line (
            codes
              "    --passfile <file>      provide a file with a password for protected archives")
        ++ cmdline_help
        ++ lib_help;
    err = [];
  }

  -- The two tests that complain.
  unfoldable pub complain : List Bytes → Option Bytes → Option Output
  complain [] mountpoint = some (complaint (line (codes "error: no archive specified")))
  complain (archive ∷ args) none = some (complaint (line (codes "error: no mountpoint specified")))
  complain (archive ∷ args) (some mountpoint) = none

  unfoldable pub early_output : CmdlineOpts → CmdParams → Option Output
  unfolding print_usage complain
  early_output o p =
      if o.show_version
      then some (record { out = line project_version; err = [] })
      else if o.show_help
      then some print_usage
      else complain p.cli_args o.mountpoint

  -- Something is printed just if the process exits.
  early_output-early_exit :
      (o : CmdlineOpts) (p : CmdParams) → (early_output o p ≡ none) ↔ (early_exit o p ≡ none)
  unfolding early_output complain early_exit
  early_output-early_exit o p = ground arith
