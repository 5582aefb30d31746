-- ===== src/Fuse/Params/Start.antt =====
-- The constructor of Fuse::Params (src/fuse3.cpp), as a whole. fuse_opt_parse and fuse_parse_cmdline
-- are parameters.
use fuse3_p7zip.Base.{ℕ, Bytes, codes, false, not, List, [], Option, none, some, ◌==◌}
use fuse3_p7zip.Base.Int.{ℤ, pos, negsuc, ℤ-eq}
use fuse3_p7zip.Base.Outcome.{Outcome, ok, ◌>>◌, check_result}
use fuse3_p7zip.Host.{Host}
use fuse3_p7zip.Fuse.Password.{Password}
use fuse3_p7zip.Fuse.Params.{
  CmdParams, CmdlineOpts, Files, Key, process_args, early_exit, choose_password,
}

-- What libfuse makes of the arguments: the result of fuse_opt_parse with the options of `opts_spec`
-- that it found and its calls of `process_arg`, and the result of fuse_parse_cmdline with the
-- options that it found.
pub record CommandLine : Type 0 where
  pub password : Option Bytes
  pub passfile : Option Bytes
  pub calls : List (Key × Bytes)
  pub opt_parse : ℤ
  pub opts : CmdlineOpts
  pub parse_cmdline : ℤ

-- `exit`, or an object that is made.
pub data Started : Type 0 where
  exits : ℕ → Started
  starts : CmdParams → Password → Started

-- `cmd_params`, before an argument is processed.
abbrev pub initial_params : CommandLine → CmdParams
initial_params line = record {
  password = line.password;
  passfile = line.passfile;
  cli_args = [];
  allow_other = false;
}

module _ (h : Host) (files : Files) where
  -- From the first chain of tests on.
  unfoldable pub start_with : CmdlineOpts → CmdParams → Started
  unfolding early_exit choose_password
  start_with opts p = elim (early_exit opts p) [
    | some status ↦ exits status
    | none ↦ starts p (choose_password h files p)
  ]

  unfoldable pub start : CommandLine → Outcome Started
  unfolding process_args check_result start_with
  start line = elim (process_args line.calls (initial_params line)) [
    | none ↦ ok (exits 0)
    | some (p, kept) ↦
        check_result (not (line.opt_parse == negsuc 0)) (codes "fuse_opt_parse")
        >> (check_result (line.parse_cmdline == pos 0) (codes "fuse_parse_cmdline")
            >> ok (start_with line.opts p))
  ]
