-- ===== src/Tests/Texts.antt =====
-- The command line, the password, and the operations on texts.
use fuse3_p7zip.Base.{
  Bytes, codes, ◌≡◌, ◌⊎◌, refl, true, false, [], ◌∷◌, ◌++◌, none, some, nat_eq, list_eq, arith,
}
use fuse3_p7zip.Host.{done}
use fuse3_p7zip.FilePath.Laws.{Lacks}
use fuse3_p7zip.Text.Split.{split}
use fuse3_p7zip.Text.Split.Laws.{IsSplit, split-IsSplit}
use fuse3_p7zip.Text.Chomp.{newline}
use fuse3_p7zip.Codepage.{find_codepage}
use fuse3_p7zip.Codepage.Laws.{IsCodepage, StandsIn, find_codepage_lem}
use fuse3_p7zip.Fuse.Password.{Shell, from_file, exec}
use fuse3_p7zip.Fuse.Password.Laws.{exec_lem}
use fuse3_p7zip.Fuse.Params.{CmdParams, opt, nonopt, process_args, Files, choose_password}
use fuse3_p7zip.Fuse.Params.Laws.{process_args_lem}
use fuse3_p7zip.Fuse.Params.Sources.{choose_password-first_of}
use fuse3_p7zip.Tests.{host}

split-IsSplit_example : IsSplit (codes " ") (codes "zip jar") (split (codes " ") (codes "zip jar"))
split-IsSplit_example = split-IsSplit (codes " ") (codes "zip jar") (λ e. cc)

find_codepage_lem_example :
    ((cp : Bytes) × (find_codepage (codes "a.cp866.zip") ≡ some cp)
      × IsCodepage cp
      × StandsIn cp (codes "a.cp866.zip"))
    ⊎ ((find_codepage (codes "a.cp866.zip") ≡ none)
        × ((cp : Bytes) → IsCodepage cp → ¬ StandsIn cp (codes "a.cp866.zip")))
find_codepage_lem_example = find_codepage_lem (codes "a.cp866.zip")

found : find_codepage (codes "a.cp866.zip") ≡ some (codes "cp866")
unfolding find_codepage
found = refl

abbrev shell : Shell
shell = record {
  is_executable = λ path. false;
  contents = λ path. codes "secret" ++ (newline ∷ []);
  popen = λ command. done (codes "line" ++ (newline ∷ codes "more"));
}

abbrev empty_shell : Shell
empty_shell = record shell { contents = λ path. [] }

no_zero : Lacks 0 (codes "line" ++ (newline ∷ codes "more"))
no_zero = (
  (λ e. omega arith),
  (
    (λ e. omega arith),
    (
      (λ e. omega arith),
      (
        (λ e. omega arith),
        (
          (λ e. omega arith),
          (
            (λ e. omega arith),
            ((λ e. omega arith), ((λ e. omega arith), ((λ e. omega arith), tt))),
          ),
        ),
      ),
    ),
  ),
)

exec_lem_example :
    exec shell (codes "a.zip") (codes "/bin/pw") ≡ some (codes "line" ++ (newline ∷ codes "more"))
exec_lem_example =
    exec_lem shell (codes "a.zip") (codes "/bin/pw") (codes "line" ++ (newline ∷ codes "more")) refl
      no_zero

abbrev no_params : CmdParams
no_params = record { password = none; passfile = none; cli_args = []; allow_other = false }

-- `-o allow_other` and `ro` come before the archive: the option is taken for the archive.
process_args_lem_example :
    process_args
      ((opt, codes "allow_other")
        ∷ (opt, codes "ro")
        ∷ (nonopt, codes "a.zip")
        ∷ (nonopt, codes "mnt")
        ∷ [])
      no_params
    ≡ some (
      record no_params {
        cli_args = codes "ro" ∷ codes "a.zip" ∷ codes "mnt" ∷ [];
        allow_other = true;
      },
      codes "allow_other" ∷ codes "a.zip" ∷ codes "mnt" ∷ [],
    )
unfolding list_eq nat_eq
process_args_lem_example =
    process_args_lem
      ((opt, codes "allow_other")
        ∷ (opt, codes "ro")
        ∷ (nonopt, codes "a.zip")
        ∷ (nonopt, codes "mnt")
        ∷ [])
      no_params refl ((λ e. cc), ((λ e. cc), ((λ e. cc), ((λ e. cc), tt))))

abbrev files : Files
files = record {
  exists = λ path. true;
  is_regular_file = λ path. true;
  absolute = λ path. b'/' ∷ path;
  stdin = [];
}

choose_password-first_of_example :
    choose_password host files
      (record no_params { passfile = some (codes "pw"); cli_args = codes "a.zip" ∷ [] })
    ≡ from_file (codes "a.zip") (codes "/pw") []
unfolding list_eq nat_eq
choose_password-first_of_example =
    choose_password-first_of host files
      (record no_params { passfile = some (codes "pw"); cli_args = codes "a.zip" ∷ [] })
