-- ===== src/Shell/Directories.antt =====
-- Linux Shell/Commands.cpp: `execute` of `cd`.
use ftf_interview.Base.{none, some, if◌then◌else◌, get_elem?, Bytes, equal}
use ftf_interview.Jobs.{}
use ftf_interview.Shell.{Shell, Command, Message, Os, Run, print_error, or_breaks}
use ftf_interview.Shell.Numbers.{without}
use ftf_interview.Shell.Create.{is_dash}
use Message.{chdir_failed, oldpwd_not_set, cd_too_many_args}

-- `chdir` of the shell's process
unfoldable pub change_directory : Os → (path : Bytes) → Shell → Shell
change_directory os path s = elim (os.chdir s.cwd path) [
  | none ↦ print_error chdir_failed s
  | some there ↦ record s { cwd = there }
]

-- `cd -`; what `chdir` answers is not looked at.
unfoldable pub go_back : Os → Command → Shell → Shell
go_back os c s = if c.oldpwd_null then print_error oldpwd_not_set s else elim c.last_d [
  | none ↦ print_error chdir_failed s
  | some d ↦ elim (os.chdir s.cwd d) [ none ↦ s | some there ↦ record s { cwd = there } ]
]

-- `cd` with the word `w`
unfoldable pub cd_to : Os → Command → (w : Bytes) → Shell → Shell
unfolding change_directory go_back equal without
cd_to os c w s =
    if c.too_many_args
    then print_error cd_too_many_args s
    else if is_dash w
    then go_back os c s
    else change_directory os (without b'&' w) s

unfoldable pub execute_cd : Os → Command → Shell → Run Shell
unfolding cd_to
execute_cd os c s =
    if c.optional_arg
    then or_breaks (get_elem? c.args 1) (λ w. Run.returns (cd_to os c w s))
    else Run.returns (print_error chdir_failed s)
