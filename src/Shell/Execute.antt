-- ===== src/Shell/Execute.antt =====
-- Linux Shell/Commands.cpp: `execute` of `cat` and of external commands.
use ftf_interview.Base.{ℕ, none, some, Option, List, [], ◌∷◌, ◌++◌, if◌then◌else◌, drop, Bytes}
use ftf_interview.Jobs.{get_job_by_id, change_first, get_max_job_id}
use ftf_interview.Shell.{
  Shell, Command, Message, Os, Run, Turn, print, print_error, then_run, or_breaks, on_jobs,
}
use ftf_interview.Shell.Numbers.{without}
use ftf_interview.Shell.Signals.{wait_with}
use Message.{cat_not_enough_args, open_failed, file_bytes, fork_failed}

-- One round of the loop of `cat`, with what the file gives and the rounds behind it: `read` of a
-- directory fails again and again.
unfoldable pub cat_file : Option (Option Bytes) → (Shell → Run Shell) → Shell → Run Shell
cat_file none rest s = Run.returns (print_error open_failed s)
cat_file (some none) rest s = Run.hangs
cat_file (some (some content)) rest s = rest (print (file_bytes content) s)

unfoldable pub cat_files : Os → List Bytes → Shell → Run Shell
unfolding cat_file
cat_files os [] s = Run.returns s
cat_files os (f ∷ fs) s = cat_file (os.read_file f) (cat_files os fs) s

unfoldable pub execute_cat : Os → Command → Shell → Run Shell
unfolding cat_files
execute_cat os c s =
    cat_files os (drop 1 c.args) (if c.optional_arg then s else print_error cat_not_enough_args s)

-- The process of an external command that is not in the background.
unfoldable pub run_foreground : Turn → (pid : ℕ) → Shell → Run Shell
unfolding wait_with
run_foreground turn pid s =
    then_run (wait_with turn turn.keys (record s { for_pid = some pid; for_cmd = s.curr_cmd }))
      (λ t. Run.returns (record t { for_pid = none }))

-- The process of one in the background, which the last job gets.
unfoldable pub run_background : Command → (pid : ℕ) → Shell → Run Shell
unfolding get_job_by_id get_max_job_id change_first
run_background c pid s =
    let id = get_max_job_id s.jobs.non_built_in_cmd in
    if c.list
    then or_breaks (get_job_by_id id s.jobs.non_built_in_cmd) (λ _. Run.returns (
        on_jobs
          (λ jobs. record jobs {
            non_built_in_cmd = change_first (λ e. record e { p_id = pid }) id jobs.non_built_in_cmd;
          })
          s))
    else Run.breaks

unfoldable pub started_as : Command → (pid : ℕ) → Shell → Shell
unfolding without
started_as c pid s = record s { started = s.started ++ (pid, without b'&' c.entered_cmd) ∷ [] }

unfoldable pub execute_external : Turn → Command → Shell → Run Shell
unfolding run_foreground run_background started_as
execute_external turn c s = elim turn.fork_pid [
  | none ↦ Run.returns (print_error fork_failed s)
  | some pid ↦
      if c.background_cmd
      then run_background c pid (started_as c pid s)
      else run_foreground turn pid (started_as c pid s)
]
