-- ===== src/Shell/Prints.antt =====
-- Linux Shell/Commands.h: the functions of the job list that print, and `kill` as it answers.
use ftf_interview.Base.{ℕ, zero, suc, none, some, List, [], ◌∷◌, ◌==◌, if◌then◌else◌}
use ftf_interview.Jobs.{
  JobEntry, is_live, is_stopped, get_job_by_id, send_sig_to_job, remove_finished_jobs,
  kill_all_jobs,
}
use ftf_interview.Shell.{Shell, Message, Run, Turn, print, print_error, then_run, on_jobs}
use Message.{job_line, job_listed, sending_sigkill, kill_line, kill_failed}

-- A null command is followed.
unfoldable pub print_entry : JobEntry → Shell → Run Shell
print_entry e s =
    if e.cmd == 0
    then Run.breaks
    else Run.returns (print (job_line (s.jobs.entered_cmd e.cmd) e.p_id) s)

unfoldable pub print_job : (job_id : ℕ) → Shell → Run Shell
unfolding get_job_by_id print_entry
print_job job_id s = elim (get_job_by_id job_id s.jobs.non_built_in_cmd) [
  | none ↦ Run.returns s
  | some e ↦ print_entry e s
]

unfoldable pub list_entry : (now : ℕ) → JobEntry → Shell → Run Shell
list_entry now e s =
    if is_live e
    then if e.cmd == 0
      then Run.breaks
      else Run.returns (
          print
            (job_listed e.j_id (s.jobs.entered_cmd e.cmd) e.p_id now e.time (is_stopped e.j_status))
            s)
    else Run.returns s

-- The loop of `printJobsList`, with `left` identifiers from `i` on.
unfoldable pub list_jobs : (left i now : ℕ) → Shell → Run Shell
unfolding get_job_by_id list_entry
list_jobs zero i now s = Run.returns s
list_jobs (suc left) i now s =
    then_run
      (elim (get_job_by_id i s.jobs.non_built_in_cmd) [
        | none ↦ Run.returns s
        | some e ↦ list_entry now e s
      ])
      (list_jobs left (suc i) now)

unfoldable pub print_jobs_list : Turn → Shell → Run Shell
unfolding remove_finished_jobs list_jobs
print_jobs_list turn s = list_jobs 299 1 turn.now (on_jobs (remove_finished_jobs turn.ended) s)

abbrev pub kill_answer : Turn → (pid : ℕ) → Shell → Shell
kill_answer turn pid s = if turn.reaches pid then s else print_error kill_failed s

-- `send_SIG_TO_JOB` with what `kill` answers
unfoldable pub send_sig : Turn → (job_id signum : ℕ) → Shell → Shell
unfolding get_job_by_id send_sig_to_job
send_sig turn job_id signum s = elim (get_job_by_id job_id s.jobs.non_built_in_cmd) [
  | none ↦ s
  | some e ↦ kill_answer turn e.p_id (on_jobs (send_sig_to_job job_id signum) s)
]

unfoldable pub count_live : List JobEntry → ℕ
count_live [] = 0
count_live (e ∷ es) = let rest = count_live es in if is_live e then suc rest else rest

-- The lines that `killAllJobs` prints in front of the signals.
unfoldable pub print_killed : List JobEntry → Shell → Run Shell
print_killed [] s = Run.returns s
print_killed (e ∷ es) s =
    let rest = print_killed es s in
    let next = print_killed es (print (kill_line e.p_id (s.jobs.entered_cmd e.cmd)) s) in
    if is_live e then if e.cmd == 0 then Run.breaks else next else rest

-- What `kill` answers in the last loop.
unfoldable pub kill_answers : Turn → List JobEntry → Shell → Shell
kill_answers turn [] s = s
kill_answers turn (e ∷ es) s =
    kill_answers turn es (if is_live e then kill_answer turn e.p_id s else s)

-- `killAllJobs(true)`
unfoldable pub kill_all : Turn → Shell → Run Shell
unfolding count_live print_killed kill_answers kill_all_jobs
kill_all turn s =
    let es = s.jobs.non_built_in_cmd in
    then_run (print_killed es (print (sending_sigkill (count_live es)) s))
      (λ t. Run.returns (kill_answers turn es (on_jobs kill_all_jobs t)))
