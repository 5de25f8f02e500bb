-- ===== src/Shell/Control.antt =====
-- Linux Shell/Commands.cpp: `execute` of the commands on jobs, `kill`, `quit`, `fg` and `bg`.
use ftf_interview.Base.{
  ℕ, suc, Bool, true, false, none, some, if◌then◌else◌, get_elem?, bytes, equal,
}
use ftf_interview.Jobs.{
  JobStatus, JobsList, is_stopped, get_job_by_id, change_first, get_max_job_id,
  get_last_stopped_job, remove_job_by_id, set_new_id, sigcont,
}
use ftf_interview.Shell.{
  Shell, Command, Message, Run, Turn, print, print_error, then_run, or_breaks, on_jobs,
  name_command,
}
use ftf_interview.Shell.Numbers.{without, stoi}
use ftf_interview.Shell.Prints.{print_job, send_sig, kill_all}
use ftf_interview.Shell.Signals.{wait_with}
use Message.{
  kill_invalid, kill_no_job, signal_sent, fg_list_empty, fg_invalid, fg_no_job, bg_no_stopped,
  bg_invalid, bg_no_job, bg_already_running,
}

-- `kill` with the number of the job
unfoldable pub kill_of : Turn → Command → (job_id : ℕ) → Shell → Run Shell
unfolding stoi without get_job_by_id send_sig
kill_of turn c job_id s =
    if c.job_id_in
    then or_breaks (get_elem? c.args 1) (λ w. or_breaks (stoi (without b'-' w)) (λ signum.
      or_breaks (get_job_by_id job_id s.jobs.non_built_in_cmd)
        (λ e. Run.returns (send_sig turn job_id signum (print (signal_sent signum e.p_id) s)))))
    else Run.returns (print_error (kill_no_job job_id) s)

unfoldable pub execute_kill : Turn → Command → Shell → Run Shell
unfolding kill_of stoi
execute_kill turn c s =
    if c.invalid_arg
    then Run.returns (print_error kill_invalid s)
    else or_breaks (get_elem? c.args 2)
        (λ w. or_breaks (stoi w) (λ job_id. kill_of turn c job_id s))

unfoldable pub execute_quit : Turn → Command → Shell → Run Shell
unfolding kill_all without equal
execute_quit turn c s =
    if c.optional_arg
    then or_breaks (get_elem? c.args 1)
        (λ w. if equal (without b'&' w) (bytes "kill") then kill_all turn s else Run.returns s)
    else Run.returns s

-- `fg` after the wait, where the job is found stopped and gets a new time.
unfoldable pub renew_stopped : (job_id now : ℕ) → Shell → Run Shell
unfolding get_job_by_id set_new_id
renew_stopped job_id now s = elim (get_job_by_id job_id s.jobs.non_built_in_cmd) [
  | none ↦ Run.returns s
  | some e ↦
      if is_stopped e.j_status
      then or_breaks (set_new_id job_id now s.jobs) (λ jobs. Run.returns (record s { jobs = jobs }))
      else Run.returns s
]

-- `fg` after the wait
unfoldable pub fg_done : (job_id now : ℕ) → Shell → Run Shell
unfolding get_job_by_id remove_job_by_id renew_stopped
fg_done job_id now s = elim (get_job_by_id job_id s.jobs.non_built_in_cmd) [
  | none ↦ Run.returns s
  | some e ↦
      renew_stopped job_id now
        (if is_stopped e.j_status then s else on_jobs (remove_job_by_id job_id) s)
]

-- `for_pid`, and `for_cmd` with a new ExternalCommand
unfoldable pub to_foreground : Command → (pid : ℕ) → Shell → Shell
to_foreground c pid s = record s {
  for_pid = some pid;
  for_cmd = s.next_cmd;
  next_cmd = suc s.next_cmd;
  jobs = name_command s.next_cmd c.entered_cmd s.jobs;
}

-- `fg` with the number of the job
unfoldable pub fg_of : Turn → Command → (job_id : ℕ) → Shell → Run Shell
unfolding get_job_by_id print_job send_sig to_foreground wait_with fg_done
fg_of turn c job_id s = or_breaks (get_job_by_id job_id s.jobs.non_built_in_cmd) (λ e.
    then_run (print_job job_id s) (λ t.
      then_run (wait_with turn turn.keys (to_foreground c e.p_id (send_sig turn job_id sigcont t)))
        (fg_done job_id turn.now)))

unfoldable pub execute_fg : Turn → Command → Shell → Run Shell
unfolding fg_of get_max_job_id stoi without
execute_fg turn c s =
    if c.invalid_arg
    then Run.returns (print_error fg_invalid s)
    else if c.optional_arg
    then or_breaks (get_elem? c.args 1) (λ w. or_breaks (stoi (without b'&' w)) (λ job_id.
      if c.job_id_in
      then fg_of turn c job_id s
      else Run.returns (print_error (fg_no_job job_id) s)))
    else if c.listempty
    then Run.returns (print_error fg_list_empty s)
    else fg_of turn c (get_max_job_id s.jobs.non_built_in_cmd) s

unfoldable pub in_background : (job_id : ℕ) → JobsList → JobsList
unfolding change_first
in_background job_id s = record s {
  non_built_in_cmd =
      change_first (λ e. record e { j_status = JobStatus.background }) job_id s.non_built_in_cmd;
}

abbrev pub is_background : JobStatus → Bool
is_background JobStatus.background = true
is_background _ = false

-- `bg` without a number: the last stopped job
unfoldable pub bg_last : Turn → Shell → Run Shell
unfolding get_last_stopped_job get_job_by_id print_job send_sig in_background
bg_last turn s = elim (get_last_stopped_job s.jobs.stoppedd) [
  | none ↦ Run.returns (print_error bg_no_stopped s)
  | some (e, job_id) ↦ then_run (print_job job_id s) (λ t.
      let sent = send_sig turn job_id sigcont t in
      or_breaks (get_job_by_id job_id sent.jobs.non_built_in_cmd)
        (λ _. Run.returns (on_jobs (in_background job_id) sent)))
]

-- `bg` with the number of the job
unfoldable pub bg_of : Turn → (job_id : ℕ) → Shell → Run Shell
unfolding get_job_by_id print_job send_sig in_background
bg_of turn job_id s = elim (get_job_by_id job_id s.jobs.non_built_in_cmd) [
  | none ↦ Run.returns s
  | some e ↦
      if is_background e.j_status
      then Run.returns (print_error (bg_already_running job_id) s)
      else then_run (print_job job_id (send_sig turn job_id sigcont s))
          (λ t. Run.returns (on_jobs (in_background job_id) t))
]

unfoldable pub execute_bg : Turn → Command → Shell → Run Shell
unfolding bg_last bg_of stoi without
execute_bg turn c s =
    if c.invalid_arg
    then Run.returns (print_error bg_invalid s)
    else if c.optional_arg
    then or_breaks (get_elem? c.args 1) (λ w. or_breaks (stoi (without b'&' w)) (λ job_id.
      if c.job_id_in then bg_of turn job_id s else Run.returns (print_error (bg_no_job job_id) s)))
    else bg_last turn s
