-- ===== src/Shell/Signals.antt =====
-- Linux Shell/signals.cpp: the handlers, and the keys pressed during a `waitpid`.
use ftf_interview.Base.{
  ℕ, true, false, Option, none, some, List, [], ◌∷◌, ◌++◌, ◌==◌, if◌then◌else◌, map, Ptr,
}
use ftf_interview.Jobs.{
  JobStatus, JobEntry, JobsList, is_job_pid_in, add_job, set_job_pid, get_max_job_id, sigkill,
}
use ftf_interview.Shell.{Shell, Message, Run, Turn, Key, print, then_run, or_breaks, on_jobs}
use ftf_interview.Shell.Prints.{kill_answer}
use Message.{got_ctrl_z, got_ctrl_c, was_stopped, was_killed}

abbrev pub sigstop : ℕ
sigstop = 19

abbrev pub record_signal : (pid signum : ℕ) → JobsList → JobsList
record_signal pid signum s = record s { signals = s.signals ++ (pid, signum) ∷ [] }

-- The first entry of the process stops.
unfoldable pub stop_first : (pid : ℕ) → List JobEntry → List JobEntry
stop_first pid [] = []
stop_first pid (e ∷ es) =
    let rest = stop_first pid es in
    if e.p_id == pid then record e { j_status = JobStatus.stopped } ∷ es else e ∷ rest

-- Its copy, which goes to `stoppedd`.
unfoldable pub stopped_copy : (pid : ℕ) → List JobEntry → List JobEntry
stopped_copy pid [] = []
stopped_copy pid (e ∷ es) =
    let rest = stopped_copy pid es in
    if e.p_id == pid then record e { j_status = JobStatus.stopped } ∷ [] else rest

unfoldable pub stop_known : (pid : ℕ) → JobsList → JobsList
unfolding stop_first stopped_copy
stop_known pid s = record s {
  non_built_in_cmd = stop_first pid s.non_built_in_cmd;
  stoppedd = s.stoppedd ++ stopped_copy pid s.non_built_in_cmd;
}

-- The command waited for is an external one or a redirection, so it is not built in. None is a
-- null pointer followed.
unfoldable pub stop_new : (cmd : Ptr) → (pid now : ℕ) → JobsList → Option JobsList
unfolding add_job set_job_pid get_max_job_id
stop_new cmd pid now s =
    let added = add_job false cmd now true s in
    let id = get_max_job_id added.non_built_in_cmd in
    if cmd == 0 then none else set_job_pid id pid (added.entered_cmd cmd) added

unfoldable pub stop_job : (cmd : Ptr) → (pid now : ℕ) → JobsList → Option JobsList
unfolding stop_known stop_new is_job_pid_in
stop_job cmd pid now s =
    if is_job_pid_in pid s.non_built_in_cmd then some (stop_known pid s) else stop_new cmd pid now s

-- `ctrlZHandler` with the process waited for
unfoldable pub stop_process : Turn → (pid : ℕ) → Shell → Run Shell
unfolding stop_job
stop_process turn pid s =
    let sent = kill_answer turn pid (on_jobs (record_signal pid sigstop) s) in
    or_breaks (stop_job sent.for_cmd pid turn.now sent.jobs)
      (λ jobs. Run.returns (print (was_stopped pid) (record sent { jobs = jobs; for_pid = none })))

unfoldable pub ctrl_z_handler : Turn → Shell → Run Shell
unfolding stop_process
ctrl_z_handler turn s = elim s.for_pid [
  | none ↦ Run.returns (print got_ctrl_z s)
  | some pid ↦ stop_process turn pid (print got_ctrl_z s)
]

abbrev pub end_job : (pid : ℕ) → JobEntry → JobEntry
end_job pid e = if e.p_id == pid then record e { j_status = JobStatus.finished } else e

abbrev pub end_jobs : (pid : ℕ) → JobsList → JobsList
end_jobs pid s = record s { non_built_in_cmd = map (end_job pid) s.non_built_in_cmd }

-- `ctrlCHandler` with the process waited for
unfoldable pub kill_process : Turn → (pid : ℕ) → Shell → Shell
kill_process turn pid s =
    let sent = kill_answer turn pid (on_jobs (record_signal pid sigkill) s) in
    print (was_killed pid) (record sent { jobs = end_jobs pid sent.jobs; for_pid = none })

unfoldable pub ctrl_c_handler : Turn → Shell → Run Shell
unfolding kill_process
ctrl_c_handler turn s = elim s.for_pid [
  | none ↦ Run.returns (print got_ctrl_c s)
  | some pid ↦ Run.returns (kill_process turn pid (print got_ctrl_c s))
]

unfoldable pub handle_key : Turn → Key → Shell → Run Shell
unfolding ctrl_z_handler ctrl_c_handler
handle_key turn Key.ctrl_z s = ctrl_z_handler turn s
handle_key turn Key.ctrl_c s = ctrl_c_handler turn s

-- The keys pressed before `waitpid` returns.
unfoldable pub wait_with : Turn → List Key → Shell → Run Shell
unfolding handle_key
wait_with turn [] s = Run.returns s
wait_with turn (k ∷ ks) s = then_run (handle_key turn k s) (wait_with turn ks)
