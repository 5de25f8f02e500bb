-- ===== src/Shell/Stops.antt =====
-- What Ctrl-Z does to the process that is waited for.
use ftf_interview.Base.{
  ℕ, ◌≡◌, ◌≢◌, ◌<◌, refl, ap, sym, ◌∙◌, true, false, none, some, [], ◌∷◌, ◌++◌, ◌==◌, ◌||◌, Ptr,
  if◌then◌else◌, ==_ne, if_ind, All, get_elem?, total, some-injective, set, List, ◌≤◌, arith, suc,
  zero,
}
use ftf_interview.Jobs.{
  JobsList, get_max_job_id, change_first, add_job, add_external, set_job_pid, set_pids,
  is_job_pid_in, JobEntry, JobStatus,
}
use ftf_interview.Jobs.Histories.{Holds}
use ftf_interview.Jobs.News.{FirstEmpty}
use ftf_interview.Jobs.Places.{get_job_by_id-append}
use ftf_interview.Shell.{Shell, Run, Turn, on_jobs, print, Message}
use ftf_interview.Shell.Prints.{kill_answer}
use ftf_interview.Shell.Signals.{
  stop_new, stop_job, stop_first, stopped_copy, stop_known, stop_process, ctrl_z_handler, sigstop,
  record_signal,
}
use ftf_interview.Shell.NewJobs.{
  new_job_lem, job_of, put, job_of-IsFound, found_new, changed_new, with_pid,
}
use Message.{got_ctrl_z, was_stopped}

-- The list with the process as its last job
stop_new_lem :
    (cmd : Ptr) (pid now : ℕ) (s : JobsList)
    → Holds s
    → cmd ≢ 0
    → (t : JobsList) × (stop_new cmd pid now s ≡ some t)
      × (t.non_built_in_cmd
          ≡ put (with_pid pid (job_of cmd now true s.non_built_in_cmd)) s.non_built_in_cmd)
      × (t.signals ≡ s.signals)
unfolding stop_new set_job_pid set_pids add_job add_external
stop_new_lem cmd pid now s h n =
    let es = s.non_built_in_cmd in
    let new = job_of cmd now true es in
    let f = job_of-IsFound cmd now true s h in
    let id = get_max_job_id (put new es) in
    let (d, stopped) = get_job_by_id-append id s.stoppedd new (sym f.max_id) in
    let added = add_job false cmd now true s in
    let text = added.entered_cmd cmd in
    (
      record added {
        non_built_in_cmd = change_first (with_pid pid) id added.non_built_in_cmd;
        stoppedd = change_first (with_pid pid) id added.stoppedd;
        entered_cmd = λ p. if p == new.cmd || p == d.cmd then text else added.entered_cmd p;
      },
      rw (stop_new, ==_ne cmd 0 n, set_job_pid, found_new (with_pid pid) new es f, stopped) refl,
      changed_new (with_pid pid) new es f,
      refl,
    )

-- The list of the jobs and the signals, where `kill` has answered
pub answered :
    (turn : Turn) (pid : ℕ) (s : Shell)
    → ((kill_answer turn pid s).jobs ≡ s.jobs) × ((kill_answer turn pid s).for_cmd ≡ s.for_cmd)
answered turn pid s =
    if_ind (λ (t : Shell). (t.jobs ≡ s.jobs) × (t.for_cmd ≡ s.for_cmd)) (turn.reaches pid) _ _
      (λ _. (refl, refl)) (λ _. (refl, refl))

waited :
    (turn : Turn) (pid : ℕ) (s : Shell)
    → s.for_pid ≡ some pid
    → ctrl_z_handler turn s ≡ stop_process turn pid (print got_ctrl_z s)
unfolding ctrl_z_handler
waited turn pid s f =
    ap
      (λ o. elim o [
        | none ↦ Run.returns (print got_ctrl_z s)
        | some p ↦ stop_process turn p (print got_ctrl_z s)
      ])
      f

-- The shell waits for a process that no entry of the job list names; in the list no identifier
-- other than 0 stands twice, the empty entries are those with 0, and one is empty behind entries
-- that are in use. Ctrl-Z sends the process SIGSTOP, and it becomes a job at that entry, all
-- others staying as they are, with the status stopped, the command waited for, the time, and an
-- identifier above all in the list; the shell waits for no process any more.
pub ctrl_z_handler-new :
    (turn : Turn) (pid : ℕ) (s : Shell) (front back : List JobEntry) (e : JobEntry)
    → Holds s.jobs
    → FirstEmpty s.jobs.non_built_in_cmd front e back
    → s.for_pid ≡ some pid
    → s.for_cmd ≢ 0
    → is_job_pid_in pid s.jobs.non_built_in_cmd ≡ false
    → (t : Shell) × (id : ℕ) × (ctrl_z_handler turn s ≡ Run.returns t)
      × (t.for_pid ≡ none)
      × All (λ d. d.j_id < id) s.jobs.non_built_in_cmd
      × (t.jobs.non_built_in_cmd
          ≡ front
            ++ record {
              j_status = JobStatus.stopped;
              j_id = id;
              p_id = pid;
              cmd = s.for_cmd;
              time = turn.now;
            }
              ∷ back)
      × (t.jobs.signals ≡ s.jobs.signals ++ (pid, sigstop) ∷ [])
unfolding ctrl_z_handler stop_process stop_job
ctrl_z_handler-new turn pid s front back e h empty f n new =
    let told = print got_ctrl_z s in
    let marked = on_jobs (record_signal pid sigstop) told in
    let sent = kill_answer turn pid marked in
    let (same_jobs, same_cmd) = answered turn pid marked in
    let held : Holds marked.jobs = record { well = h.well; some_place = h.some_place } in
    let (j, stopped, l, sg) = stop_new_lem s.for_cmd pid turn.now marked.jobs held n in
    let stops : stop_job sent.for_cmd pid turn.now sent.jobs ≡ some j =
      ap (λ c. stop_job c pid turn.now sent.jobs) same_cmd
      ∙ ap (stop_job s.for_cmd pid turn.now) same_jobs
      ∙ rw (stop_job, new) stopped in
    let (ids, fields) = new_job_lem s.for_cmd turn.now true pid s.jobs front back e h empty in
    (
      print (was_stopped pid) (record sent { jobs = j; for_pid = none }),
      (job_of s.for_cmd turn.now true s.jobs.non_built_in_cmd).j_id,
      waited turn pid s f ∙ rw (stop_process, stops) refl,
      refl,
      ids,
      l ∙ fields,
      sg,
    )

abbrev pub has_pid : ℕ → JobEntry → ℕ
has_pid pid e = if e.p_id == pid then 1 else 0

-- A job of a process of which there is no other
pub record IsOf (pid : ℕ) (es : List JobEntry) (i : ℕ) (e : JobEntry) : Type 0 where
  pub place : get_elem? es i ≡ some e
  pub process : e.p_id ≡ pid
  pub only : total (has_pid pid) es ≤ 1

abbrev pub halted : JobEntry → JobEntry
halted e = record e { j_status = JobStatus.stopped }

some_pid :
    (pid : ℕ) (es : List JobEntry) (i : ℕ) (e : JobEntry)
    → get_elem? es i ≡ some e
    → e.p_id ≡ pid
    → (1 ≤ total (has_pid pid) es) × (is_job_pid_in pid es ≡ true)
unfolding total is_job_pid_in
some_pid pid [] i e g h = ground arith
some_pid pid (d ∷ es) zero e g h =
    let same : d.p_id ≡ pid = ap (λ (x : JobEntry). x.p_id) (some-injective d e g) ∙ h in
    (grind (arith, same), ground (arith, same))
some_pid pid (d ∷ es) (suc i) e g h =
    let (l, y) = some_pid pid es i e g h in (omega (arith, l), ground (arith, y))

stops_it :
    (pid : ℕ) (es : List JobEntry) (i : ℕ) (e : JobEntry)
    → IsOf pid es i e
    → (stop_first pid es ≡ set es i (halted e)) × (stopped_copy pid es ≡ halted e ∷ [])
unfolding stop_first stopped_copy total
stops_it pid [] i e h = let no = h.place in ground arith
stops_it pid (d ∷ es) zero e h =
    let same = some-injective d e h.place in
    let of_it : d.p_id ≡ pid = ap (λ (x : JobEntry). x.p_id) same ∙ h.process in
    let y : (d.p_id == pid) ≡ true = ground (arith, of_it) in
    (
      rw (stop_first, y) (ap (λ (x : JobEntry). halted x ∷ es) same),
      rw (stopped_copy, y) (ap (λ (x : JobEntry). halted x ∷ []) same),
    )
stops_it pid (d ∷ es) (suc i) e h =
    let (l, _) = some_pid pid es i e h.place h.process in
    let first = h.only in
    let n : (d.p_id == pid) ≡ false = grind (arith, l, first) in
    let rest : IsOf pid es i e = record {
      place = h.place;
      process = h.process;
      only = omega (arith, first);
    } in
    let (f, c) = stops_it pid es i e rest in
    (rw (stop_first, n) (ap (λ x. d ∷ x) f), rw (stopped_copy, n) c)

-- ctrlZHandler
pub ctrl_z_handler-known :
    (turn : Turn) (pid : ℕ) (s : Shell) (i : ℕ) (e : JobEntry)
    → s.for_pid ≡ some pid
    → IsOf pid s.jobs.non_built_in_cmd i e
    → (t : Shell) × (ctrl_z_handler turn s ≡ Run.returns t)
      × (t.for_pid ≡ none)
      × (t.jobs.non_built_in_cmd ≡ set s.jobs.non_built_in_cmd i (halted e))
      × (t.jobs.stoppedd ≡ s.jobs.stoppedd ++ halted e ∷ [])
      × (t.jobs.signals ≡ s.jobs.signals ++ (pid, sigstop) ∷ [])
unfolding stop_process stop_job stop_known
ctrl_z_handler-known turn pid s i e f h =
    let told = print got_ctrl_z s in
    let marked = on_jobs (record_signal pid sigstop) told in
    let sent = kill_answer turn pid marked in
    let (same_jobs, _) = answered turn pid marked in
    let (l, st) = stops_it pid s.jobs.non_built_in_cmd i e h in
    let (_, y) = some_pid pid s.jobs.non_built_in_cmd i e h.place h.process in
    let stops : stop_job sent.for_cmd pid turn.now sent.jobs ≡ some (stop_known pid marked.jobs) =
      ap (stop_job sent.for_cmd pid turn.now) same_jobs ∙ rw (stop_job, y) refl in
    (
      print (was_stopped pid) (record sent { jobs = stop_known pid marked.jobs; for_pid = none }),
      waited turn pid s f ∙ rw (stop_process, stops) refl,
      refl,
      l,
      ap (λ x. s.jobs.stoppedd ++ x) st,
      refl,
    )
