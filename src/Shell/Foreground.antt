-- ===== src/Shell/Foreground.antt =====
-- A job that `fg` waits for: it ends, or it is stopped again.
use ftf_interview.Base.{
  ℕ, suc, ◌≡◌, ◌≢◌, ◌≤◌, ◌<◌, refl, ap, sym, subst, ◌∙◌, true, false, none, some, List, [], ◌∷◌,
  ◌++◌, ◌==◌, arith, total, set, get_elem?, map, if◌then◌else◌, ==_ne, total-set,
}
use ftf_interview.Jobs.{
  JobStatus, JobEntry, JobsList, is_stopped, get_job_by_id, change_first, signal_job,
  send_sig_to_job, sigcont, clear_job, remove_job_by_id, set_new_id,
}
use ftf_interview.Jobs.Ids.{has_id}
use ftf_interview.Jobs.Places.{
  get_job_by_id-get, change_first-set, get_elem?-set, set-set, emptied, clear_job-set, cleared-none,
  total-kept,
}
use ftf_interview.Shell.{
  name_command, Shell, Command, Run, Turn, Key, on_jobs, then_run, print, Message,
}
use ftf_interview.Shell.Prints.{print_job, print_entry, send_sig, kill_answer}
use ftf_interview.Shell.Signals.{wait_with, handle_key, sigstop}
use ftf_interview.Shell.Control.{fg_of, fg_done, renew_stopped, to_foreground}
use ftf_interview.Shell.Stops.{answered, has_pid, halted, ctrl_z_handler-known}
use Message.{job_line}

-- The job in the background, where it is put before the wait
abbrev running : JobEntry → JobEntry
running e = record e { j_status = JobStatus.background }

-- A job at its place, with an identifier that stands once.
pub record IsAt (es : List JobEntry) (i : ℕ) (e : JobEntry) : Type 0 where
  pub stands : get_elem? es i ≡ some e
  pub some_id : 0 < e.j_id
  pub once : total (has_id e.j_id) es ≤ 1

set-IsAt :
    (es : List JobEntry) (i : ℕ) (e new : JobEntry)
    → IsAt es i e
    → new.j_id ≡ e.j_id
    → IsAt (set es i new) i new
set-IsAt es i e new h k = record {
  stands = get_elem?-set es i e new h.stands;
  some_id = rw k h.some_id;
  once =
      subst (λ m. total (has_id m) (set es i new) ≤ 1) (sym k)
        (omega (arith, total-kept e.j_id es i e new h.stands k, h.once));
}

found : (es : List JobEntry) (i : ℕ) (e : JobEntry) → IsAt es i e → get_job_by_id e.j_id es ≡ some e
found es i e h = get_job_by_id-get e.j_id es i e h.stands refl h.once

-- A job that is not stopped is removed.
fg_done_ended :
    (now : ℕ) (s : Shell) (i : ℕ) (e : JobEntry)
    → IsAt s.jobs.non_built_in_cmd i e
    → is_stopped e.j_status ≡ false
    → (fg_done e.j_id now s ≡ Run.returns (on_jobs (remove_job_by_id e.j_id) s))
      × ((remove_job_by_id e.j_id s.jobs).non_built_in_cmd
          ≡ set s.jobs.non_built_in_cmd i (emptied e))
unfolding fg_done renew_stopped remove_job_by_id
fg_done_ended now s i e h n =
    let es = s.jobs.non_built_in_cmd in
    let removed = clear_job-set e.j_id es i e h.stands refl h.once in
    let gone : get_job_by_id e.j_id (map (clear_job e.j_id) es) ≡ none =
      ap (get_job_by_id e.j_id) removed
      ∙ cleared-none e.j_id es i e h.stands refl h.some_id h.once in
    let kept : (if is_stopped e.j_status then s else on_jobs (remove_job_by_id e.j_id) s)
        ≡ on_jobs (remove_job_by_id e.j_id) s =
      rw n refl in
    let renewed : renew_stopped e.j_id now (on_jobs (remove_job_by_id e.j_id) s)
        ≡ Run.returns (on_jobs (remove_job_by_id e.j_id) s) =
      rw (renew_stopped, gone) refl in
    (rw (fg_done, found es i e h) (ap (renew_stopped e.j_id now) kept ∙ renewed), removed)

-- SIGCONT puts the job in the background.
continued :
    (s : JobsList) (i : ℕ) (e : JobEntry)
    → IsAt s.non_built_in_cmd i e
    → ((send_sig_to_job e.j_id sigcont s).non_built_in_cmd ≡ set s.non_built_in_cmd i (running e))
      × ((send_sig_to_job e.j_id sigcont s).signals ≡ s.signals ++ (e.p_id, sigcont) ∷ [])
unfolding send_sig_to_job signal_job
continued s i e h = (
  rw (send_sig_to_job, found s.non_built_in_cmd i e h)
      (change_first-set running e.j_id s.non_built_in_cmd i e h.stands refl h.once),
  rw (send_sig_to_job, found s.non_built_in_cmd i e h) refl,
)

-- The shell before the wait
module _ (turn : Turn) (c : Command) (s : Shell) (i : ℕ) (e : JobEntry) where
  abbrev told : Shell
  told = print (job_line (s.jobs.entered_cmd e.cmd) e.p_id) s

  abbrev signalled : Shell
  signalled = kill_answer turn e.p_id (on_jobs (send_sig_to_job e.j_id sigcont) told)

  abbrev waiting : Shell
  waiting = record signalled {
    for_pid = some e.p_id;
    for_cmd = signalled.next_cmd;
    next_cmd = suc signalled.next_cmd;
    jobs = name_command signalled.next_cmd c.entered_cmd signalled.jobs;
  }

  waiting_jobs :
      IsAt s.jobs.non_built_in_cmd i e
      → (waiting.jobs.non_built_in_cmd ≡ set s.jobs.non_built_in_cmd i (running e))
        × (waiting.jobs.signals ≡ s.jobs.signals ++ (e.p_id, sigcont) ∷ [])
  waiting_jobs h =
      let (same_jobs, _) = answered turn e.p_id (on_jobs (send_sig_to_job e.j_id sigcont) told) in
      let (l, sg) = continued s.jobs i e h in
      (
        ap (λ (j : JobsList). j.non_built_in_cmd) same_jobs ∙ l,
        ap (λ (j : JobsList). j.signals) same_jobs ∙ sg,
      )

  fg_of-waiting :
      IsAt s.jobs.non_built_in_cmd i e
      → e.cmd ≢ 0
      → fg_of turn c e.j_id s
        ≡ then_run (wait_with turn turn.keys waiting) (fg_done e.j_id turn.now)
  unfolding fg_of print_job print_entry send_sig to_foreground
  fg_of-waiting h n =
      let f = found s.jobs.non_built_in_cmd i e h in
      rw (fg_of, f, print_job, print_entry, ==_ne e.cmd 0 n, send_sig) (rw (send_sig, f) refl)

-- The job with a new time, where it was stopped
abbrev renewed : (now : ℕ) → JobEntry → JobEntry
renewed now e = record e { time = now }

-- A stopped job stays.
fg_done_stopped :
    (now : ℕ) (s : Shell) (i : ℕ) (e : JobEntry)
    → IsAt s.jobs.non_built_in_cmd i e
    → is_stopped e.j_status ≡ true
    → (t : Shell) × (fg_done e.j_id now s ≡ Run.returns t)
      × (t.jobs.non_built_in_cmd ≡ set s.jobs.non_built_in_cmd i (renewed now e))
      × (t.jobs.signals ≡ s.jobs.signals)
unfolding fg_done renew_stopped set_new_id
fg_done_stopped now s i e h y =
    let es = s.jobs.non_built_in_cmd in
    let f = found es i e h in
    let kept : (if is_stopped e.j_status then s else on_jobs (remove_job_by_id e.j_id) s) ≡ s =
      rw y refl in
    let jobs : JobsList = record s.jobs {
      non_built_in_cmd = change_first (renewed now) e.j_id es;
      stoppedd = map (λ j. if j.j_id == e.j_id then renewed now j else j) s.jobs.stoppedd;
    } in
    let again : renew_stopped e.j_id now s ≡ Run.returns (record s { jobs = jobs }) =
      rw (renew_stopped, f, y) (rw (set_new_id, f) refl) in
    (
      record s { jobs = jobs },
      rw (fg_done, f) (ap (renew_stopped e.j_id now) kept ∙ again),
      change_first-set (renewed now) e.j_id es i e h.stands refl h.once,
      refl,
    )

module _ (turn : Turn) (c : Command) (s : Shell) (i : ℕ) (e : JobEntry) where
  -- The job stands in the background during the wait.
  waiting-IsAt :
      IsAt s.jobs.non_built_in_cmd i e
      → IsAt (waiting turn c s i e).jobs.non_built_in_cmd i (running e)
  waiting-IsAt h =
      let (l, _) = waiting_jobs turn c s i e h in
      subst (λ x. IsAt x i (running e)) (sym l)
        (set-IsAt s.jobs.non_built_in_cmd i e (running e) h refl)

  -- fg of a job whose positive identifier stands once, with a command, and no key pressed: the
  -- process gets SIGCONT, and of the list only that job's entry changes, which is emptied.
  pub fg_of-ended :
      IsAt s.jobs.non_built_in_cmd i e
      → e.cmd ≢ 0
      → turn.keys ≡ []
      → (t : Shell) × (fg_of turn c e.j_id s ≡ Run.returns t)
        × (t.jobs.non_built_in_cmd ≡ set s.jobs.non_built_in_cmd i (emptied e))
        × (t.jobs.signals ≡ s.jobs.signals ++ (e.p_id, sigcont) ∷ [])
  unfolding wait_with remove_job_by_id
  fg_of-ended h n k =
      let es = s.jobs.non_built_in_cmd in
      let w = waiting turn c s i e in
      let (l, sg) = waiting_jobs turn c s i e h in
      let (r, removed) = fg_done_ended turn.now w i (running e) (waiting-IsAt h) refl in
      (
        on_jobs (remove_job_by_id e.j_id) w,
        fg_of-waiting turn c s i e h n
            ∙ ap (λ ks. then_run (wait_with turn ks w) (fg_done e.j_id turn.now)) k
            ∙ r,
        removed ∙ ap (λ x. set x i (emptied e)) l ∙ set-set es i (running e) (emptied e),
        sg,
      )

  -- fg of a job whose positive identifier and whose process stand once, with a command, and Ctrl-Z
  -- pressed once: the process gets SIGCONT and SIGSTOP, and the job stays at its place, stopped,
  -- with the time of that moment.
  pub fg_of-stopped :
      IsAt s.jobs.non_built_in_cmd i e
      → total (has_pid e.p_id) s.jobs.non_built_in_cmd ≤ 1
      → e.cmd ≢ 0
      → turn.keys ≡ Key.ctrl_z ∷ []
      → (t : Shell) × (fg_of turn c e.j_id s ≡ Run.returns t)
        × (t.jobs.non_built_in_cmd
            ≡ set s.jobs.non_built_in_cmd i
                (record e { j_status = JobStatus.stopped; time = turn.now }))
        × (t.jobs.signals ≡ s.jobs.signals ++ (e.p_id, sigcont) ∷ [] ++ (e.p_id, sigstop) ∷ [])
  unfolding wait_with handle_key
  fg_of-stopped h o n k =
      let es = s.jobs.non_built_in_cmd in
      let w = waiting turn c s i e in
      let run = running e in
      let stopped = halted run in
      let (l, sg) = waiting_jobs turn c s i e h in
      let at = waiting-IsAt h in
      let (v, rv, _, lv, _, sgv) = ctrl_z_handler-known turn e.p_id w i run refl (record {
        place = at.stands;
        process = refl;
        only =
            subst (λ x. total (has_pid e.p_id) x ≤ 1) (sym l)
              (omega (arith, total-set (has_pid e.p_id) es i e run h.stands, o));
      }) in
      let at_v : IsAt v.jobs.non_built_in_cmd i stopped =
        subst (λ x. IsAt x i stopped) (sym lv)
          (set-IsAt w.jobs.non_built_in_cmd i run stopped at refl) in
      let (t, rt, lt, sgt) = fg_done_stopped turn.now v i stopped at_v refl in
      let last = renewed turn.now stopped in
      (
        t,
        fg_of-waiting turn c s i e h n
            ∙ ap (λ ks. then_run (wait_with turn ks w) (fg_done e.j_id turn.now)) k
            ∙ ap (λ r. then_run (then_run r (wait_with turn [])) (fg_done e.j_id turn.now)) rv
            ∙ rt,
        lt
            ∙ ap (λ x. set x i last) (lv ∙ ap (λ x. set x i stopped) l)
            ∙ set-set (set es i run) i stopped last
            ∙ set-set es i run last,
        sgt ∙ sgv ∙ ap (λ x. x ++ (e.p_id, sigstop) ∷ []) sg,
      )
