-- ===== src/Shell/Ends.antt =====
-- Every command ends with the fuel that it gets, and leaves `cout` where it was.
use ftf_interview.Base.{
  ℕ, refl, Option, none, some, List, [], ◌∷◌, Bytes, bytes, if_ind, if◌then◌else◌, option_ind,
  get_elem?, drop, equal,
}
use ftf_interview.Jobs.{
  JobEntry, is_stopped, get_job_by_id, get_max_job_id, get_last_stopped_job, set_new_id,
  remove_job_by_id, sigcont,
}
use ftf_interview.Shell.{Shell, Command, Message, Os, Run, Turn, on_jobs, print, print_error}
use ftf_interview.Shell.Numbers.{stoi, without}
use ftf_interview.Shell.Create.{is_dash}
use ftf_interview.Shell.Prints.{print_job, send_sig}
use ftf_interview.Shell.Keeps.{
  SameOut, Keeps, Keeps-trans, then_run-Keeps, or_breaks-Safe, print_job-Keeps, send_sig-SameOut,
  kill_all-Keeps, wait_with-Keeps,
}
use ftf_interview.Shell.Signals.{wait_with}
use ftf_interview.Shell.Directories.{change_directory, go_back, cd_to, execute_cd}
use ftf_interview.Shell.Control.{
  kill_of, execute_kill, execute_quit, renew_stopped, fg_done, to_foreground, fg_of, execute_fg,
  is_background, bg_last, bg_of, execute_bg,
}
use ftf_interview.Shell.Execute.{
  cat_file, cat_files, execute_cat, run_foreground, run_background, started_as, execute_external,
}
use Message.{signal_sent, file_bytes, cat_not_enough_args}

cd_to-SameOut : (os : Os) (c : Command) (w : Bytes) (s : Shell) → SameOut s (cd_to os c w s)
unfolding cd_to go_back change_directory
cd_to-SameOut os c w s =
    if_ind (SameOut s) c.too_many_args _ _ (λ _. refl)
      (λ _.
        if_ind (SameOut s) (is_dash w) _ _
          (λ _.
            if_ind (SameOut s) c.oldpwd_null _ _ (λ _. refl)
              (λ _.
                option_ind (SameOut s) c.last_d _ _ (λ _. refl)
                  (λ d _. option_ind (SameOut s) (os.chdir s.cwd d) _ _ (λ _. refl) (λ _ _. refl))))
          (λ _.
            option_ind (SameOut s) (os.chdir s.cwd (without b'&' w)) _ _ (λ _. refl) (λ _ _. refl)))

pub execute_cd-Keeps : (os : Os) (c : Command) (s : Shell) → Keeps s (execute_cd os c s)
unfolding execute_cd
execute_cd-Keeps os c s =
    if_ind (Keeps s) c.optional_arg _ _
      (λ _. or_breaks-Safe (SameOut s) (get_elem? c.args 1) _ (λ w. cd_to-SameOut os c w s))
      (λ _. refl)

pub execute_kill-Keeps : (turn : Turn) (c : Command) (s : Shell) → Keeps s (execute_kill turn c s)
unfolding execute_kill kill_of
execute_kill-Keeps turn c s =
    if_ind (Keeps s) c.invalid_arg _ _ (λ _. refl)
      (λ _. or_breaks-Safe (SameOut s) (get_elem? c.args 2) _ (λ w.
        or_breaks-Safe (SameOut s) (stoi w) _ (λ job_id.
          if_ind (Keeps s) c.job_id_in _ _
            (λ _. or_breaks-Safe (SameOut s) (get_elem? c.args 1) _ (λ v.
              or_breaks-Safe (SameOut s) (stoi (without b'-' v)) _ (λ signum.
                or_breaks-Safe (SameOut s) (get_job_by_id job_id s.jobs.non_built_in_cmd) _ (λ e.
                  send_sig-SameOut turn job_id signum (print (signal_sent signum e.p_id) s)))))
            (λ _. refl))))

pub execute_quit-Keeps : (turn : Turn) (c : Command) (s : Shell) → Keeps s (execute_quit turn c s)
unfolding execute_quit
execute_quit-Keeps turn c s =
    if_ind (Keeps s) c.optional_arg _ _
      (λ _. or_breaks-Safe (SameOut s) (get_elem? c.args 1) _ (λ w.
        if_ind (Keeps s) (equal (without b'&' w) (bytes "kill")) _ _ (λ _. kill_all-Keeps turn s)
          (λ _. refl)))
      (λ _. refl)

renew_stopped-Keeps : (job_id now : ℕ) (s : Shell) → Keeps s (renew_stopped job_id now s)
unfolding renew_stopped
renew_stopped-Keeps job_id now s =
    option_ind (Keeps s) (get_job_by_id job_id s.jobs.non_built_in_cmd) _ _ (λ _. refl)
      (λ e _.
        if_ind (Keeps s) (is_stopped e.j_status) _ _
          (λ _. or_breaks-Safe (SameOut s) (set_new_id job_id now s.jobs) _ (λ _. refl))
          (λ _. refl))

fg_done-Keeps : (job_id now : ℕ) (s : Shell) → Keeps s (fg_done job_id now s)
unfolding fg_done
fg_done-Keeps job_id now s =
    option_ind (Keeps s) (get_job_by_id job_id s.jobs.non_built_in_cmd) _ _ (λ _. refl)
      (λ e _.
        let t = if is_stopped e.j_status then s else on_jobs (remove_job_by_id job_id) s in
        Keeps-trans (renew_stopped job_id now t) s t
          (if_ind (SameOut s) (is_stopped e.j_status) _ _ (λ _. refl) (λ _. refl))
          (renew_stopped-Keeps job_id now t))

fg_of-Keeps : (turn : Turn) (c : Command) (job_id : ℕ) (s : Shell) → Keeps s (fg_of turn c job_id s)
unfolding fg_of to_foreground
fg_of-Keeps turn c job_id s =
    or_breaks-Safe (SameOut s) (get_job_by_id job_id s.jobs.non_built_in_cmd) _ (λ e.
      then_run-Keeps s _ _ (print_job-Keeps job_id s) (λ t.
        let u = to_foreground c e.p_id (send_sig turn job_id sigcont t) in
        then_run-Keeps t _ _
          (Keeps-trans (wait_with turn turn.keys u) t u (send_sig-SameOut turn job_id sigcont t)
            (wait_with-Keeps turn turn.keys u))
          (fg_done-Keeps job_id turn.now)))

pub execute_fg-Keeps : (turn : Turn) (c : Command) (s : Shell) → Keeps s (execute_fg turn c s)
unfolding execute_fg
execute_fg-Keeps turn c s =
    if_ind (Keeps s) c.invalid_arg _ _ (λ _. refl)
      (λ _.
        if_ind (Keeps s) c.optional_arg _ _
          (λ _. or_breaks-Safe (SameOut s) (get_elem? c.args 1) _ (λ w.
            or_breaks-Safe (SameOut s) (stoi (without b'&' w)) _ (λ job_id.
              if_ind (Keeps s) c.job_id_in _ _ (λ _. fg_of-Keeps turn c job_id s) (λ _. refl))))
          (λ _.
            if_ind (Keeps s) c.listempty _ _ (λ _. refl)
              (λ _. fg_of-Keeps turn c (get_max_job_id s.jobs.non_built_in_cmd) s)))

bg_last-Keeps : (turn : Turn) (s : Shell) → Keeps s (bg_last turn s)
unfolding bg_last
bg_last-Keeps turn s =
    option_ind (Keeps s) (get_last_stopped_job s.jobs.stoppedd) _ _ (λ _. refl)
      (λ (r : JobEntry × ℕ) _. then_run-Keeps s _ _ (print_job-Keeps r.1 s) (λ t.
        let sent = send_sig turn r.1 sigcont t in
        or_breaks-Safe (SameOut t) (get_job_by_id r.1 sent.jobs.non_built_in_cmd) _
          (λ _. send_sig-SameOut turn r.1 sigcont t)))

bg_of-Keeps : (turn : Turn) (job_id : ℕ) (s : Shell) → Keeps s (bg_of turn job_id s)
unfolding bg_of
bg_of-Keeps turn job_id s =
    option_ind (Keeps s) (get_job_by_id job_id s.jobs.non_built_in_cmd) _ _ (λ _. refl)
      (λ e _.
        if_ind (Keeps s) (is_background e.j_status) _ _ (λ _. refl)
          (λ _.
            let t = send_sig turn job_id sigcont s in
            then_run-Keeps s _ _
              (Keeps-trans (print_job job_id t) s t (send_sig-SameOut turn job_id sigcont s)
                (print_job-Keeps job_id t))
              (λ u. refl)))

pub execute_bg-Keeps : (turn : Turn) (c : Command) (s : Shell) → Keeps s (execute_bg turn c s)
unfolding execute_bg
execute_bg-Keeps turn c s =
    if_ind (Keeps s) c.invalid_arg _ _ (λ _. refl)
      (λ _.
        if_ind (Keeps s) c.optional_arg _ _
          (λ _. or_breaks-Safe (SameOut s) (get_elem? c.args 1) _ (λ w.
            or_breaks-Safe (SameOut s) (stoi (without b'&' w)) _ (λ job_id.
              if_ind (Keeps s) c.job_id_in _ _ (λ _. bg_of-Keeps turn job_id s) (λ _. refl))))
          (λ _. bg_last-Keeps turn s))

cat_file-Keeps :
    (o : Option (Option Bytes)) (rest : Shell → Run Shell) (s : Shell)
    → ((t : Shell) → Keeps t (rest t))
    → Keeps s (cat_file o rest s)
unfolding cat_file
cat_file-Keeps none rest s h = refl
cat_file-Keeps (some none) rest s h = tt
cat_file-Keeps (some (some content)) rest s h = h (print (file_bytes content) s)

cat_files-Keeps : (os : Os) (fs : List Bytes) (s : Shell) → Keeps s (cat_files os fs s)
unfolding cat_files
cat_files-Keeps os [] s = refl
cat_files-Keeps os (f ∷ fs) s =
    cat_file-Keeps (os.read_file f) (cat_files os fs) s (cat_files-Keeps os fs)

pub execute_cat-Keeps : (os : Os) (c : Command) (s : Shell) → Keeps s (execute_cat os c s)
unfolding execute_cat
execute_cat-Keeps os c s =
    let t = if c.optional_arg then s else print_error cat_not_enough_args s in
    Keeps-trans (cat_files os (drop 1 c.args) t) s t
      (if_ind (SameOut s) c.optional_arg _ _ (λ _. refl) (λ _. refl))
      (cat_files-Keeps os (drop 1 c.args) t)

run_foreground-Keeps : (turn : Turn) (pid : ℕ) (s : Shell) → Keeps s (run_foreground turn pid s)
unfolding run_foreground
run_foreground-Keeps turn pid s =
    then_run-Keeps s _ _
      (wait_with-Keeps turn turn.keys (record s { for_pid = some pid; for_cmd = s.curr_cmd }))
      (λ t. refl)

run_background-Keeps : (c : Command) (pid : ℕ) (s : Shell) → Keeps s (run_background c pid s)
unfolding run_background
run_background-Keeps c pid s =
    if_ind (Keeps s) c.list _ _
      (λ _.
        let id = get_max_job_id s.jobs.non_built_in_cmd in
        or_breaks-Safe (SameOut s) (get_job_by_id id s.jobs.non_built_in_cmd) _ (λ _. refl))
      (λ _. tt)

pub execute_external-Keeps :
    (turn : Turn) (c : Command) (s : Shell) → Keeps s (execute_external turn c s)
unfolding execute_external started_as
execute_external-Keeps turn c s =
    option_ind (Keeps s) turn.fork_pid _ _ (λ _. refl)
      (λ pid _.
        if_ind (Keeps s) c.background_cmd _ _ (λ _. run_background-Keeps c pid (started_as c pid s))
          (λ _. run_foreground-Keeps turn pid (started_as c pid s)))
