-- ===== src/Shell/Keeps.antt =====
-- The commands that start no other command neither spend fuel nor change where `cout` goes.
use ftf_interview.Base.{
  ℕ, zero, suc, ◌≡◌, refl, ◌∙◌, Option, none, some, List, [], ◌∷◌, if_ind, if◌then◌else◌,
  option_ind, ◌==◌,
}
use ftf_interview.Jobs.{JobEntry, is_live, get_job_by_id, kill_all_jobs, remove_finished_jobs}
use ftf_interview.Shell.{Sink, Message, Shell, Run, Turn, Key, then_run, or_breaks, on_jobs, print}
use ftf_interview.Shell.Prints.{
  print_entry, print_job, list_entry, list_jobs, print_jobs_list, kill_answer, send_sig,
  print_killed, kill_answers, kill_all, count_live,
}
use Message.{sending_sigkill, kill_line}
use ftf_interview.Shell.Signals.{
  record_signal, sigstop, stop_job, stop_process, ctrl_z_handler, kill_process, ctrl_c_handler,
  handle_key, wait_with,
}

-- No fuel is missing, and what returns has the property.
abbrev pub Safe : {A : Type 0} → (A → Type 0) → Run A → Type 0
Safe P (Run.returns a) = P a
Safe P Run.out_of_fuel = ⊥
Safe P _ = Unit

pub then_run-Safe :
    {A B : Type 0} (P : A → Type 0) (Q : B → Type 0) (r : Run A) (f : A → Run B)
    → Safe P r
    → ((a : A) → P a → Safe Q (f a))
    → Safe Q (then_run r f)
then_run-Safe P Q (Run.returns a) f h k = k a h
then_run-Safe P Q Run.breaks f h k = tt
then_run-Safe P Q Run.hangs f h k = tt
then_run-Safe P Q Run.out_of_fuel f h k = h

pub Safe-mono :
    {A : Type 0} (P Q : A → Type 0) (r : Run A) → ((a : A) → P a → Q a) → Safe P r → Safe Q r
Safe-mono P Q (Run.returns a) f h = f a h
Safe-mono P Q Run.breaks f h = tt
Safe-mono P Q Run.hangs f h = tt
Safe-mono P Q Run.out_of_fuel f h = h

pub or_breaks-Safe :
    {A B : Type 0} (P : B → Type 0) (o : Option A) (f : A → Run B)
    → ((a : A) → Safe P (f a))
    → Safe P (or_breaks o f)
or_breaks-Safe P none f h = tt
or_breaks-Safe P (some a) f h = h a

pub or_breaks-Safe_found :
    {A B : Type 0} (P : B → Type 0) (o : Option A) (f : A → Run B)
    → ((a : A) → o ≡ some a → Safe P (f a))
    → Safe P (or_breaks o f)
or_breaks-Safe_found P none f h = tt
or_breaks-Safe_found P (some a) f h = h a refl

-- What the descriptor 1 and the saved ones lead to
abbrev pub sinks : Shell → Sink × List Sink
sinks s = (s.out, s.saved)

-- They are those of `s`.
abbrev pub SameOut : Shell → Shell → Type 0
SameOut s t = sinks t ≡ sinks s

abbrev pub Keeps : Shell → Run Shell → Type 0
Keeps s r = Safe (SameOut s) r

pub Keeps-trans : (r : Run Shell) (s t : Shell) → SameOut s t → Keeps t r → Keeps s r
Keeps-trans (Run.returns u) s t e h = h ∙ e
Keeps-trans Run.breaks s t e h = tt
Keeps-trans Run.hangs s t e h = tt
Keeps-trans Run.out_of_fuel s t e h = h

pub then_run-Keeps :
    (s : Shell) (r : Run Shell) (f : Shell → Run Shell)
    → Keeps s r
    → ((t : Shell) → Keeps t (f t))
    → Keeps s (then_run r f)
then_run-Keeps s r f h k =
    then_run-Safe (SameOut s) (SameOut s) r f h (λ t e. Keeps-trans (f t) s t e (k t))

-- Printing
print_entry-Keeps : (e : JobEntry) (s : Shell) → Keeps s (print_entry e s)
unfolding print_entry
print_entry-Keeps e s = if_ind (Keeps s) (e.cmd == 0) _ _ (λ _. tt) (λ _. refl)

pub print_job-Keeps : (job_id : ℕ) (s : Shell) → Keeps s (print_job job_id s)
unfolding print_job
print_job-Keeps job_id s =
    option_ind (Keeps s) (get_job_by_id job_id s.jobs.non_built_in_cmd) _ _ (λ _. refl)
      (λ e _. print_entry-Keeps e s)

list_entry-Keeps : (now : ℕ) (e : JobEntry) (s : Shell) → Keeps s (list_entry now e s)
unfolding list_entry
list_entry-Keeps now e s =
    if_ind (Keeps s) (is_live e) _ _ (λ _. if_ind (Keeps s) (e.cmd == 0) _ _ (λ _. tt) (λ _. refl))
      (λ _. refl)

list_jobs-Keeps : (left i now : ℕ) (s : Shell) → Keeps s (list_jobs left i now s)
unfolding list_jobs
list_jobs-Keeps zero i now s = refl
list_jobs-Keeps (suc left) i now s =
    then_run-Keeps s _ _
      (option_ind (Keeps s) (get_job_by_id i s.jobs.non_built_in_cmd) _ _ (λ _. refl)
        (λ e _. list_entry-Keeps now e s))
      (list_jobs-Keeps left (suc i) now)

pub print_jobs_list-Keeps : (turn : Turn) (s : Shell) → Keeps s (print_jobs_list turn s)
unfolding print_jobs_list
print_jobs_list-Keeps turn s =
    list_jobs-Keeps 299 1 turn.now (on_jobs (remove_finished_jobs turn.ended) s)

kill_answer-SameOut : (turn : Turn) (pid : ℕ) (s : Shell) → SameOut s (kill_answer turn pid s)
kill_answer-SameOut turn pid s = if_ind (SameOut s) (turn.reaches pid) _ _ (λ _. refl) (λ _. refl)

pub send_sig-SameOut :
    (turn : Turn) (job_id signum : ℕ) (s : Shell) → SameOut s (send_sig turn job_id signum s)
unfolding send_sig
send_sig-SameOut turn job_id signum s =
    option_ind (SameOut s) (get_job_by_id job_id s.jobs.non_built_in_cmd) _ _ (λ _. refl)
      (λ e _. kill_answer-SameOut turn e.p_id _)

kill_answers-SameOut :
    (turn : Turn) (es : List JobEntry) (s : Shell) → SameOut s (kill_answers turn es s)
unfolding kill_answers
kill_answers-SameOut turn [] s = refl
kill_answers-SameOut turn (e ∷ es) s =
    kill_answers-SameOut turn es (if is_live e then kill_answer turn e.p_id s else s)
    ∙ if_ind (SameOut s) (is_live e) _ _ (λ _. kill_answer-SameOut turn e.p_id s) (λ _. refl)

print_killed-Keeps : (es : List JobEntry) (s : Shell) → Keeps s (print_killed es s)
unfolding print_killed
print_killed-Keeps [] s = refl
print_killed-Keeps (e ∷ es) s =
    let t = print (kill_line e.p_id (s.jobs.entered_cmd e.cmd)) s in
    if_ind (Keeps s) (is_live e) _ _
      (λ _.
        if_ind (Keeps s) (e.cmd == 0) _ _ (λ _. tt)
          (λ _. Keeps-trans (print_killed es t) s t refl (print_killed-Keeps es t)))
      (λ _. print_killed-Keeps es s)

pub kill_all-Keeps : (turn : Turn) (s : Shell) → Keeps s (kill_all turn s)
unfolding kill_all
kill_all-Keeps turn s =
    let es = s.jobs.non_built_in_cmd in
    then_run-Keeps s _ _ (print_killed-Keeps es (print (sending_sigkill (count_live es)) s))
      (λ t. kill_answers-SameOut turn es (on_jobs kill_all_jobs t))

-- The handlers
stop_process-Keeps : (turn : Turn) (pid : ℕ) (s : Shell) → Keeps s (stop_process turn pid s)
unfolding stop_process
stop_process-Keeps turn pid s =
    let sent = kill_answer turn pid (on_jobs (record_signal pid sigstop) s) in
    or_breaks-Safe (SameOut s) (stop_job sent.for_cmd pid turn.now sent.jobs) _
      (λ jobs. kill_answer-SameOut turn pid (on_jobs (record_signal pid sigstop) s))

handle_key-Keeps : (turn : Turn) (k : Key) (s : Shell) → Keeps s (handle_key turn k s)
unfolding handle_key ctrl_z_handler ctrl_c_handler kill_process
handle_key-Keeps turn Key.ctrl_z s =
    option_ind (Keeps s) s.for_pid _ _ (λ _. refl) (λ pid _. stop_process-Keeps turn pid _)
handle_key-Keeps turn Key.ctrl_c s =
    option_ind (Keeps s) s.for_pid _ _ (λ _. refl) (λ pid _. kill_answer-SameOut turn pid _)

pub wait_with-Keeps : (turn : Turn) (ks : List Key) (s : Shell) → Keeps s (wait_with turn ks s)
unfolding wait_with
wait_with-Keeps turn [] s = refl
wait_with-Keeps turn (k ∷ ks) s =
    then_run-Keeps s _ _ (handle_key-Keeps turn k s) (wait_with-Keeps turn ks)
