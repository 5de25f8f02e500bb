-- ===== src/Shell/NewJobs.antt =====
-- The jobs that commands become: one in the background, and one that is stopped.
use ftf_interview.Base.{
  ℕ, suc, ◌≡◌, ◌≤◌, ◌<◌, refl, ap, sym, subst, ◌∙◌, Bool, true, false, some, List, [], ◌∷◌, ◌++◌,
  arith, All, All-map, total, set, get_elem?, Ptr,
}
use ftf_interview.Jobs.{
  JobStatus, JobEntry, JobsList, get_max_job_id, get_job_by_id, change_first, add_job, add_external,
  new_entry, get_empty_place_in_list,
}
use ftf_interview.Jobs.Ids.{has_id, once_of, new_id_above, new_entry-IsWell, new_entry-live}
use ftf_interview.Jobs.Histories.{Holds, place_found}
use ftf_interview.Jobs.News.{FirstEmpty, ids_below, status_of, new_entry-fields, set-place}
use ftf_interview.Jobs.Places.{
  get_job_by_id-get, change_first-set, get_max_job_id-set, set-set, get_elem?-set,
}
use ftf_interview.Shell.{name_command, Shell, Command, Run, Turn, on_jobs}
use ftf_interview.Shell.Numbers.{without}
use ftf_interview.Shell.Execute.{run_background, started_as, execute_external}
use ftf_interview.Shell.Loop.{register}
use ftf_interview.Shell.Signals.{}

-- The entry of a new job, which goes to the first empty place.
abbrev pub job_of : (cmd : Ptr) → (now : ℕ) → (halted : Bool) → List JobEntry → JobEntry
job_of cmd now halted es = new_entry (get_empty_place_in_list es) cmd now halted es

abbrev pub put : JobEntry → List JobEntry → List JobEntry
put e es = set es (get_empty_place_in_list es) e

-- How the entry of a new job is found.
pub record IsFound (new : JobEntry) (es : List JobEntry) : Type 0 where
  pub stands : get_elem? (put new es) (get_empty_place_in_list es) ≡ some new
  pub once : total (has_id new.j_id) (put new es) ≤ 1
  pub max_id : get_max_job_id (put new es) ≡ new.j_id
  pub above : get_max_job_id es < new.j_id

pub job_of-IsFound :
    (cmd : Ptr) (now : ℕ) (halted : Bool) (s : JobsList)
    → Holds s
    → IsFound (job_of cmd now halted s.non_built_in_cmd) s.non_built_in_cmd
job_of-IsFound cmd now halted s h =
    let es = s.non_built_in_cmd in
    let i = get_empty_place_in_list es in
    let new = job_of cmd now halted es in
    let (e, g) = place_found es h.some_place in
    let above = new_id_above i cmd now halted es e g in
    let well = new_entry-IsWell i cmd now halted es e g h.well in
    record {
      stands = get_elem?-set es i e new g;
      once = once_of (put new es) new.j_id (omega (arith, above)) well;
      max_id =
          get_max_job_id-set es i e new g (new_entry-live i cmd now halted es)
            (omega (arith, above));
      above = above;
    }

-- The list with a new job, field by field, and an identifier above all others.
pub new_job_lem :
    (cmd : Ptr) (now : ℕ) (halted : Bool) (pid : ℕ) (s : JobsList) (front back : List JobEntry)
    (e : JobEntry)
    → Holds s
    → FirstEmpty s.non_built_in_cmd front e back
    → let es = s.non_built_in_cmd in
      let id = (job_of cmd now halted es).j_id in
      (All (λ d. d.j_id < id) es)
      × (put (record (job_of cmd now halted es) { p_id = pid }) es
          ≡ front
            ++ record { j_status = status_of halted; j_id = id; p_id = pid; cmd = cmd; time = now }
              ∷ back)
new_job_lem cmd now halted pid s front back e h f =
    let es = s.non_built_in_cmd in
    let above = (job_of-IsFound cmd now halted s h).above in
    (
      All-map _ _ es (λ d lt. omega (arith, lt, above))
          (ids_below (get_max_job_id es) es h.well.entries (omega arith)),
      ap (λ x. put x es) (new_entry-fields (get_empty_place_in_list es) cmd now halted es pid)
          ∙ set-place es front back e _ f,
    )

-- A change of the new job, found by the maximum.
module _ (f : JobEntry → JobEntry) (new : JobEntry) (es : List JobEntry) (h : IsFound new es) where
  pub found_new : get_job_by_id (get_max_job_id (put new es)) (put new es) ≡ some new
  found_new = rw (h.max_id) (
      get_job_by_id-get new.j_id (put new es) (get_empty_place_in_list es) new h.stands refl h.once)

  pub changed_new : change_first f (get_max_job_id (put new es)) (put new es) ≡ put (f new) es
  changed_new = rw (h.max_id) (
      change_first-set f new.j_id (put new es) (get_empty_place_in_list es) new h.stands refl h.once
      ∙ set-set es (get_empty_place_in_list es) new (f new))

-- The process of the last job
abbrev pub with_pid : (pid : ℕ) → JobEntry → JobEntry
with_pid pid e = record e { p_id = pid }

run_background_lem :
    (c : Command) (pid : ℕ) (u : Shell) (new : JobEntry) (es : List JobEntry)
    → u.jobs.non_built_in_cmd ≡ put new es
    → IsFound new es
    → (t : Shell) × (run_background (record c { list = true }) pid u ≡ Run.returns t)
      × (t.jobs.non_built_in_cmd ≡ put (with_pid pid new) es)
      × (t.started ≡ u.started)
unfolding run_background
run_background_lem c pid u new es l h =
    let id = get_max_job_id u.jobs.non_built_in_cmd in
    let found : get_job_by_id id u.jobs.non_built_in_cmd ≡ some new =
      subst (λ x. get_job_by_id (get_max_job_id x) x ≡ some new) (sym l)
        (found_new (with_pid pid) new es h) in
    (
      on_jobs
          (λ jobs. record jobs {
            non_built_in_cmd = change_first (with_pid pid) id jobs.non_built_in_cmd;
          })
          u,
      rw (run_background, found) refl,
      subst (λ x. change_first (with_pid pid) (get_max_job_id x) x ≡ put (with_pid pid new) es)
          (sym l) (changed_new (with_pid pid) new es h),
      refl,
    )

-- The shell with a new command in the background
abbrev registered : Turn → Command → Shell → Shell
registered turn c s = on_jobs (add_job false s.next_cmd turn.now false) (record s {
  curr_cmd = s.next_cmd;
  next_cmd = suc s.next_cmd;
  jobs = name_command s.next_cmd c.entered_cmd s.jobs;
})

register-registered :
    (turn : Turn) (c : Command) (s : Shell)
    → c.built_in_cmd ≡ false
    → c.background_cmd ≡ true
    → register turn c s ≡ registered turn c s
unfolding register
register-registered turn c s b bg = rw (register, b, bg) refl

external_background :
    (turn : Turn) (c : Command) (pid : ℕ) (s : Shell)
    → turn.fork_pid ≡ some pid
    → c.background_cmd ≡ true
    → execute_external turn c s ≡ run_background c pid (started_as c pid s)
unfolding execute_external
external_background turn c pid s f b = rw (execute_external, f, b) refl

-- For a job list in which no identifier other than 0 stands twice and the empty entries are those
-- with 0, and which has an empty entry behind entries that are in use: an external command in the
-- background becomes a job at that entry, all others staying as they are, with the status
-- background, the process of fork, the command's address, the time, and an identifier above all in
-- the list. The process is given the line without the signs.
pub background_job :
    (turn : Turn) (c : Command) (pid : ℕ) (s : Shell) (front back : List JobEntry) (e : JobEntry)
    → Holds s.jobs
    → FirstEmpty s.jobs.non_built_in_cmd front e back
    → turn.fork_pid ≡ some pid
    → c.built_in_cmd ≡ false
    → c.background_cmd ≡ true
    → (t : Shell) × (id : ℕ) × (execute_external turn (record c { list = true }) (register turn c s)
        ≡ Run.returns t)
      × All (λ d. d.j_id < id) s.jobs.non_built_in_cmd
      × (t.jobs.non_built_in_cmd
          ≡ front
            ++ record {
              j_status = JobStatus.background;
              j_id = id;
              p_id = pid;
              cmd = s.next_cmd;
              time = turn.now;
            }
              ∷ back)
      × (t.started ≡ s.started ++ (pid, without b'&' c.entered_cmd) ∷ [])
unfolding execute_external add_job add_external started_as
background_job turn c pid s front back e h empty f b bg =
    let es = s.jobs.non_built_in_cmd in
    let new = job_of s.next_cmd turn.now false es in
    let is_found = job_of-IsFound s.next_cmd turn.now false s.jobs h in
    let u = started_as (record c { list = true }) pid (registered turn c s) in
    let (t, r, l, st) = run_background_lem c pid u new es refl is_found in
    let (ids, fields) = new_job_lem s.next_cmd turn.now false pid s.jobs front back e h empty in
    (
      t,
      new.j_id,
      ap (execute_external turn (record c { list = true })) (register-registered turn c s b bg)
          ∙ external_background turn (record c { list = true }) pid (registered turn c s) f bg
          ∙ r,
      ids,
      l ∙ fields,
      st,
    )
