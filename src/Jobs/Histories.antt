-- ===== src/Jobs/Histories.antt =====
-- Histories of calls of the job list.
use ftf_interview.Base.{
  ℕ, zero, suc, ◌+◌, ◌≡◌, ◌<◌, refl, sym, subst, inl, inr, Bool, true, false, ◌&&◌, ◌||◌, not,
  Option, none, some, List, [], ◌∷◌, ◌==◌, arith, if◌then◌else◌, map, get_elem?, Bool-cases,
  Option-cases, Ptr, Bytes, if_ind, length, length-set,
}
use ftf_interview.Jobs.{
  JobStatus, JobEntry, JobsList, is_empty, is_finished, is_stopped, is_live, new_list, entry_at,
  empty_place, get_empty_place_in_list, new_entry, change_first, get_job_by_id, add_built_in,
  add_external, add_job, set_pids, set_job_pid, signal_job, send_sig_to_job, sigkill, sigcont,
  clear_job, remove_job_by_id, reap, sweep, remove_finished_jobs, kill_job, kill_all_jobs,
  set_new_id,
}
use ftf_interview.Jobs.Ids.{
  IsWell, Tame, Thins, Thins-IsWell, Thins-length, map-Thins, change_first-Thins,
  change_first-Thins-kept, new_entry-IsWell, replicate-IsWell,
}

-- The states of the job list that calls lead to; signals go to an identifier other than 0.
pub data Reach : JobsList → Type 0 where
  start : Reach new_list
  added :
      (built_in : Bool) (cmd : Ptr) (now : ℕ) (halted : Bool) (s : JobsList)
      → Reach s
      → Reach (add_job built_in cmd now halted s)
  renamed :
      (id pid : ℕ) (text : Bytes) (s t : JobsList)
      → set_job_pid id pid text s ≡ some t
      → Reach s
      → Reach t
  signalled : (id signum : ℕ) (s : JobsList) → Reach s → Reach (send_sig_to_job (suc id) signum s)
  removed : (id : ℕ) (s : JobsList) → Reach s → Reach (remove_job_by_id id s)
  swept : (ended : ℕ → Bool) (s : JobsList) → Reach s → Reach (remove_finished_jobs ended s)
  killed : (s : JobsList) → Reach s → Reach (kill_all_jobs s)
  renewed : (id now : ℕ) (s t : JobsList) → set_new_id id now s ≡ some t → Reach s → Reach t

-- The vector of the jobs.
pub record Holds (s : JobsList) : Type 0 where
  pub well : IsWell s.non_built_in_cmd
  pub some_place : 0 < length s.non_built_in_cmd

thinned : (s t : JobsList) → Thins s.non_built_in_cmd t.non_built_in_cmd → Holds s → Holds t
thinned s t h k = record {
  well = Thins-IsWell _ _ h k.well;
  some_place = omega (arith, Thins-length _ _ h, k.some_place);
}

-- The place that is found is that of an empty entry.
pub empty_place_lem :
    (es : List JobEntry) (i : ℕ)
    → empty_place es ≡ some i
    → (e : JobEntry) × (get_elem? es i ≡ some e) × (is_empty e.j_status ≡ true)
unfolding empty_place
empty_place_lem [] i f = ground arith
empty_place_lem (d ∷ es) i f = elim (Bool-cases (is_empty d.j_status)) [
  | inl y ↦
      let first : 0 ≡ i = ground (arith, y, f) in
      (d, subst (λ k. get_elem? (d ∷ es) k ≡ some d) first refl, y)
  | inr n ↦ elim (Option-cases (empty_place es)) [
    | inl none_found ↦ ground (arith, n, none_found, f)
    | inr (k, found) ↦
        let (e, g, y) = empty_place_lem es k found in
        let next : suc k ≡ i = ground (arith, n, found, f) in
        (e, subst (λ m. get_elem? (d ∷ es) m ≡ some e) next g, y)
  ]
]

pub place_found :
    (es : List JobEntry)
    → 0 < length es
    → (e : JobEntry) × (get_elem? es (get_empty_place_in_list es) ≡ some e)
unfolding get_empty_place_in_list
place_found [] h = absurd (omega arith)
place_found (d ∷ es) h = elim (Option-cases (empty_place (d ∷ es))) [
  | inl n ↦ (d, rw (n, get_empty_place_in_list) refl)
  | inr (i, f) ↦
      let (e, g, y) = empty_place_lem (d ∷ es) i f in (e, rw (f, get_empty_place_in_list) g)
]

add_job-Holds :
    (built_in : Bool) (cmd : Ptr) (now : ℕ) (halted : Bool) (s : JobsList)
    → Holds s
    → Holds (add_job built_in cmd now halted s)
unfolding add_job add_external add_built_in
add_job-Holds true cmd now halted s h = record { well = h.well; some_place = h.some_place }
add_job-Holds false cmd now halted s h =
    let es = s.non_built_in_cmd in
    let (e, g) = place_found es h.some_place in
    record {
      well = new_entry-IsWell (get_empty_place_in_list es) cmd now halted es e g h.well;
      some_place = omega (
        arith,
        length-set es (get_empty_place_in_list es)
            (new_entry (get_empty_place_in_list es) cmd now halted es),
        h.some_place,
      );
    }

pub cleared : (id : ℕ) (e : JobEntry) → Tame e (clear_job id e)
cleared id e = if_ind (Tame e) (e.j_id == id) _ _ (λ _. inr (refl, refl)) (λ _. inl (refl, refl))

remove_job_by_id-Holds : (id : ℕ) (s : JobsList) → Holds s → Holds (remove_job_by_id id s)
unfolding remove_job_by_id
remove_job_by_id-Holds id s h =
    thinned s (remove_job_by_id id s) (map-Thins (clear_job id) (cleared id) s.non_built_in_cmd) h

sweep-Holds : (left i : ℕ) (s : JobsList) → Holds s → Holds (sweep left i s)
unfolding sweep
sweep-Holds zero i s h = h
sweep-Holds (suc left) i s h =
    let e = entry_at s.non_built_in_cmd i in
    sweep-Holds left (i + 1) (if is_finished e.j_status then remove_job_by_id e.j_id s else s)
      (if_ind Holds (is_finished e.j_status) _ _ (λ _. remove_job_by_id-Holds e.j_id s h) (λ _. h))

not_empty : (j : JobStatus) (b : Bool) → (not (is_empty j) && b) ≡ true → is_empty j ≡ false
not_empty JobStatus.finished b h = refl
not_empty JobStatus.stopped b h = refl
not_empty JobStatus.background b h = refl
not_empty JobStatus.empty b h = ground arith

pub reaped : (ended : ℕ → Bool) (e : JobEntry) → Tame e (reap ended e)
reaped ended e =
    if_ind (Tame e) (not (is_empty e.j_status) && (not (is_stopped e.j_status) && ended e.p_id)) _ _
      (λ y. inl (refl, sym (not_empty e.j_status (not (is_stopped e.j_status) && ended e.p_id) y)))
      (λ _. inl (refl, refl))

killed_job : (e : JobEntry) → Tame e (kill_job e)
killed_job e = if_ind (Tame e) (is_live e) _ _ (λ _. inr (refl, refl)) (λ _. inl (refl, refl))

-- A vector in which a job found by its identifier changes.
changed :
    (f : JobEntry → JobEntry) (id : ℕ) (s t : JobsList)
    → ((e : JobEntry) → (f e).j_id ≡ e.j_id)
    → ((e : JobEntry) → is_empty e.j_status ≡ false → is_empty (f e).j_status ≡ false)
    → 0 < id
    → t.non_built_in_cmd ≡ change_first f id s.non_built_in_cmd
    → Holds s
    → Holds t
changed f id s t same live pos e h =
    thinned s t
      (subst (Thins s.non_built_in_cmd) (sym e)
        (change_first-Thins f id same live pos s.non_built_in_cmd h.well.entries))
      h

signal_job-Holds :
    (e : JobEntry) (signum : ℕ) (s : JobsList)
    → 0 < e.j_id
    → Holds s
    → Holds (signal_job e signum s)
unfolding signal_job
signal_job-Holds e signum s pos h =
    if_ind Holds (signum == 19 || signum == 20) _ _
      (λ _.
        changed (λ j. record j { j_status = JobStatus.stopped }) e.j_id s _ (λ d. refl)
          (λ d k. refl) pos refl h)
      (λ _.
        if_ind Holds (signum == sigcont) _ _
          (λ _.
            changed (λ j. record j { j_status = JobStatus.background }) e.j_id s _ (λ d. refl)
              (λ d k. refl) pos refl h)
          (λ _.
            if_ind Holds (signum == sigkill) _ _
              (λ _.
                changed (λ j. record j { j_status = JobStatus.finished }) e.j_id s _ (λ d. refl)
                  (λ d k. refl) pos refl h)
              (λ _. h)))

get_job_by_id_lem :
    (id : ℕ) (es : List JobEntry) (e : JobEntry) → get_job_by_id id es ≡ some e → e.j_id ≡ id
unfolding get_job_by_id
get_job_by_id_lem id [] e g = ground arith
get_job_by_id_lem id (d ∷ es) e g = elim (Bool-cases (d.j_id == id)) [
  | inl y ↦
      let same : d ≡ e = ground (arith, y, g) in
      subst (λ (x : JobEntry). x.j_id ≡ id) same (ground (arith, y))
  | inr n ↦ get_job_by_id_lem id es e (ground (arith, n, g))
]

send_sig_to_job-Holds :
    (id signum : ℕ) (s : JobsList) → Holds s → Holds (send_sig_to_job (suc id) signum s)
unfolding send_sig_to_job
send_sig_to_job-Holds id signum s h =
    elim (Option-cases (get_job_by_id (suc id) s.non_built_in_cmd)) [
      | inl n ↦ rw (n, send_sig_to_job) h
      | inr (e, g) ↦
          let k =
            signal_job-Holds e signum s
              (omega (arith, get_job_by_id_lem (suc id) s.non_built_in_cmd e g)) h in
          rw (g, send_sig_to_job) (record { well = k.well; some_place = k.some_place })
    ]

abbrev HoldsIf : Option JobsList → Type 0
HoldsIf none = Unit
HoldsIf (some s) = Holds s

set_pids-Holds :
    (a b : Option JobEntry) (id pid : ℕ) (text : Bytes) (s : JobsList)
    → Holds s
    → HoldsIf (set_pids a b id pid text s)
unfolding set_pids
set_pids-Holds none b id pid text s h = tt
set_pids-Holds (some e) none id pid text s h = tt
set_pids-Holds (some e) (some e') id pid text s h =
    thinned s _
      (change_first-Thins-kept (λ j. record j { p_id = pid }) id (λ d. (refl, refl))
        s.non_built_in_cmd)
      h

set_new_id-Holds : (id now : ℕ) (s : JobsList) → Holds s → HoldsIf (set_new_id id now s)
unfolding set_new_id
set_new_id-Holds id now s h = elim (Option-cases (get_job_by_id id s.non_built_in_cmd)) [
  | inl n ↦ rw (n, set_new_id) tt
  | inr (e, g) ↦
      rw (g, set_new_id)
        (thinned s _
          (change_first-Thins-kept (λ j. record j { time = now }) id (λ d. (refl, refl))
            s.non_built_in_cmd)
          h)
]

-- In every state of the job list that calls lead to, where signals go to an identifier other than
-- 0, no identifier other than 0 stands twice in the vector of the jobs, its empty entries are
-- those with the identifier 0, and it has an entry.
pub Reach-Holds : (s : JobsList) → Reach s → Holds s
unfolding new_list set_job_pid remove_finished_jobs kill_all_jobs
Reach-Holds _ start = record { well = replicate-IsWell 150; some_place = omega arith }
Reach-Holds _ (added b cmd now halted s r) = add_job-Holds b cmd now halted s (Reach-Holds s r)
Reach-Holds _ (renamed id pid text s t e r) =
    subst HoldsIf e (set_pids-Holds _ _ id pid text s (Reach-Holds s r))
Reach-Holds _ (signalled id signum s r) = send_sig_to_job-Holds id signum s (Reach-Holds s r)
Reach-Holds _ (removed id s r) = remove_job_by_id-Holds id s (Reach-Holds s r)
Reach-Holds _ (swept ended s r) = sweep-Holds (length s.non_built_in_cmd) 0 _ (
    thinned s (record s { non_built_in_cmd = map (reap ended) s.non_built_in_cmd })
      (map-Thins (reap ended) (reaped ended) s.non_built_in_cmd) (Reach-Holds s r))
Reach-Holds _ (killed s r) =
    thinned s (kill_all_jobs s) (map-Thins kill_job killed_job s.non_built_in_cmd) (Reach-Holds s r)
Reach-Holds _ (renewed id now s t e r) =
    subst HoldsIf e (set_new_id-Holds id now s (Reach-Holds s r))
