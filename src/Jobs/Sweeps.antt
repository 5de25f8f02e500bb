-- ===== src/Jobs/Sweeps.antt =====
-- `removeFinishedJobs`, which clears by identifiers, and the entries that it is meant to emptied.
use ftf_interview.Base.{
  ℕ, zero, suc, ◌+◌, ◌≡◌, ◌≤◌, ◌<◌, refl, ap, sym, subst, ◌∙◌, inl, inr, Bool, true, false, not,
  ◌&&◌, ◌||◌, List, [], ◌∷◌, ◌++◌, ◌==◌, arith, map, total, total-append, Bool-cases, length,
  length-append, length-map, append_assoc, if◌then◌else◌, if_ind, All, map-append,
}
use ftf_interview.Jobs.{
  JobStatus, JobEntry, JobsList, is_empty, is_finished, is_stopped, entry_at, clear_job,
  remove_job_by_id, reap, sweep, remove_finished_jobs,
}
use ftf_interview.Jobs.Ids.{IsJob, IsWell, has_id, once_of, Thins-IsWell, map-Thins}
use ftf_interview.Jobs.Places.{emptied, clear_job-none}
use ftf_interview.Jobs.Histories.{cleared, reaped}

-- The job has ended: it was found so, or `waitpid` does not return 0 for it.
abbrev pub is_over : (ended : ℕ → Bool) → JobEntry → Bool
is_over ended e =
    is_finished e.j_status
    || (not (is_empty e.j_status) && (not (is_stopped e.j_status) && ended e.p_id))

abbrev pub clear_if : (JobEntry → Bool) → JobEntry → JobEntry
clear_if f e = if f e then emptied e else e

abbrev clear_finished : JobEntry → JobEntry
clear_finished e = clear_if (λ d. is_finished d.j_status) e

-- Of an identifier that stands once, only its entry is cleared.
clear_job-once :
    (pre es : List JobEntry) (e : JobEntry)
    → total (has_id e.j_id) (pre ++ e ∷ es) ≤ 1
    → map (clear_job e.j_id) (pre ++ e ∷ es) ≡ pre ++ emptied e ∷ es
unfolding total
clear_job-once pre es e h =
    let self : has_id e.j_id e ≡ 1 = ground arith in
    let parts = total-append (has_id e.j_id) pre (e ∷ es) in
    let before : total (has_id e.j_id) pre ≡ 0 = omega (arith, parts, self, h) in
    let behind : total (has_id e.j_id) es ≡ 0 = omega (arith, parts, self, h) in
    let first : clear_job e.j_id e ≡ emptied e = ground arith in
    map-append (clear_job e.j_id) pre (e ∷ es)
    ∙ rw (clear_job-none e.j_id pre before, clear_job-none e.j_id es behind, first) refl

entry_at-append :
    (pre es : List JobEntry) (e : JobEntry) (i : ℕ)
    → i ≡ length pre
    → entry_at (pre ++ e ∷ es) i ≡ e
entry_at-append [] es e zero h = refl
entry_at-append [] es e (suc i) h = absurd (omega (arith, h))
entry_at-append (d ∷ pre) es e zero h = absurd (omega (arith, h))
entry_at-append (d ∷ pre) es e (suc i) h = entry_at-append pre es e i (omega (arith, h))

All-middle : {A : Type 0} (P : A → Type 0) (xs ys : List A) (a : A) → All P (xs ++ a ∷ ys) → P a
All-middle P [] ys a h = h.0
All-middle P (x ∷ xs) ys a h = All-middle P xs ys a h.1

finished_used : (j : JobStatus) → is_finished j ≡ true → is_empty j ≡ false
finished_used JobStatus.finished f = refl
finished_used JobStatus.stopped f = refl
finished_used JobStatus.background f = refl
finished_used JobStatus.empty f = ground arith

finished_id : (e : JobEntry) → IsJob e → is_finished e.j_status ≡ true → 0 < e.j_id
finished_id e j f =
    let used : (e.j_id == 0) ≡ false = sym j ∙ finished_used e.j_status f in ground arith

-- One round of the second loop
round :
    (pre es : List JobEntry) (e : JobEntry) (s : JobsList)
    → s.non_built_in_cmd ≡ pre ++ e ∷ es
    → IsWell s.non_built_in_cmd
    → (if is_finished e.j_status then remove_job_by_id e.j_id s else s).non_built_in_cmd
      ≡ pre ++ clear_finished e ∷ es
unfolding remove_job_by_id
round pre es e s l w = elim (Bool-cases (is_finished e.j_status)) [
  | inl y ↦
      let well = subst IsWell l w in
      let job = All-middle IsJob pre es e well.entries in
      rw (y, l)
        (clear_job-once pre es e (once_of (pre ++ e ∷ es) e.j_id (finished_id e job y) well))
  | inr n ↦ rw n l
]

round-IsWell :
    (e : JobEntry) (s : JobsList)
    → IsWell s.non_built_in_cmd
    → IsWell (if is_finished e.j_status then remove_job_by_id e.j_id s else s).non_built_in_cmd
unfolding remove_job_by_id
round-IsWell e s w =
    if_ind (λ (t : JobsList). IsWell t.non_built_in_cmd) (is_finished e.j_status) _ _
      (λ _. Thins-IsWell _ _ (map-Thins (clear_job e.j_id) (cleared e.j_id) s.non_built_in_cmd) w)
      (λ _. w)

sweep-map :
    (left i : ℕ) (pre es : List JobEntry) (s : JobsList)
    → s.non_built_in_cmd ≡ pre ++ es
    → length es ≡ left
    → i ≡ length pre
    → IsWell s.non_built_in_cmd
    → (sweep left i s).non_built_in_cmd ≡ pre ++ map clear_finished es
unfolding sweep
sweep-map zero i pre [] s l n h w = l
sweep-map zero i pre (e ∷ es) s l n h w = absurd (omega (arith, n))
sweep-map (suc left) i pre [] s l n h w = absurd (omega (arith, n))
sweep-map (suc left) i pre (e ∷ es) s l n h w =
    let at : entry_at s.non_built_in_cmd i ≡ e =
      ap (λ x. entry_at x i) l ∙ entry_at-append pre es e i h in
    let t = if is_finished e.j_status then remove_job_by_id e.j_id s else s in
    let goes : sweep (suc left) i s ≡ sweep left (i + 1) t =
      ap
        (λ (d : JobEntry).
          sweep left (i + 1) (if is_finished d.j_status then remove_job_by_id d.j_id s else s))
        at in
    ap (λ (x : JobsList). x.non_built_in_cmd) goes
    ∙ sweep-map left (i + 1) (pre ++ clear_finished e ∷ []) es t
        (round pre es e s l w ∙ sym (append_assoc pre (clear_finished e ∷ []) es))
        (omega (arith, n)) (omega (arith, h, length-append pre (clear_finished e ∷ [])))
        (round-IsWell e s w)
    ∙ append_assoc pre (clear_finished e ∷ []) (map clear_finished es)

clear_reaped :
    (ended : ℕ → Bool) (e : JobEntry) → clear_finished (reap ended e) ≡ clear_if (is_over ended) e
clear_reaped ended e =
    let test = not (is_empty e.j_status) && (not (is_stopped e.j_status) && ended e.p_id) in
    elim (Bool-cases test) [
      | inl y ↦
          rw y
            (elim (Bool-cases (is_finished e.j_status)) [ inl f ↦ rw f refl | inr f ↦ rw f refl ])
      | inr n ↦
          rw n
            (elim (Bool-cases (is_finished e.j_status)) [ inl f ↦ rw f refl | inr f ↦ rw f refl ])
    ]

clear-reap :
    (ended : ℕ → Bool) (es : List JobEntry)
    → map clear_finished (map (reap ended) es) ≡ map (clear_if (is_over ended)) es
clear-reap ended [] = refl
clear-reap ended (e ∷ es) =
    let first : clear_finished (reap ended e) ≡ clear_if (is_over ended) e = clear_reaped ended e in
    rw first (ap (λ l. clear_if (is_over ended) e ∷ l) (clear-reap ended es))

-- In a vector in which no identifier other than 0 stands twice and the empty entries are those
-- with 0, removeFinishedJobs, which removes by identifiers, empties each entry that is finished or
-- in use, not stopped and ended, and changes no other.
pub remove_finished_jobs-map :
    (ended : ℕ → Bool) (s : JobsList)
    → IsWell s.non_built_in_cmd
    → (remove_finished_jobs ended s).non_built_in_cmd
      ≡ map (clear_if (is_over ended)) s.non_built_in_cmd
unfolding remove_finished_jobs
remove_finished_jobs-map ended s w =
    let es = s.non_built_in_cmd in
    let t : JobsList = record s { non_built_in_cmd = map (reap ended) es } in
    sweep-map (length es) 0 [] (map (reap ended) es) t refl (length-map (reap ended) es) refl
      (Thins-IsWell _ _ (map-Thins (reap ended) (reaped ended) es) w)
    ∙ clear-reap ended es
