-- ===== src/Tests/JobsTests.antt =====
-- The job list with a job or two.
use ftf_interview.Base.{
  ℕ, ◌≡◌, refl, ◌⊎◌, true, false, none, some, List, [], ◌∷◌, get_elem?, All, zero, suc, total, ◌≤◌,
  arith, map, ◌==◌,
}
use ftf_interview.Jobs.{
  JobStatus, JobEntry, is_empty, no_job, new_list, add_job, is_job_pid_in, is_list_empty,
  get_last_stopped_job, get_empty_place_in_list, get_max_job_id, empty_place, remove_finished_jobs,
  JobsList,
}
use ftf_interview.Jobs.Ids.{IsWell, has_id}
use ftf_interview.Jobs.Sweeps.{clear_if, is_over, remove_finished_jobs-map}
use ftf_interview.Jobs.Histories.{start, added, Holds, Reach-Holds}
use ftf_interview.Jobs.Finds.{AtMost, get_last_stopped_job_lem}

abbrev job : JobStatus → ℕ → ℕ → JobEntry
job status id pid = record { j_status = status; j_id = id; p_id = pid; cmd = 0; time = 0 }

-- The first job has ended and has been removed; its process number stays.
abbrev jobs : List JobEntry
jobs = job JobStatus.empty 0 71 ∷ job JobStatus.stopped 2 72 ∷ no_job ∷ []

first_place : get_empty_place_in_list jobs ≡ 0
unfolding get_empty_place_in_list empty_place
first_place = refl

max_id : get_max_job_id jobs ≡ 2
unfolding get_max_job_id
max_id = refl

old_pid : is_job_pid_in 71 jobs ≡ true
unfolding is_job_pid_in
old_pid = refl

not_all_empty : is_list_empty jobs ≡ false
unfolding is_list_empty
not_all_empty = refl

Reach-Holds_example : Holds (add_job false 1 100 true new_list)
Reach-Holds_example =
    Reach-Holds (add_job false 1 100 true new_list) (added false 1 100 true new_list start)

get_last_stopped_job_lem_example :
    ((get_last_stopped_job jobs ≡ none) × All (AtMost 0) jobs)
    ⊎ ((i : ℕ) × (e : JobEntry) × (get_elem? jobs i ≡ some e)
        × (is_empty e.j_status ≡ false)
        × (get_last_stopped_job jobs ≡ some (e, e.j_id))
        × All (AtMost e.j_id) jobs)
get_last_stopped_job_lem_example = get_last_stopped_job_lem jobs (refl, (refl, (refl, tt)))

-- The first job is in the background and has ended, the second is stopped.
abbrev two_jobs : List JobEntry
two_jobs = job JobStatus.background 1 71 ∷ job JobStatus.stopped 2 72 ∷ no_job ∷ []

two_jobs-IsWell : IsWell two_jobs
unfolding total
two_jobs-IsWell = record { entries = (refl, (refl, (refl, tt))); unique = once }
  where
    once : (k : ℕ) → total (has_id (suc k)) two_jobs ≤ 1
    once zero = grind arith
    once (suc zero) = grind arith
    once (suc (suc k)) = grind arith

abbrev two_jobs_list : JobsList
two_jobs_list = record new_list { non_built_in_cmd = two_jobs }

remove_finished_jobs-map_example :
    (remove_finished_jobs (λ p. p == 71) two_jobs_list).non_built_in_cmd
    ≡ map (clear_if (is_over (λ p. p == 71))) two_jobs
remove_finished_jobs-map_example =
    remove_finished_jobs-map (λ p. p == 71) two_jobs_list two_jobs-IsWell
