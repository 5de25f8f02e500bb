-- ===== src/Jobs.antt =====
-- Linux Shell/Commands.h: the job list of the shell. The commands that jobs share are named by
-- addresses; `time` and `waitpid` enter as what they return, and calls of `kill` are recorded.
mod Entries
unfoldable pub use Entries.*
pub mod Ids
pub mod News
pub mod Histories
pub mod Finds
pub mod Places
pub mod Sweeps
use ftf_interview.Base.{
  ℕ, zero, suc, ◌+◌, Bool, true, false, ◌&&◌, ◌||◌, not, Option, none, some, List, [], ◌∷◌, ◌++◌,
  map, ◌==◌, ltb, if◌then◌else◌, Ptr, Bytes, set, get_elem?, replicate, max, length,
}

-- A null pointer followed is none.
unfoldable pub set_pids :
    Option JobEntry → Option JobEntry → ℕ → (pid : ℕ) → Bytes → JobsList → Option JobsList
unfolding change_first
set_pids (some e) (some e') id pid text s = some (record s {
  non_built_in_cmd = change_first (λ j. record j { p_id = pid }) id s.non_built_in_cmd;
  stoppedd = change_first (λ j. record j { p_id = pid }) id s.stoppedd;
  entered_cmd = λ p. if p == e.cmd || p == e'.cmd then text else s.entered_cmd p;
})
set_pids _ _ id pid text s = none

unfoldable pub set_job_pid : ℕ → (pid : ℕ) → Bytes → JobsList → Option JobsList
unfolding set_pids get_job_by_id
set_job_pid id pid text s =
    set_pids (get_job_by_id id s.non_built_in_cmd) (get_job_by_id id s.stoppedd) id pid text s

abbrev pub sigkill : ℕ
sigkill = 9

abbrev pub sigcont : ℕ
sigcont = 18

-- The entries of `stoppedd` that a signal to the job `id` takes away.
unfoldable pub drop_stopped : ℕ → List JobEntry → List JobEntry
drop_stopped id es =
    map
      (λ e.
        if not (is_empty e.j_status) && (id == e.j_id)
        then record e { j_status = empty; j_id = 0 }
        else e)
      es

-- `send_SIG_TO_JOB` behind its test, by the signal; `e` is the job.
unfoldable pub signal_job : JobEntry → (signum : ℕ) → JobsList → JobsList
unfolding change_first drop_stopped
signal_job e signum s =
    if signum == 19 || signum == 20
    then record s {
      non_built_in_cmd =
          change_first (λ j. record j { j_status = stopped }) e.j_id s.non_built_in_cmd;
      stoppedd = s.stoppedd ++ record e { j_status = stopped } ∷ [];
    }
    else if signum == sigcont
    then record s {
      non_built_in_cmd =
          change_first (λ j. record j { j_status = background }) e.j_id s.non_built_in_cmd;
      stoppedd = drop_stopped e.j_id s.stoppedd;
    }
    else if signum == sigkill
    then record s {
      non_built_in_cmd =
          change_first (λ j. record j { j_status = finished }) e.j_id s.non_built_in_cmd;
      stoppedd = drop_stopped e.j_id s.stoppedd;
    }
    else s

-- `kill` is called at the end.
unfoldable pub send_sig_to_job : (id signum : ℕ) → JobsList → JobsList
unfolding get_job_by_id signal_job
send_sig_to_job id signum s = elim (get_job_by_id id s.non_built_in_cmd) [
  | none ↦ s
  | some e ↦ record (signal_job e signum s) { signals = s.signals ++ (e.p_id, signum) ∷ [] }
]

-- The first loop of `removeJobById`, which leaves the process number, and the second one.
abbrev pub clear_job : ℕ → JobEntry → JobEntry
clear_job id e = if e.j_id == id then record e { j_status = empty; j_id = 0 } else e

abbrev pub clear_stopped : ℕ → JobEntry → JobEntry
clear_stopped id e = if e.j_id == id then record e { j_status = empty; j_id = 0; p_id = 0 } else e

unfoldable pub remove_job_by_id : ℕ → JobsList → JobsList
remove_job_by_id id s = record s {
  non_built_in_cmd = map (clear_job id) s.non_built_in_cmd;
  stoppedd = map (clear_stopped id) s.stoppedd;
}

-- The first loop of `removeFinishedJobs`: `ended p` tells whether `waitpid` does not return 0.
abbrev pub reap : (ended : ℕ → Bool) → JobEntry → JobEntry
reap ended e =
    if not (is_empty e.j_status) && (not (is_stopped e.j_status) && ended e.p_id)
    then record e { j_status = finished }
    else e

-- The second loop, with `left` entries from `i` on.
unfoldable pub sweep : (left i : ℕ) → JobsList → JobsList
unfolding remove_job_by_id
sweep zero i s = s
sweep (suc left) i s =
    let e = entry_at s.non_built_in_cmd i in
    sweep left (i + 1) (if is_finished e.j_status then remove_job_by_id e.j_id s else s)

unfoldable pub remove_finished_jobs : (ended : ℕ → Bool) → JobsList → JobsList
unfolding sweep
remove_finished_jobs ended s =
    sweep (length s.non_built_in_cmd) 0
      (record s { non_built_in_cmd = map (reap ended) s.non_built_in_cmd })

-- `killAllJobs`: the processes that get SIGKILL, and the list behind it.
abbrev pub killed : List JobEntry → List (ℕ × ℕ)
killed [] = []
killed (e ∷ es) = let rest = killed es in if is_live e then (e.p_id, sigkill) ∷ rest else rest

abbrev pub kill_job : JobEntry → JobEntry
kill_job e = if is_live e then record e { j_status = empty; j_id = 0; p_id = 0 } else e

unfoldable pub kill_all_jobs : JobsList → JobsList
kill_all_jobs s = record s {
  non_built_in_cmd = map kill_job s.non_built_in_cmd;
  signals = s.signals ++ killed s.non_built_in_cmd;
}

-- `SetNewId`, which sets the time; none is a null pointer followed.
unfoldable pub set_new_id : (id now : ℕ) → JobsList → Option JobsList
unfolding get_job_by_id change_first
set_new_id id now s = elim (get_job_by_id id s.non_built_in_cmd) [
  | none ↦ none
  | some e ↦ some (record s {
    non_built_in_cmd = change_first (λ j. record j { time = now }) id s.non_built_in_cmd;
    stoppedd = map (λ j. if j.j_id == id then record j { time = now } else j) s.stoppedd;
  })
]

unfoldable pub max_stopped : List JobEntry → ℕ
max_stopped [] = 0
max_stopped (e ∷ es) =
    let rest = max_stopped es in if is_empty e.j_status then rest else max e.j_id rest

-- `getLastStoppedJob`: the entry and its identifier, or NULL.
unfoldable pub get_last_stopped_job : List JobEntry → Option (JobEntry × ℕ)
unfolding max_stopped get_job_by_id
get_last_stopped_job es =
    let m = max_stopped es in
    if m == 0 then none else elim (get_job_by_id m es) [ none ↦ none | some e ↦ some (e, m) ]
