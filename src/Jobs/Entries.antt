-- ===== src/Jobs/Entries.antt =====
-- Linux Shell/Commands.h: the entries of the job list, how a job is added, and the searches.
use ftf_interview.Base.{
  ℕ, suc, ◌+◌, Bool, true, false, ◌&&◌, ◌||◌, not, Option, none, some, List, [], ◌∷◌, ◌++◌, ◌==◌,
  if◌then◌else◌, Ptr, Bytes, set, get_elem?, replicate, max,
}

pub data JobStatus : Type 0 where
  finished stopped background empty : JobStatus

abbrev pub is_finished : JobStatus → Bool
is_finished finished = true
is_finished _ = false

abbrev pub is_stopped : JobStatus → Bool
is_stopped stopped = true
is_stopped _ = false

abbrev pub is_empty : JobStatus → Bool
is_empty empty = true
is_empty _ = false

pub record JobEntry : Type 0 where
  pub j_status : JobStatus
  pub j_id : ℕ
  pub p_id : ℕ
  pub cmd : Ptr
  pub time : ℕ

-- The vectors, the text `entered_cmd` of each command, and the signals sent with their processes.
pub record JobsList : Type 0 where
  pub arr : List JobEntry
  pub non_built_in_cmd : List JobEntry
  pub stoppedd : List JobEntry
  pub entered_cmd : Ptr → Bytes
  pub signals : List (ℕ × ℕ)

abbrev pub jobs_max_amount : ℕ
jobs_max_amount = 150

-- `JobEntry()`
abbrev pub no_job : JobEntry
no_job = record { j_status = empty; j_id = 0; p_id = 0; cmd = 0; time = 0 }

unfoldable pub new_list : JobsList
new_list = record {
  arr = replicate jobs_max_amount no_job;
  non_built_in_cmd = replicate jobs_max_amount no_job;
  stoppedd = replicate jobs_max_amount no_job;
  entered_cmd = λ p. [];
  signals = [];
}

abbrev pub is_live : JobEntry → Bool
is_live e = not (is_finished e.j_status) && not (is_empty e.j_status)

unfoldable pub get_max_job_id : List JobEntry → ℕ
get_max_job_id [] = 0
get_max_job_id (e ∷ es) =
    let rest = get_max_job_id es in if is_empty e.j_status then rest else max e.j_id rest

-- The entry that a new job gets: the first empty one, and the first of all where there is none.
unfoldable pub empty_place : List JobEntry → Option ℕ
empty_place [] = none
empty_place (e ∷ es) =
    let rest = empty_place es in
    if is_empty e.j_status then some 0 else elim rest [ none ↦ none | some i ↦ some (suc i) ]

unfoldable pub get_empty_place_in_list : List JobEntry → ℕ
unfolding empty_place
get_empty_place_in_list es = elim (empty_place es) [ none ↦ 0 | some i ↦ i ]

-- The entry at `i`; the vectors are never empty.
abbrev pub entry_at : List JobEntry → ℕ → JobEntry
entry_at es i = elim (get_elem? es i) [ none ↦ no_job | some e ↦ e ]

-- The entry of `addJob` before it gets its identifier.
unfoldable pub mark : (cmd : Ptr) → (now : ℕ) → (halted : Bool) → JobEntry → JobEntry
mark cmd now halted e = record e {
  j_status = if halted then stopped else background;
  cmd = cmd;
  time = now;
}

abbrev pub push_if : Bool → JobEntry → List JobEntry → List JobEntry
push_if halted e es = if halted then es ++ e ∷ [] else es

-- `addJob` of a built-in command.
unfoldable pub add_built_in : (cmd : Ptr) → (now : ℕ) → (halted : Bool) → JobsList → JobsList
unfolding mark get_max_job_id get_empty_place_in_list
add_built_in cmd now halted s =
    let i = get_empty_place_in_list s.arr in
    let id = get_max_job_id s.non_built_in_cmd + 1 in
    let e : JobEntry = record (mark cmd now halted (entry_at s.arr i)) { j_id = id } in
    record s { arr = set s.arr i e; stoppedd = push_if halted e s.stoppedd }

-- The entry that any other command gets at `i`: the maximum is taken with the new status there.
unfoldable pub new_entry :
    (i : ℕ) → (cmd : Ptr) → (now : ℕ) → (halted : Bool) → List JobEntry → JobEntry
unfolding mark get_max_job_id
new_entry i cmd now halted es =
    let e = mark cmd now halted (entry_at es i) in
    record e { j_id = get_max_job_id (set es i e) + 1 }

unfoldable pub add_external : (cmd : Ptr) → (now : ℕ) → (halted : Bool) → JobsList → JobsList
unfolding new_entry get_empty_place_in_list
add_external cmd now halted s =
    let i = get_empty_place_in_list s.non_built_in_cmd in
    let e = new_entry i cmd now halted s.non_built_in_cmd in
    record s {
      non_built_in_cmd = set s.non_built_in_cmd i e;
      stoppedd = push_if halted e s.stoppedd;
    }

unfoldable pub add_job :
    (built_in : Bool) → (cmd : Ptr) → (now : ℕ) → (halted : Bool) → JobsList → JobsList
unfolding add_built_in add_external
add_job true cmd now halted s = add_built_in cmd now halted s
add_job false cmd now halted s = add_external cmd now halted s

-- `getJobById` and `getJobById_SS`
unfoldable pub get_job_by_id : ℕ → List JobEntry → Option JobEntry
get_job_by_id id [] = none
get_job_by_id id (e ∷ es) = let rest = get_job_by_id id es in if e.j_id == id then some e else rest

-- A change through the pointer that `getJobById` returned.
unfoldable pub change_first : (JobEntry → JobEntry) → ℕ → List JobEntry → List JobEntry
change_first f id [] = []
change_first f id (e ∷ es) =
    let rest = change_first f id es in if e.j_id == id then f e ∷ es else e ∷ rest

unfoldable pub is_job_id_in : ℕ → List JobEntry → Bool
is_job_id_in id [] = false
is_job_id_in id (e ∷ es) = e.j_id == id || is_job_id_in id es

unfoldable pub is_job_pid_in : ℕ → List JobEntry → Bool
is_job_pid_in pid [] = false
is_job_pid_in pid (e ∷ es) = e.p_id == pid || is_job_pid_in pid es

unfoldable pub is_list_empty : List JobEntry → Bool
is_list_empty [] = true
is_list_empty (e ∷ es) = not (is_live e) && is_list_empty es
