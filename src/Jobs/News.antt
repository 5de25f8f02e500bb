-- ===== src/Jobs/News.antt =====
-- Linux Shell/Commands.h: the entry that `addJob` makes, and its place.
use ftf_interview.Base.{
  ℕ, ◌+◌, ◌≡◌, ◌≤◌, ◌<◌, refl, ap, sym, ◌∙◌, inl, inr, Bool, true, false, some, List, [], ◌∷◌, ◌++◌,
  arith, All, Ptr, length, set, Bool-cases,
}
use ftf_interview.Jobs.{
  JobEntry, JobStatus, is_empty, get_max_job_id, empty_place, get_empty_place_in_list, mark,
  new_entry,
}
use ftf_interview.Jobs.Ids.{IsJob}

-- The list has an empty entry behind entries that are in use.
pub record FirstEmpty (es front : List JobEntry) (e : JobEntry) (back : List JobEntry)
    : Type 0 where
  pub list : es ≡ front ++ e ∷ back
  pub in_use : All (λ d. is_empty d.j_status ≡ false) front
  pub empty : is_empty e.j_status ≡ true

place-front :
    (front back : List JobEntry) (e : JobEntry)
    → All (λ d. is_empty d.j_status ≡ false) front
    → is_empty e.j_status ≡ true
    → empty_place (front ++ e ∷ back) ≡ some (length front)
unfolding empty_place
place-front [] back e h y = rw (y, empty_place) refl
place-front (d ∷ front) back e h y =
    rw (h.0, empty_place) (rw (place-front front back e h.1 y) refl)

pub set-front :
    (front back : List JobEntry) (e x : JobEntry)
    → set (front ++ e ∷ back) (length front) x ≡ front ++ x ∷ back
set-front [] back e x = refl
set-front (d ∷ front) back e x = ap (λ l. d ∷ l) (set-front front back e x)

-- Every identifier is at most the maximum.
pub ids_below :
    (k : ℕ) (es : List JobEntry)
    → All IsJob es
    → get_max_job_id es ≤ k
    → All (λ d. d.j_id < k + 1) es
unfolding get_max_job_id
ids_below k [] j h = tt
ids_below k (e ∷ es) j h = elim (Bool-cases (is_empty e.j_status)) [
  | inl y ↦
      let zero_id : e.j_id ≡ 0 = ground (arith, sym j.0 ∙ y) in
      (omega (arith, zero_id), ids_below k es j.1 (ground (arith, y, h)))
  | inr n ↦ (grind (arith, n, h), ids_below k es j.1 (grind (arith, n, h)))
]

abbrev pub status_of : (halted : Bool) → JobStatus
status_of true = JobStatus.stopped
status_of false = JobStatus.background

-- All fields of a new entry are written.
pub new_entry-fields :
    (i : ℕ) (cmd : Ptr) (now : ℕ) (halted : Bool) (es : List JobEntry) (pid : ℕ)
    → record (new_entry i cmd now halted es) { p_id = pid } ≡ record {
      j_status = status_of halted;
      j_id = (new_entry i cmd now halted es).j_id;
      p_id = pid;
      cmd = cmd;
      time = now;
    }
unfolding new_entry mark
new_entry-fields i cmd now true es pid = refl
new_entry-fields i cmd now false es pid = refl

-- The place of a new entry.
pub set-place :
    (es front back : List JobEntry) (e x : JobEntry)
    → FirstEmpty es front e back
    → set es (get_empty_place_in_list es) x ≡ front ++ x ∷ back
unfolding get_empty_place_in_list
set-place es front back e x f =
    ap (λ l. set l (get_empty_place_in_list l) x) f.list
    ∙ rw (get_empty_place_in_list, place-front front back e f.in_use f.empty)
        (set-front front back e x)
