-- ===== src/Jobs/Places.antt =====
-- A job found by its identifier, and its place.
use ftf_interview.Base.{
  ℕ, zero, suc, ◌≡◌, ◌≤◌, refl, ap, ◌∙◌, inl, inr, true, false, some, List, [], ◌∷◌, ◌++◌, ◌==◌,
  arith, total, set, get_elem?, Bool-cases, some-injective, none, map, ◌<◌, total-set,
}
use ftf_interview.Jobs.{
  JobEntry, is_empty, get_max_job_id, get_job_by_id, change_first, JobStatus, clear_job,
}
use ftf_interview.Jobs.Ids.{has_id}

some_id :
    (id : ℕ) (es : List JobEntry) (i : ℕ) (e : JobEntry)
    → get_elem? es i ≡ some e
    → e.j_id ≡ id
    → 1 ≤ total (has_id id) es
unfolding total
some_id id [] i e g h = ground arith
some_id id (d ∷ es) zero e g h =
    let same : d.j_id ≡ id = ap (λ (x : JobEntry). x.j_id) (some-injective d e g) ∙ h in
    grind (arith, same)
some_id id (d ∷ es) (suc i) e g h = omega (arith, some_id id es i e g h)

pub here : (id : ℕ) (d e : JobEntry) → some d ≡ some e → e.j_id ≡ id → (d.j_id == id) ≡ true
here id d e g h =
    let same : d.j_id ≡ id = ap (λ (x : JobEntry). x.j_id) (some-injective d e g) ∙ h in
    ground (arith, same)

-- The first entry has another identifier.
pub elsewhere :
    (id : ℕ) (d : JobEntry) (es : List JobEntry) (i : ℕ) (e : JobEntry)
    → get_elem? es i ≡ some e
    → e.j_id ≡ id
    → total (has_id id) (d ∷ es) ≤ 1
    → (d.j_id == id) ≡ false
unfolding total
elsewhere id d es i e g h u =
    let rest : 1 ≤ total (has_id id) es = some_id id es i e g h in grind (arith, rest, u)

-- An identifier that stands once is found there.
pub get_job_by_id-get :
    (id : ℕ) (es : List JobEntry) (i : ℕ) (e : JobEntry)
    → get_elem? es i ≡ some e
    → e.j_id ≡ id
    → total (has_id id) es ≤ 1
    → get_job_by_id id es ≡ some e
unfolding get_job_by_id total
get_job_by_id-get id [] i e g h u = ground arith
get_job_by_id-get id (d ∷ es) zero e g h u = rw (get_job_by_id, here id d e g h) g
get_job_by_id-get id (d ∷ es) (suc i) e g h u =
    rw (get_job_by_id, elsewhere id d es i e g h u)
      (get_job_by_id-get id es i e g h (omega (arith, u)))

pub change_first-set :
    (f : JobEntry → JobEntry) (id : ℕ) (es : List JobEntry) (i : ℕ) (e : JobEntry)
    → get_elem? es i ≡ some e
    → e.j_id ≡ id
    → total (has_id id) es ≤ 1
    → change_first f id es ≡ set es i (f e)
unfolding change_first total
change_first-set f id [] i e g h u = ground arith
change_first-set f id (d ∷ es) zero e g h u =
    rw (change_first, here id d e g h) (ap (λ (x : JobEntry). f x ∷ es) (some-injective d e g))
change_first-set f id (d ∷ es) (suc i) e g h u =
    rw (change_first, elsewhere id d es i e g h u)
      (ap (λ l. d ∷ l) (change_first-set f id es i e g h (omega (arith, u))))

pub get_max_job_id-set :
    (es : List JobEntry) (i : ℕ) (e new : JobEntry)
    → get_elem? es i ≡ some e
    → is_empty new.j_status ≡ false
    → get_max_job_id es ≤ new.j_id
    → get_max_job_id (set es i new) ≡ new.j_id
unfolding get_max_job_id
get_max_job_id-set [] i e new g n h = ground arith
get_max_job_id-set (d ∷ es) zero e new g n h = grind (arith, n)
get_max_job_id-set (d ∷ es) (suc i) e new g n h = grind (arith, get_max_job_id-set es i e new g n)

pub get_job_by_id-append :
    (id : ℕ) (es : List JobEntry) (e : JobEntry)
    → e.j_id ≡ id
    → (d : JobEntry) × (get_job_by_id id (es ++ e ∷ []) ≡ some d)
unfolding get_job_by_id
get_job_by_id-append id [] e h = (e, rw (get_job_by_id, here id e e refl h) refl)
get_job_by_id-append id (d ∷ es) e h = elim (Bool-cases (d.j_id == id)) [
  | inl y ↦ (d, rw (get_job_by_id, y) refl)
  | inr n ↦ let (f, found) = get_job_by_id-append id es e h in (f, rw (get_job_by_id, n) found)
]

pub set-set : (es : List JobEntry) (i : ℕ) (a b : JobEntry) → set (set es i a) i b ≡ set es i b
set-set [] i a b = refl
set-set (e ∷ es) zero a b = refl
set-set (e ∷ es) (suc i) a b = ap (λ l. e ∷ l) (set-set es i a b)

pub get_elem?-set :
    (es : List JobEntry) (i : ℕ) (a b : JobEntry)
    → get_elem? es i ≡ some a
    → get_elem? (set es i b) i ≡ some b
get_elem?-set [] i a b g = ground arith
get_elem?-set (e ∷ es) zero a b g = refl
get_elem?-set (e ∷ es) (suc i) a b g = get_elem?-set es i a b g

pub get_job_by_id-none :
    (id : ℕ) (es : List JobEntry) → total (has_id id) es ≡ 0 → get_job_by_id id es ≡ none
unfolding get_job_by_id total
get_job_by_id-none id [] h = refl
get_job_by_id-none id (e ∷ es) h =
    let other : (e.j_id == id) ≡ false = grind (arith, h) in
    rw (get_job_by_id, other) (get_job_by_id-none id es (omega (arith, h)))

pub clear_job-none :
    (id : ℕ) (es : List JobEntry) → total (has_id id) es ≡ 0 → map (clear_job id) es ≡ es
unfolding total
clear_job-none id [] h = refl
clear_job-none id (e ∷ es) h =
    let other : (e.j_id == id) ≡ false = grind (arith, h) in
    rw other (ap (λ l. e ∷ l) (clear_job-none id es (omega (arith, h))))

abbrev pub emptied : JobEntry → JobEntry
emptied e = record e { j_status = JobStatus.empty; j_id = 0 }

-- Of an identifier that stands once, only its entry is cleared.
pub clear_job-set :
    (id : ℕ) (es : List JobEntry) (i : ℕ) (e : JobEntry)
    → get_elem? es i ≡ some e
    → e.j_id ≡ id
    → total (has_id id) es ≤ 1
    → map (clear_job id) es ≡ set es i (emptied e)
unfolding total
clear_job-set id [] i e g h u = ground arith
clear_job-set id (d ∷ es) zero e g h u =
    let first : (d.j_id == id) ≡ true = here id d e g h in
    let others : total (has_id id) es ≡ 0 = grind (arith, first, u) in
    rw (first, clear_job-none id es others)
      (ap (λ (x : JobEntry). emptied x ∷ es) (some-injective d e g))
clear_job-set id (d ∷ es) (suc i) e g h u =
    rw (elsewhere id d es i e g h u)
      (ap (λ l. d ∷ l) (clear_job-set id es i e g h (omega (arith, u))))

-- Behind that, the identifier is gone.
pub cleared-none :
    (id : ℕ) (es : List JobEntry) (i : ℕ) (e : JobEntry)
    → get_elem? es i ≡ some e
    → e.j_id ≡ id
    → 0 < id
    → total (has_id id) es ≤ 1
    → get_job_by_id id (set es i (emptied e)) ≡ none
cleared-none id es i e g h l u =
    let old : has_id id e ≡ 1 = ground arith in
    let new : has_id id (emptied e) ≡ 0 = ground arith in
    get_job_by_id-none id (set es i (emptied e))
      (omega (arith, total-set (has_id id) es i e (emptied e) g, old, new, u))

-- A job whose identifier stays stands as often.
pub total-kept :
    (id : ℕ) (es : List JobEntry) (i : ℕ) (e new : JobEntry)
    → get_elem? es i ≡ some e
    → new.j_id ≡ e.j_id
    → total (has_id id) (set es i new) ≡ total (has_id id) es
total-kept id es i e new g h =
    let same : has_id id new ≡ has_id id e = rw h refl in
    omega (arith, total-set (has_id id) es i e new g, same)
