-- ===== src/Jobs/Finds.antt =====
-- What the searches of the job list find.
use ftf_interview.Base.{
  ℕ, zero, suc, ◌≡◌, ◌≤◌, ◌<◌, refl, ap, sym, ◌∙◌, ◌⊎◌, inl, inr, true, false, none, some, List, [],
  ◌∷◌, ◌==◌, arith, All, get_elem?, Bool-cases, All-get, some-injective,
}
use ftf_interview.Jobs.{
  JobEntry, is_empty, get_job_by_id, is_job_id_in, max_stopped, get_last_stopped_job,
}
use ftf_interview.Jobs.Ids.{IsJob}

-- An entry that is in use has an identifier of at most `m`.
abbrev pub AtMost : ℕ → JobEntry → Type 0
AtMost m e = (is_empty e.j_status ≡ true) ⊎ (e.j_id ≤ m)

max_stopped-AtMost : (es : List JobEntry) (m : ℕ) → max_stopped es ≤ m → All (AtMost m) es
unfolding max_stopped
max_stopped-AtMost [] m h = tt
max_stopped-AtMost (e ∷ es) m h = elim (Bool-cases (is_empty e.j_status)) [
  | inl y ↦ (inl y, max_stopped-AtMost es m (ground (arith, y, h)))
  | inr n ↦ (inr (grind (arith, n, h)), max_stopped-AtMost es m (grind (arith, n, h)))
]

-- The maximum is found again.
max_stopped-get :
    (es : List JobEntry)
    → 0 < max_stopped es
    → (i : ℕ) × (e : JobEntry) × (get_elem? es i ≡ some e)
      × (get_job_by_id (max_stopped es) es ≡ some e)
      × (e.j_id ≡ max_stopped es)
unfolding max_stopped get_job_by_id
max_stopped-get [] h = absurd (omega arith)
max_stopped-get (e ∷ es) h = elim (Bool-cases (e.j_id == max_stopped (e ∷ es))) [
  | inl y ↦ (0, e, refl, rw (y, get_job_by_id) refl, ground arith)
  | inr n ↦
      let tail : max_stopped (e ∷ es) ≡ max_stopped es = grind (arith, n) in
      let (i, d, g, j, k) = max_stopped-get es (omega (arith, tail, h)) in
      (suc i, d, g, rw (n, get_job_by_id) (ap (λ m. get_job_by_id m es) tail ∙ j), k ∙ sym tail)
]

-- In a vector whose empty entries are those with the identifier 0, is_job_id_in says of 0 that it
-- is there where an entry is empty.
is_job_id_in_zero :
    (es : List JobEntry) (i : ℕ) (e : JobEntry)
    → All IsJob es
    → get_elem? es i ≡ some e
    → is_empty e.j_status ≡ true
    → is_job_id_in 0 es ≡ true
unfolding is_job_id_in
is_job_id_in_zero [] i e j g y = ground arith
is_job_id_in_zero (d ∷ es) zero e j g y =
    let same : d ≡ e = some-injective d e g in
    let is_zero : (d.j_id == 0) ≡ true =
      sym j.0 ∙ ap (λ (x : JobEntry). is_empty x.j_status) same ∙ y in
    rw is_zero refl
is_job_id_in_zero (d ∷ es) (suc i) e j g y = ground (arith, is_job_id_in_zero es i e j.1 g y)

-- In a vector whose empty entries are those with the identifier 0, getLastStoppedJob returns NULL
-- where no entry is in use, and else an entry in use with its identifier, and no entry in use has
-- a larger one.
pub get_last_stopped_job_lem :
    (es : List JobEntry)
    → All IsJob es
    → ((get_last_stopped_job es ≡ none) × All (AtMost 0) es)
      ⊎ ((i : ℕ) × (e : JobEntry) × (get_elem? es i ≡ some e)
          × (is_empty e.j_status ≡ false)
          × (get_last_stopped_job es ≡ some (e, e.j_id))
          × All (AtMost e.j_id) es)
unfolding get_last_stopped_job
get_last_stopped_job_lem es j = elim (Bool-cases (max_stopped es == 0)) [
  | inl y ↦ inl (rw (y, get_last_stopped_job) refl, max_stopped-AtMost es 0 (ground arith))
  | inr n ↦
      let (i, e, g, found, id) = max_stopped-get es (ground arith) in
      let in_use : is_empty e.j_status ≡ false = All-get IsJob es i e j g ∙ ground (arith, id, n) in
      inr (
        i,
        e,
        g,
        in_use,
        rw (n, get_last_stopped_job) (rw found (ap (λ m. some (e, m)) (sym id))),
        max_stopped-AtMost es e.j_id (omega (arith, id)),
      )
]
