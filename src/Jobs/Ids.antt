-- ===== src/Jobs/Ids.antt =====
-- The identifiers of the jobs in one vector.
use ftf_interview.Base.{
  ℕ, zero, suc, ◌≡◌, ◌≤◌, ◌<◌, refl, ap, sym, ◌∙◌, ◌⊎◌, inl, inr, Bool, true, false, none, some,
  List, [], ◌∷◌, ◌==◌, arith, if◌then◌else◌, All, length, map, total, total-set, set, get_elem?,
  Bool-cases, All-set, some-injective, Ptr, replicate, total-replicate,
}
use ftf_interview.Jobs.{
  JobEntry, is_empty, no_job, get_max_job_id, mark, new_entry, entry_at, change_first,
}

abbrev pub has_id : ℕ → JobEntry → ℕ
has_id k e = if e.j_id == k then 1 else 0

-- The entries that are empty are those with the identifier 0.
abbrev pub IsJob : JobEntry → Type 0
IsJob e = is_empty e.j_status ≡ (e.j_id == 0)

-- Also, no other identifier occurs twice.
pub record IsWell (es : List JobEntry) : Type 0 where
  pub entries : All IsJob es
  pub unique : (k : ℕ) → total (has_id (suc k)) es ≤ 1

pub once_of : (es : List JobEntry) (id : ℕ) → 0 < id → IsWell es → total (has_id id) es ≤ 1
once_of es zero l w = absurd (omega arith)
once_of es (suc k) l w = w.unique k

-- An entry keeps its identifier and whether it is empty, or it is emptied.
abbrev pub Tame : JobEntry → JobEntry → Type 0
Tame e e' =
    ((e'.j_id ≡ e.j_id) × (is_empty e'.j_status ≡ is_empty e.j_status))
    ⊎ ((e'.j_id ≡ 0) × (is_empty e'.j_status ≡ true))

-- The entries of two vectors, one by one.
pub data Thins : List JobEntry → List JobEntry → Type 0 where
  nil : Thins [] []
  cons :
      {e e' : JobEntry} {es es' : List JobEntry}
      → Tame e e'
      → Thins es es'
      → Thins (e ∷ es) (e' ∷ es')

Tame-IsJob : (e e' : JobEntry) → Tame e e' → IsJob e → IsJob e'
Tame-IsJob e e' (inl h) j = rw (h.0, h.1) j
Tame-IsJob e e' (inr h) j = rw (h.0, h.1) refl

Tame-has_id : (k : ℕ) (e e' : JobEntry) → Tame e e' → has_id (suc k) e' ≤ has_id (suc k) e
Tame-has_id k e e' (inl h) = rw h.0 (omega arith)
Tame-has_id k e e' (inr h) = grind (arith, h.0)

Thins-IsJob : (es es' : List JobEntry) → Thins es es' → All IsJob es → All IsJob es'
Thins-IsJob _ _ nil j = tt
Thins-IsJob _ _ (cons {e} {e'} {es} {es'} h t) j = (Tame-IsJob e e' h j.0, Thins-IsJob es es' t j.1)

Thins-total :
    (k : ℕ) (es es' : List JobEntry)
    → Thins es es'
    → total (has_id (suc k)) es' ≤ total (has_id (suc k)) es
unfolding total
Thins-total k _ _ nil = omega arith
Thins-total k _ _ (cons {e} {e'} {es} {es'} h t) =
    omega (arith, Tame-has_id k e e' h, Thins-total k es es' t)

pub Thins-IsWell : (es es' : List JobEntry) → Thins es es' → IsWell es → IsWell es'
Thins-IsWell es es' h w = record {
  entries = Thins-IsJob es es' h w.entries;
  unique = λ k. omega (arith, Thins-total k es es' h, w.unique k);
}

pub Thins-refl : (es : List JobEntry) → Thins es es
Thins-refl [] = nil
Thins-refl (e ∷ es) = cons (inl (refl, refl)) (Thins-refl es)

pub map-Thins :
    (f : JobEntry → JobEntry)
    → ((e : JobEntry) → Tame e (f e))
    → (es : List JobEntry) → Thins es (map f es)
map-Thins f h [] = nil
map-Thins f h (e ∷ es) = cons (h e) (map-Thins f h es)

-- A change of a job's other fields, by an identifier that is not 0.
pub change_first-Thins :
    (f : JobEntry → JobEntry) (id : ℕ)
    → ((e : JobEntry) → (f e).j_id ≡ e.j_id)
    → ((e : JobEntry) → is_empty e.j_status ≡ false → is_empty (f e).j_status ≡ false)
    → 0 < id
    → (es : List JobEntry) → All IsJob es
    → Thins es (change_first f id es)
unfolding change_first
change_first-Thins f id same live pos [] j = nil
change_first-Thins f id same live pos (e ∷ es) j = elim (Bool-cases (e.j_id == id)) [
  | inl y ↦
      let used : is_empty e.j_status ≡ false = j.0 ∙ (ground arith) in
      rw (y, change_first) (cons (inl (same e, live e used ∙ sym used)) (Thins-refl es))
  | inr n ↦
      rw (n, change_first) (cons (inl (refl, refl)) (change_first-Thins f id same live pos es j.1))
]

-- A change that keeps the identifier and the status.
pub change_first-Thins-kept :
    (f : JobEntry → JobEntry) (id : ℕ)
    → ((e : JobEntry) → ((f e).j_id ≡ e.j_id) × (is_empty (f e).j_status ≡ is_empty e.j_status))
    → (es : List JobEntry) → Thins es (change_first f id es)
unfolding change_first
change_first-Thins-kept f id same [] = nil
change_first-Thins-kept f id same (e ∷ es) = elim (Bool-cases (e.j_id == id)) [
  | inl y ↦ rw (y, change_first) (cons (inl (same e)) (Thins-refl es))
  | inr n ↦ rw (n, change_first) (cons (inl (refl, refl)) (change_first-Thins-kept f id same es))
]

-- No identifier is above the maximum.
above_max :
    (k : ℕ) (es : List JobEntry)
    → All IsJob es
    → get_max_job_id es ≤ k
    → total (has_id (suc k)) es ≡ 0
unfolding get_max_job_id total
above_max k [] j h = refl
above_max k (e ∷ es) j h = elim (Bool-cases (is_empty e.j_status)) [
  | inl y ↦
      let zero_id : e.j_id ≡ 0 = ground (arith, sym j.0 ∙ y) in
      let below : get_max_job_id es ≤ k = ground (arith, y, h) in
      grind (arith, zero_id, above_max k es j.1 below)
  | inr n ↦
      let here : e.j_id ≤ k = grind (arith, n, h) in
      let below : get_max_job_id es ≤ k = grind (arith, n, h) in
      grind (arith, here, above_max k es j.1 below)
]

max_mark :
    (cmd : Ptr) (now i : ℕ) (halted : Bool) (es : List JobEntry) (e : JobEntry)
    → get_elem? es i ≡ some e
    → get_max_job_id es ≤ get_max_job_id (set es i (mark cmd now halted e))
unfolding get_max_job_id mark
max_mark cmd now i halted [] e g = omega arith
max_mark cmd now zero true (d ∷ es) e g =
    grind (arith, ap (λ (x : JobEntry). x.j_id) (some-injective d e g))
max_mark cmd now zero false (d ∷ es) e g =
    grind (arith, ap (λ (x : JobEntry). x.j_id) (some-injective d e g))
max_mark cmd now (suc i) halted (d ∷ es) e g = grind (arith, max_mark cmd now i halted es e g)

entry_at-get :
    (es : List JobEntry) (i : ℕ) (e : JobEntry) → get_elem? es i ≡ some e → entry_at es i ≡ e
entry_at-get es i e g = ap (λ o. elim o [ none ↦ no_job | some d ↦ d ]) g

-- The identifier of a new job is above all others.
pub new_id_above :
    (i : ℕ) (cmd : Ptr) (now : ℕ) (halted : Bool) (es : List JobEntry) (e : JobEntry)
    → get_elem? es i ≡ some e
    → get_max_job_id es < (new_entry i cmd now halted es).j_id
unfolding new_entry
new_id_above i cmd now halted es e g = omega (
  arith,
  max_mark cmd now i halted es (entry_at es i) (g ∙ ap some (sym (entry_at-get es i e g))),
)

pub new_entry-live :
    (i : ℕ) (cmd : Ptr) (now : ℕ) (halted : Bool) (es : List JobEntry)
    → is_empty (new_entry i cmd now halted es).j_status ≡ false
unfolding new_entry mark
new_entry-live i cmd now true es = refl
new_entry-live i cmd now false es = refl

-- A new job in a well-formed vector, at any place of it.
pub new_entry-IsWell :
    (i : ℕ) (cmd : Ptr) (now : ℕ) (halted : Bool) (es : List JobEntry) (e : JobEntry)
    → get_elem? es i ≡ some e
    → IsWell es
    → IsWell (set es i (new_entry i cmd now halted es))
new_entry-IsWell i cmd now halted es e g w =
    let new = new_entry i cmd now halted es in
    let above = new_id_above i cmd now halted es e g in
    let live = new_entry-live i cmd now halted es in
    record {
      entries = All-set IsJob es i new w.entries (live ∙ ground arith);
      unique = λ k. elim (Bool-cases (new.j_id == suc k)) [
        | inl y ↦
            let id : new.j_id ≡ suc k = ground arith in
            grind (
              arith,
              total-set (has_id (suc k)) es i e new g,
              above_max k es w.entries (omega (arith, id, above)),
            )
        | inr n ↦ grind (arith, n, total-set (has_id (suc k)) es i e new g, w.unique k)
      ];
    }

pub Thins-length : (es es' : List JobEntry) → Thins es es' → length es' ≡ length es
Thins-length _ _ nil = refl
Thins-length _ _ (cons {e} {e'} {es} {es'} h t) = ap suc (Thins-length es es' t)

no_id : (k : ℕ) → has_id (suc k) no_job ≡ 0
no_id k = grind arith

all_empty : (n : ℕ) → All IsJob (replicate n no_job)
all_empty zero = tt
all_empty (suc n) = (refl, all_empty n)

pub replicate-IsWell : (n : ℕ) → IsWell (replicate n no_job)
replicate-IsWell n = record {
  entries = all_empty n;
  unique = λ k. omega (arith, total-replicate (has_id (suc k)) n no_job (no_id k));
}
