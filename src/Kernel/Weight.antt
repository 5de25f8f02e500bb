-- ===== src/Kernel/Weight.antt =====
-- What `sys_set_weight` and `sys_get_weight` promise one another.
use ftf_interview.Base.{
  ℕ, ◌<◌, ◌^◌, ◌-◌, ◌≡◌, refl, ◌≢◌, arith, int_is_neg, if◌then◌else◌, inl, inr, Bool-cases,
}
use ftf_interview.Kernel.{Task, Kernel, set_weight, get_weight}

-- No task has a negative weight.
abbrev pub IsNonNeg : (ℕ → Task) → Type 0
IsNonNeg tasks = (i : ℕ) → (tasks i).weight < 2 ^ 31

-- For an int w and a task i other than the current one: if w is negative, set_weight returns
-- -EINVAL (22) and changes nothing; else it returns 0, get_weight then returns w, and the task i
-- is unchanged.
get_weight-set_weight :
    (k : Kernel) (w i : ℕ)
    → w < 2 ^ 32
    → i ≢ k.current
    → if int_is_neg w
      then (set_weight k w ≡ (2 ^ 64 - 22, k))
      else ((set_weight k w).0 ≡ 0)
        × (get_weight (set_weight k w).1 ≡ w)
        × ((set_weight k w).1.tasks i ≡ k.tasks i)
unfolding set_weight get_weight
get_weight-set_weight k w i h ne = elim (Bool-cases (int_is_neg w)) [
  | inl neg ↦ rw neg refl
  | inr pos ↦ rw pos (refl, ground arith, ground arith)
]

-- Where no weight is negative, none is after set_weight with an int.
set_weight-IsNonNeg :
    (k : Kernel) (w : ℕ) → w < 2 ^ 32 → IsNonNeg k.tasks → IsNonNeg (set_weight k w).1.tasks
unfolding set_weight
set_weight-IsNonNeg k w h old i = ground (arith, old i)
