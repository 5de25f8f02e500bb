-- ===== src/Kernel/Ancestor.antt =====
-- `sys_get_heaviest_ancestor` against the list of a task's ancestors.
use ftf_interview.Base.{
  ℕ, zero, suc, ◌≤◌, ◌<◌, ◌^◌, ◌≡◌, ◌≢◌, inl, inr, List, [], ◌∷◌, some, arith, length, All, ltb,
  ==_ne, if◌then◌else◌, ◌∙◌, subst, int_gt, Bool-cases,
}
use ftf_interview.Kernel.{Task, Kernel, climb, get_heaviest_ancestor}
use ftf_interview.Kernel.Weight.{IsNonNeg}

-- From `p` upwards the tasks are `xs`, and above them stands the task with pid 0.
abbrev pub Ancestry : (ℕ → Task) → ℕ → List ℕ → Type 0
Ancestry tasks p [] = (tasks p).pid ≡ 0
Ancestry tasks p (x ∷ xs) = (p ≡ x) × ((tasks p).pid ≢ 0) × Ancestry tasks (tasks p).real_parent xs

-- `i` is the first of the heaviest tasks in a list: those before it are lighter, none is heavier.
pub data IsFirstHeaviest (tasks : ℕ → Task) : List ℕ → ℕ → Type 0 where
  here :
      {i : ℕ} {xs : List ℕ}
      → All (λ j. (tasks j).weight ≤ (tasks i).weight) xs
      → IsFirstHeaviest tasks (i ∷ xs) i
  later :
      {x i : ℕ} {xs : List ℕ}
      → (tasks x).weight < (tasks i).weight
      → IsFirstHeaviest tasks xs i
      → IsFirstHeaviest tasks (x ∷ xs) i

int_gt-ltb : (a b : ℕ) → a < 2 ^ 31 → b < 2 ^ 31 → int_gt a b ≡ ltb b a
int_gt-ltb a b h k = ground arith

climb_end :
    (tasks : ℕ → Task) (fuel p max_p max_w : ℕ)
    → (tasks p).pid ≡ 0
    → climb tasks (suc fuel) p max_p max_w ≡ some max_p
unfolding climb
climb_end tasks fuel p max_p max_w e = ground arith

climb_up :
    (tasks : ℕ → Task) (fuel p max_p max_w : ℕ)
    → (tasks p).pid ≢ 0
    → (tasks p).weight < 2 ^ 31
    → max_w < 2 ^ 31
    → climb tasks (suc fuel) p max_p max_w ≡ (
        if ltb max_w (tasks p).weight
        then climb tasks fuel (tasks p).real_parent (tasks p).pid (tasks p).weight
        else climb tasks fuel (tasks p).real_parent max_p max_w)
unfolding climb
climb_up tasks fuel p max_p max_w ne h k =
    rw (climb, ==_ne _ _ ne, int_gt-ltb (tasks p).weight max_w h k) (ground arith)

module _ (tasks : ℕ → Task) where
  head-le :
      {x i : ℕ} {xs : List ℕ}
      → IsFirstHeaviest tasks (x ∷ xs) i
      → (tasks x).weight ≤ (tasks i).weight
  head-le (here all) = omega arith
  head-le (later lt first) = omega arith

  skip :
      {b x i : ℕ} {xs : List ℕ}
      → (tasks b).weight < (tasks x).weight
      → IsFirstHeaviest tasks (x ∷ xs) i
      → IsFirstHeaviest tasks (b ∷ x ∷ xs) i
  skip lt first = later (omega (arith, head-le first)) first

  add :
      {b x i : ℕ} {xs : List ℕ}
      → (tasks x).weight ≤ (tasks b).weight
      → IsFirstHeaviest tasks (b ∷ xs) i
      → IsFirstHeaviest tasks (b ∷ x ∷ xs) i
  add le (here all) = here (le, all)
  add le (later lt first) = later lt (later (omega arith) first)

-- What the loop returns from `p` on, with `b` the best task so far.
abbrev Finds : (ℕ → Task) → ℕ → ℕ → ℕ → List ℕ → Type 0
Finds tasks fuel p b xs =
    (i : ℕ) × (climb tasks fuel p (tasks b).pid (tasks b).weight ≡ some (tasks i).pid)
    × IsFirstHeaviest tasks (b ∷ xs) i

module _ (tasks : ℕ → Task) (ok : IsNonNeg tasks) where
  climb-up-Finds :
      (fuel p b : ℕ) (xs : List ℕ)
      → (tasks p).pid ≢ 0
      → ((c : ℕ) → Finds tasks fuel (tasks p).real_parent c xs)
      → Finds tasks (suc fuel) p b (p ∷ xs)
  climb-up-Finds fuel p b xs ne rest = elim (Bool-cases (ltb (tasks b).weight (tasks p).weight)) [
    | inl up ↦
        let (i, e, first) = rest p in
        (i, climb_up tasks fuel p _ _ ne (ok p) (ok b) ∙ rw up e, skip tasks (ground arith) first)
    | inr down ↦
        let (i, e, first) = rest b in
        (i, climb_up tasks fuel p _ _ ne (ok p) (ok b) ∙ rw down e, add tasks (ground arith) first)
  ]

  climb-Finds :
      (xs : List ℕ) (fuel p b : ℕ)
      → Ancestry tasks p xs
      → length xs < fuel
      → Finds tasks fuel p b xs
  climb-Finds xs zero p b a h = absurd (omega arith)
  climb-Finds [] (suc fuel) p b a h = (b, climb_end tasks fuel p _ _ a, here tt)
  climb-Finds (x ∷ xs) (suc fuel) p b (e, ne, a) h =
      subst (λ y. Finds tasks (suc fuel) p b (y ∷ xs)) e
        (climb-up-Finds fuel p b xs ne λ c. climb-Finds xs fuel _ c a (omega arith))

-- Where no weight is negative and the tasks from the parent up to pid 0 are xs, with fuel for
-- them, get_heaviest_ancestor returns the pid of a task i such that i is in the line of the
-- current task and xs, those before it in the line are lighter, and none behind it is heavier.
pub get_heaviest_ancestor-IsFirstHeaviest :
    (k : Kernel) (xs : List ℕ) (fuel : ℕ)
    → IsNonNeg k.tasks
    → Ancestry k.tasks (k.tasks k.current).real_parent xs
    → length xs < fuel
    → (i : ℕ) × (get_heaviest_ancestor fuel k ≡ some (k.tasks i).pid)
      × IsFirstHeaviest k.tasks (k.current ∷ xs) i
unfolding get_heaviest_ancestor
get_heaviest_ancestor-IsFirstHeaviest k xs fuel ok a h =
    climb-Finds k.tasks ok xs fuel _ k.current a h
