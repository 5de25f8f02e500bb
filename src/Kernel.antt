-- ===== src/Kernel.antt =====
-- Linux Kernel/newSyscalls_imp.c: the system calls on process weights, over the fields of
-- `struct task_struct` (Linux Kernel/sched.h) that they use.
pub mod Sum
pub mod Ancestor
pub mod Weight
use ftf_interview.Base.{
  ℕ, zero, suc, true, false, Option, none, some, List, [], ◌∷◌, ◌==◌, if◌then◌else◌, int_is_neg,
  int_gt, sign_extend, long_add, long_sub, long_neg,
}

-- A task is named by the index that its pointers hold.
pub record Task : Type 0 where
  pub weight : ℕ
  pub pid : ℕ
  pub real_parent : ℕ
  pub children : List ℕ

pub record Kernel : Type 0 where
  pub tasks : ℕ → Task
  pub current : ℕ

abbrev pub einval : ℕ
einval = 22

abbrev pub echild : ℕ
echild = 10

pub set_weight : Kernel → ℕ → ℕ × Kernel
set_weight k weight = if int_is_neg weight then (long_neg einval, k) else (
  0,
  record k {
    tasks = λ i. if k.current == i then record (k.tasks i) { weight = weight } else k.tasks i;
  },
)

pub get_weight : Kernel → ℕ
get_weight k = sign_extend (k.tasks k.current).weight

-- `list_for_each` over the children; `call` is the recursive call.
sum_children : (ℕ → Option ℕ) → List ℕ → ℕ → Option ℕ
sum_children call [] sum = some sum
sum_children call (c ∷ cs) sum = elim (call c) [
  | none ↦ none
  | some s ↦ sum_children call cs (long_add sum s)
]

-- The recursion descends one level for each unit of fuel; `none` means that it ran out.
traverse_children_sum_weight : (ℕ → Task) → ℕ → ℕ → Option ℕ
unfolding sum_children
traverse_children_sum_weight tasks zero root = none
traverse_children_sum_weight tasks (suc fuel) root =
    sum_children (traverse_children_sum_weight tasks fuel) (tasks root).children
      (sign_extend (tasks root).weight)

unfoldable pub get_children_sum : ℕ → Kernel → Option ℕ
unfolding traverse_children_sum_weight
get_children_sum fuel k = elim (k.tasks k.current).children [
  | [] ↦ some (long_neg echild)
  | c ∷ cs ↦ elim (traverse_children_sum_weight k.tasks fuel k.current) [
    | none ↦ none
    | some s ↦ some (long_sub s (sign_extend (k.tasks k.current).weight))
  ]
]

-- The loop up the parents, with the best pid and weight so far; one unit of fuel for each round.
climb : (ℕ → Task) → ℕ → ℕ → ℕ → ℕ → Option ℕ
climb tasks zero task max_p max_w = none
climb tasks (suc fuel) task max_p max_w = elim ((tasks task).pid == 0) [
  | true ↦ some max_p
  | false ↦ elim (int_gt (tasks task).weight max_w) [
    | true ↦ climb tasks fuel (tasks task).real_parent (tasks task).pid (tasks task).weight
    | false ↦ climb tasks fuel (tasks task).real_parent max_p max_w
  ]
]

unfoldable pub get_heaviest_ancestor : ℕ → Kernel → Option ℕ
unfolding climb
get_heaviest_ancestor fuel k =
    let task = k.tasks k.current in climb k.tasks fuel task.real_parent task.pid task.weight
