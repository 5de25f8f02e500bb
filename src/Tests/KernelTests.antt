-- ===== src/Tests/KernelTests.antt =====
-- A small process tree: init, a shell, and two children of the shell.
use ftf_interview.Base.{ℕ, ◌^◌, ◌-◌, ◌≡◌, refl, List, [], ◌∷◌, some, arith, ◌==◌, if◌then◌else◌}
use ftf_interview.Kernel.{Task, Kernel, get_children_sum, get_heaviest_ancestor}
use ftf_interview.Kernel.Weight.{IsNonNeg}
use ftf_interview.Kernel.Sum.{
  Tree, node, nil, cons, Represents, total, depth, get_children_sum-total,
}
use ftf_interview.Kernel.Ancestor.{IsFirstHeaviest, get_heaviest_ancestor-IsFirstHeaviest}

abbrev task : ℕ → ℕ → ℕ → List ℕ → Task
task w p parent cs = record { weight = w; pid = p; real_parent = parent; children = cs }

abbrev processes : ℕ → Task
processes i =
    if i == 1
    then task 3 1 0 (2 ∷ [])
    else if i == 2
    then task 9 20 1 (3 ∷ 4 ∷ [])
    else if i == 3
    then task 5 31 2 []
    else if i == 4
    then task 7 32 2 []
    else task 0 0 0 (1 ∷ [])

abbrev at : ℕ → Kernel
at i = record { tasks = processes; current = i }

processes-IsNonNeg : IsNonNeg processes
processes-IsNonNeg i = ground arith

abbrev shell : Tree
shell = node 2 (cons (node 3 nil) (cons (node 4 nil) nil))

get_children_sum-total_example : get_children_sum 3 (at 1) ≡ some 21
unfolding total
get_children_sum-total_example =
    get_children_sum-total (at 1) (cons shell nil) 3 processes-IsNonNeg
      (unfold Represents in (refl, ((refl, ((refl, tt), ((refl, tt), tt))), tt)))
      (unfold depth in omega arith) (unfold total in omega arith)

get_children_sum_none : get_children_sum 3 (at 4) ≡ some (2 ^ 64 - 10)
unfolding get_children_sum
get_children_sum_none = refl

get_heaviest_ancestor-IsFirstHeaviest_example :
    (i : ℕ) × (get_heaviest_ancestor 3 (at 4) ≡ some (processes i).pid)
    × IsFirstHeaviest processes (4 ∷ 2 ∷ 1 ∷ []) i
get_heaviest_ancestor-IsFirstHeaviest_example =
    get_heaviest_ancestor-IsFirstHeaviest (at 4) (2 ∷ 1 ∷ []) 3 processes-IsNonNeg (omega arith)
      (omega arith)

heaviest_of_4 : get_heaviest_ancestor 3 (at 4) ≡ some 20
unfolding get_heaviest_ancestor
heaviest_of_4 = refl
