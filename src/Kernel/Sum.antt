-- ===== src/Kernel/Sum.antt =====
-- `traverse_children_sum_weight` and `sys_get_children_sum` against the tree of descendants.
use ftf_interview.Base.{
  ℕ, zero, suc, ◌+◌, ◌≤◌, ◌<◌, ◌^◌, ◌-◌, ◌≡◌, refl, ap, ◌∙◌, max, List, [], ◌∷◌, Option, some,
  arith, sign_extend,
}
use ftf_interview.Kernel.{
  Task, Kernel, sum_children, traverse_children_sum_weight, get_children_sum,
}
use ftf_interview.Kernel.Weight.{IsNonNeg}

-- A task with its descendants, each by its index.
mutual
  pub data Tree : Type 0 where
    node : ℕ → Forest → Tree

  pub data Forest : Type 0 where
    nil : Forest
    cons : Tree → Forest → Forest

abbrev pub root : Tree → ℕ
root (node i f) = i

abbrev pub roots : Forest → List ℕ
roots nil = []
roots (cons t f) = root t ∷ roots f

unfoldable mutual
  pub total : (ℕ → Task) → Tree → ℕ
  total tasks (node i f) = (tasks i).weight + total_forest tasks f

  pub total_forest : (ℕ → Task) → Forest → ℕ
  total_forest tasks nil = 0
  total_forest tasks (cons t f) = total tasks t + total_forest tasks f

unfoldable mutual
  pub depth : Tree → ℕ
  depth (node i f) = suc (depth_forest f)

  pub depth_forest : Forest → ℕ
  depth_forest nil = 0
  depth_forest (cons t f) = max (depth t) (depth_forest f)

-- The children lists of the task table are those of the tree.
unfoldable mutual
  pub Represents : (ℕ → Task) → Tree → Type 0
  Represents tasks (node i f) = ((tasks i).children ≡ roots f) × RepresentsAll tasks f

  pub RepresentsAll : (ℕ → Task) → Forest → Type 0
  RepresentsAll tasks nil = Unit
  RepresentsAll tasks (cons t f) = Represents tasks t × RepresentsAll tasks f

sign_extend_id : (w : ℕ) → w < 2 ^ 31 → sign_extend w ≡ w
sign_extend_id w h = ground arith

sum_children-cons :
    (call : ℕ → Option ℕ) (c : ℕ) (cs : List ℕ) (acc s : ℕ)
    → call c ≡ some s
    → acc + s < 2 ^ 64
    → sum_children call (c ∷ cs) acc ≡ sum_children call cs (acc + s)
unfolding sum_children
sum_children-cons call c cs acc s e h = ground arith

module _ (tasks : ℕ → Task) (ok : IsNonNeg tasks) where
  mutual
    unfolding traverse_children_sum_weight sum_children total depth Represents

    traverse-node :
        (t : Tree) (fuel : ℕ)
        → Represents tasks t
        → depth t ≤ fuel
        → total tasks t < 2 ^ 63
        → traverse_children_sum_weight tasks fuel (root t) ≡ some (total tasks t)
    traverse-node (node i f) zero r d h = absurd (omega arith)
    traverse-node (node i f) (suc fuel) r d h =
        rw (r.0, sign_extend_id (tasks i).weight (ok i))
          (sum-roots f fuel (tasks i).weight r.1 (omega arith) h)

    sum-roots :
        (f : Forest) (fuel acc : ℕ)
        → RepresentsAll tasks f
        → depth_forest f ≤ fuel
        → acc + total_forest tasks f < 2 ^ 63
        → sum_children (traverse_children_sum_weight tasks fuel) (roots f) acc
          ≡ some (acc + total_forest tasks f)
    sum-roots nil fuel acc r d h = ap some (omega arith)
    sum-roots (cons t f) fuel acc r d h =
        sum_children-cons _ (root t) (roots f) acc (total tasks t)
          (traverse-node t fuel r.0 (omega arith) (omega arith)) (omega arith)
        ∙ sum-roots f fuel (acc + total tasks t) r.1 (omega arith) (omega arith)
        ∙ ap some (omega arith)

-- Where no weight is negative, the children lists form the given tree of descendants, the fuel
-- covers its depth and the sum with the task's own weight fits a long, get_children_sum returns
-- -ECHILD (10) for a task without children, and else the sum of the weights of all its descendants
-- without its own.
pub get_children_sum-total :
    (k : Kernel) (f : Forest) (fuel : ℕ)
    → IsNonNeg k.tasks
    → Represents k.tasks (node k.current f)
    → depth (node k.current f) ≤ fuel
    → total k.tasks (node k.current f) < 2 ^ 63
    → get_children_sum fuel k
      ≡ some (elim f [ nil ↦ 2 ^ 64 - 10 | cons t g ↦ total k.tasks t + total_forest k.tasks g ])
unfolding get_children_sum Represents total
get_children_sum-total k nil fuel ok r d h = rw (r.0, get_children_sum) refl
get_children_sum-total k (cons t g) fuel ok r d h =
    rw
      (
        r.0,
        get_children_sum,
        traverse-node k.tasks ok (node k.current (cons t g)) fuel r d h,
        sign_extend_id (k.tasks k.current).weight (ok k.current),
      )
      (ap some (omega arith))
