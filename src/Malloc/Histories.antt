-- ===== src/Malloc/Histories.antt =====
-- Histories of calls, and where the blocks then lie.
use ftf_interview.Base.{
  ℕ, ◌+◌, ◌≤◌, Bool, All-map, ◌-◌, ◌*◌, ◌%◌, ◌^◌, ◌≡◌, sym, subst, inl, inr, ◌||◌, Option, none,
  some, [], ◌==◌, leb, ltb, arith, Ptr, null, Bool-cases, Option-cases, if_ind,
}
use ftf_interview.Malloc.{
  Heap, max_size, block_of, sfree, smalloc, scalloc, clear, memmove, move_to, with_block, srealloc,
}
use ftf_interview.Malloc.Layout.{IsLaidOut, IsBelow, IsSound}
use ftf_interview.Malloc.Allocates.{Gives, smalloc-Gives, Allocates-IsLaidOut, Allocates-IsBelow}
use ftf_interview.Malloc.Frees.{free_at-IsLaidOut, free_at-IsBelow}

-- The heaps that calls lead to; `stored` is a program's own writes to its memory,
-- `moved` its own calls of sbrk that move the break up.
pub data Reach : Heap → Type 0 where
  start : (mem : Ptr → ℕ) (brk : Ptr) → Reach (record { blocks = []; mem = mem; brk = brk })
  stored : (h : Heap) (mem : Ptr → ℕ) → Reach h → Reach (record h { mem = mem })
  moved : (h : Heap) (brk : Ptr) → h.brk ≤ brk → Reach h → Reach (record h { brk = brk })
  allocated : (grants : Bool) (size : ℕ) (h : Heap) → Reach h → Reach (smalloc grants size h).1
  cleared :
      (grants : Bool) (num size : ℕ) (h : Heap) → Reach h → Reach (scalloc grants num size h).1
  freed : (p : Ptr) (h h' : Heap) → sfree p h ≡ some h' → Reach h → Reach h'
  resized :
      (grants : Bool) (p size : ℕ) (h : Heap) (r : Ptr × Heap)
      → srealloc grants p size h ≡ some r
      → Reach h
      → Reach r.1

pub smalloc-IsSound :
    (grants : Bool) (size : ℕ) (h : Heap) → IsSound h → IsSound (smalloc grants size h).1
unfolding smalloc Gives
smalloc-IsSound grants size h l = elim (Bool-cases (size == 0 || ltb max_size size)) [
  | inl y ↦ rw (y, smalloc) l
  | inr n ↦ elim (smalloc-Gives grants size h (ground arith) (ground arith)) [
    | inl z ↦ subst (λ (r : Ptr × Heap). IsSound r.1) (sym z.0) l
    | inr a ↦ (
      Allocates-IsLaidOut h.brk _ size h.blocks _ _ l.1 l.0 a.0,
      Allocates-IsBelow h.brk _ size h.blocks _ _ l.1 a.0,
    )
  ]
]

pub scalloc-IsSound :
    (grants : Bool) (num size : ℕ) (h : Heap) → IsSound h → IsSound (scalloc grants num size h).1
unfolding scalloc clear
scalloc-IsSound grants num size h l =
    let n = size * num % 2 ^ 64 in
    let r = smalloc grants n h in
    if_ind (λ (r : Ptr × Heap). IsSound r.1) (r.0 == null) _ _ (λ _. smalloc-IsSound grants n h l)
      (λ _. smalloc-IsSound grants n h l)

-- A result that is either missing or laid out.
abbrev Keeps : Option Heap → Type 0
Keeps none = Unit
Keeps (some h) = IsSound h

sfree-Keeps : (p : Ptr) (h : Heap) → IsSound h → Keeps (sfree p h)
unfolding sfree
sfree-Keeps p h l =
    if_ind Keeps (p == null) _ _ (λ _. l)
      (λ _. elim (Option-cases (block_of p h.blocks)) [
        | inl e ↦ rw e tt
        | inr (b, e) ↦ rw e (
            if_ind Keeps b.is_free _ _ (λ _. l)
              (λ _.
                (free_at-IsLaidOut p h.blocks b e l.0, free_at-IsBelow p h.brk h.blocks b e l.1)))
      ])

abbrev KeepsBoth : Option (Ptr × Heap) → Type 0
KeepsBoth none = Unit
KeepsBoth (some r) = IsSound r.1

move_to-Keeps : (p size : ℕ) (r : Ptr × Heap) → IsSound r.1 → KeepsBoth (move_to p size r)
unfolding move_to
move_to-Keeps p size r l =
    let k = sfree-Keeps p (record r.1 { mem = memmove r.0 p size r.1.mem }) l in
    if_ind KeepsBoth (r.0 == 2 ^ 64 - 1) _ _ (λ _. l)
      (λ _.
        if_ind KeepsBoth (r.0 == null || ltb r.1.brk (p + size)) _ _ (λ _. tt)
          (λ _. elim (Option-cases (sfree p (record r.1 { mem = memmove r.0 p size r.1.mem }))) [
            | inl e ↦ rw e tt
            | inr (h', e) ↦ rw e (subst Keeps e k)
          ]))

srealloc-Keeps :
    (grants : Bool) (p size : ℕ) (h : Heap) → IsSound h → KeepsBoth (srealloc grants p size h)
unfolding srealloc with_block
srealloc-Keeps grants p size h l =
    let given = smalloc-IsSound grants size h l in
    if_ind KeepsBoth (size == 0 || ltb max_size size) _ _ (λ _. l)
      (λ _.
        if_ind KeepsBoth (p == null) _ _ (λ _. given)
          (λ _. elim (Option-cases (block_of p h.blocks)) [
            | inl e ↦ subst (λ o. KeepsBoth (with_block grants p size h o)) (sym e) tt
            | inr (b, e) ↦
                subst (λ o. KeepsBoth (with_block grants p size h o)) (sym e)
                  (if_ind KeepsBoth (leb size b.size) _ _ (λ _. l)
                    (λ _. move_to-Keeps p size (smalloc grants size h) given))
          ]))

-- In every heap that calls of smalloc, scalloc, sfree and srealloc, whether or not sbrk succeeds,
-- and a program's own writes and moves of the break upwards lead to, each block ends before those
-- behind it in the list begin, and at most at the program break.
pub Reach-IsLaidOut : (h : Heap) → Reach h → IsLaidOut h.blocks × IsBelow h.brk h.blocks
Reach-IsLaidOut _ (start mem brk) = (tt, tt)
Reach-IsLaidOut _ (stored h mem r) = Reach-IsLaidOut h r
Reach-IsLaidOut _ (moved h brk up r) =
    let (l, b) = Reach-IsLaidOut h r in (l, All-map _ _ h.blocks (λ b le. omega (arith, le, up)) b)
Reach-IsLaidOut _ (allocated grants size h r) = smalloc-IsSound grants size h (Reach-IsLaidOut h r)
Reach-IsLaidOut _ (cleared grants num size h r) =
    scalloc-IsSound grants num size h (Reach-IsLaidOut h r)
Reach-IsLaidOut _ (freed p h h' e r) = subst Keeps e (sfree-Keeps p h (Reach-IsLaidOut h r))
Reach-IsLaidOut _ (resized grants p size h o e r) =
    subst KeepsBoth e (srealloc-Keeps grants p size h (Reach-IsLaidOut h r))
