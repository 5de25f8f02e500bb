-- ===== src/Malloc.antt =====
-- Virtual memory/malloc_1.cpp: the allocator that reuses whole blocks. The list from `root` to `end`
-- is a List, whose order is that of `next` and `prev`; whether the system grants what `sbrk` asks for
-- is an argument of each call.
pub mod Layout
pub mod Allocates
pub mod Frees
pub mod Owners
pub mod Contents
pub mod Histories
pub mod Totals
use ftf_interview.Base.{
  ℕ, zero, suc, ◌+◌, ◌-◌, ◌*◌, ◌%◌, ◌^◌, Bool, true, false, ◌&&◌, ◌||◌, Option, none, some, List,
  [], ◌∷◌, ◌++◌, ◌==◌, leb, ltb, if◌then◌else◌, Ptr, null, length, total,
}

-- `MallocMetadata`, at the address `at`.
pub record Block : Type 0 where
  pub at : Ptr
  pub size : ℕ
  pub is_free : Bool

-- `sizeof(MallocMetadata)` with 8-byte words
abbrev pub metadata : ℕ
metadata = 32

-- What a caller gets of a block.
abbrev pub payload : Block → Ptr
payload b = b.at + metadata

-- The list, the bytes of the payloads, and the program break.
pub record Heap : Type 0 where
  pub blocks : List Block
  pub mem : Ptr → ℕ
  pub brk : Ptr

abbrev pub max_size : ℕ
max_size = 100000000

-- The while loop of `smalloc`.
unfoldable pub reuse : ℕ → List Block → Option (Ptr × List Block)
reuse size [] = none
reuse size (b ∷ bs) =
    let rest = reuse size bs in
    if leb size b.size && b.is_free
    then some (payload b, record b { is_free = false } ∷ bs)
    else elim rest [ none ↦ none | some (p, bs') ↦ some (p, b ∷ bs') ]

-- `sbrk(increment)`: where the system grants it, the break moves up, and its old place is returned.
unfoldable pub sbrk : (grants : Bool) → (increment : ℕ) → Heap → Option Ptr × Heap
sbrk false increment h = (none, h)
sbrk true increment h = (some h.brk, record h { brk = h.brk + increment })

-- The block at the end, behind the call of `sbrk`.
unfoldable pub extend : ℕ → Option Ptr × Heap → Ptr × Heap
extend size (none, h) = (null, h)
extend size (some p, h) =
    let b : Block = record { at = p; size = size; is_free = false } in
    (payload b, record h { blocks = h.blocks ++ b ∷ [] })

unfoldable pub take_or_extend : Option (Ptr × List Block) → (grants : Bool) → ℕ → Heap → Ptr × Heap
unfolding extend sbrk
take_or_extend none grants size h = extend size (sbrk grants (size + metadata) h)
take_or_extend (some (p, bs)) grants size h = (p, record h { blocks = bs })

unfoldable pub smalloc : (grants : Bool) → ℕ → Heap → Ptr × Heap
unfolding take_or_extend reuse
smalloc grants size h =
    if size == 0 || ltb max_size size
    then (null, h)
    else take_or_extend (reuse size h.blocks) grants size h

-- `memset(p, 0, n)`
unfoldable pub memset : Ptr → ℕ → (Ptr → ℕ) → Ptr → ℕ
memset p n mem a = if leb p a && ltb a (p + n) then 0 else mem a

-- `memmove(q, p, n)`
unfoldable pub memmove : Ptr → Ptr → ℕ → (Ptr → ℕ) → Ptr → ℕ
memmove q p n mem a = if leb q a && ltb a (q + n) then mem (p + (a - q)) else mem a

-- The end of `scalloc`, for a block of `n` bytes.
unfoldable pub clear : ℕ → Ptr × Heap → Ptr × Heap
clear n (p, h) = if p == null then (null, h) else (p, record h { mem = memset p n h.mem })

-- The product is one of `size_t`.
unfoldable pub scalloc : (grants : Bool) → (num size : ℕ) → Heap → Ptr × Heap
unfolding smalloc clear
scalloc grants num size h = let n = size * num % 2 ^ 64 in clear n (smalloc grants n h)

-- The block that a payload belongs to; none where the pointer is no payload.
unfoldable pub block_of : Ptr → List Block → Option Block
block_of p [] = none
block_of p (b ∷ bs) = let rest = block_of p bs in if payload b == p then some b else rest

unfoldable pub free_at : Ptr → List Block → List Block
free_at p [] = []
free_at p (b ∷ bs) =
    let rest = free_at p bs in if payload b == p then record b { is_free = true } ∷ bs else b ∷ rest

-- None is undefined behaviour: a pointer that the allocator did not hand out.
unfoldable pub sfree : Ptr → Heap → Option Heap
sfree p h = if p == null then some h else elim (block_of p h.blocks) [
  | none ↦ none
  | some b ↦ if b.is_free then some h else some (record h { blocks = free_at p h.blocks })
]

-- The end of `srealloc`: the test of the new pointer is one for -1, so NULL goes to `memmove`. None
-- is undefined behaviour; so is a read of the old block, at its new size, beyond the break.
unfoldable pub move_to : (oldp : Ptr) → ℕ → Ptr × Heap → Option (Ptr × Heap)
unfolding sfree
move_to oldp size (p, h) =
    if p == 2 ^ 64 - 1
    then some (null, h)
    else if p == null || ltb h.brk (oldp + size)
    then none
    else elim (sfree oldp (record h { mem = memmove p oldp size h.mem })) [
      | none ↦ none
      | some h' ↦ some (p, h')
    ]

-- `srealloc` behind its first tests, with the block of the pointer.
unfoldable pub with_block : (grants : Bool) → Ptr → ℕ → Heap → Option Block → Option (Ptr × Heap)
unfolding move_to smalloc
with_block grants oldp size h none = none
with_block grants oldp size h (some b) =
    if leb size b.size then some (oldp, h) else move_to oldp size (smalloc grants size h)

unfoldable pub srealloc : (grants : Bool) → Ptr → ℕ → Heap → Option (Ptr × Heap)
unfolding with_block smalloc
srealloc grants oldp size h =
    if size == 0 || ltb max_size size
    then some (null, h)
    else if oldp == null
    then some (smalloc grants size h)
    else with_block grants oldp size h (block_of oldp h.blocks)

abbrev pub free_blocks : Block → ℕ
free_blocks b = if b.is_free then 1 else 0

abbrev pub free_bytes : Block → ℕ
free_bytes b = if b.is_free then b.size else 0

-- The statistics; `size_t` sums wrap.
unfoldable pub num_free_blocks : Heap → ℕ
num_free_blocks h = total free_blocks h.blocks % 2 ^ 64

unfoldable pub num_free_bytes : Heap → ℕ
num_free_bytes h = total free_bytes h.blocks % 2 ^ 64

unfoldable pub num_allocated_blocks : Heap → ℕ
num_allocated_blocks h = length h.blocks % 2 ^ 64

unfoldable pub num_allocated_bytes : Heap → ℕ
num_allocated_bytes h = total (λ b. b.size) h.blocks % 2 ^ 64

unfoldable pub num_meta_data_bytes : Heap → ℕ
unfolding num_allocated_blocks
num_meta_data_bytes h = metadata * num_allocated_blocks h % 2 ^ 64
