-- ===== src/Tests/MallocTests.antt =====
-- A heap of two blocks, the first of them free.
use ftf_interview.Base.{ℕ, ◌+◌, ◌≡◌, refl, Bool, true, false, some, [], ◌∷◌, arith, Ptr}
use ftf_interview.Malloc.{
  Block, Heap, smalloc, srealloc, block_of, reuse, extend, sbrk, num_meta_data_bytes,
}
use ftf_interview.Malloc.Layout.{IsLaidOut, IsBelow}
use ftf_interview.Malloc.Allocates.{Gives, smalloc-Gives}
use ftf_interview.Malloc.Contents.{srealloc_grows}
use ftf_interview.Malloc.Histories.{start, allocated, Reach-IsLaidOut}

abbrev mem : Ptr → ℕ
mem a = a

abbrev block : Ptr → ℕ → Bool → Block
block at size is_free = record { at = at; size = size; is_free = is_free }

abbrev heap : Heap
heap = record { blocks = block 1000 8 true ∷ block 1040 10 false ∷ []; mem = mem; brk = 2000 }

first_fit : (smalloc true 5 heap).0 ≡ 1032
unfolding smalloc reuse
first_fit = refl

at_the_end : (smalloc true 20 heap).0 ≡ 2032
unfolding smalloc reuse extend sbrk
at_the_end = refl

metadata_bytes : num_meta_data_bytes heap ≡ 64
unfolding num_meta_data_bytes
metadata_bytes = refl

below : IsBelow heap.brk heap.blocks
below = (omega arith, (omega arith, tt))

smalloc-Gives_example : Gives true 20 heap (smalloc true 20 heap)
smalloc-Gives_example = smalloc-Gives true 20 heap (omega arith) (omega arith)

srealloc_grows_example :
    (h : Heap) × (srealloc true 1072 20 heap ≡ some ((smalloc true 20 heap).0, h))
    × (h.mem ((smalloc true 20 heap).0 + 3) ≡ 1072 + 3)
    × (h.mem 1080 ≡ 1080)
unfolding smalloc reuse extend sbrk block_of
srealloc_grows_example =
    srealloc_grows true 1072 20 heap (block 1040 10 false) (((omega arith, tt), (tt, tt)), below)
      refl (omega arith) (omega arith) (omega arith) (omega arith) (omega arith) 3 (omega arith) 1
      1080 (block 1040 10 false) refl refl (omega arith) (omega arith)

Reach-IsLaidOut_example :
    let h = (smalloc true 8 (record { blocks = []; mem = mem; brk = 2000 })).1 in
    IsLaidOut h.blocks × IsBelow h.brk h.blocks
Reach-IsLaidOut_example =
    Reach-IsLaidOut (smalloc true 8 (record { blocks = []; mem = mem; brk = 2000 })).1
      (allocated true 8 (record { blocks = []; mem = mem; brk = 2000 }) (start mem 2000))
