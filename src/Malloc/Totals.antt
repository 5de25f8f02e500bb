-- ===== src/Malloc/Totals.antt =====
-- The statistics of malloc_1.cpp.
use ftf_interview.Base.{
  ℕ, suc, ◌+◌, ◌%◌, ◌^◌, ◌≡◌, refl, ap, sym, ◌∙◌, true, false, some, List, [], ◌∷◌, ◌++◌, arith,
  Ptr, length, total,
}
use ftf_interview.Malloc.{
  Block, Heap, block_of, sfree, free_blocks, free_bytes, num_free_blocks, num_free_bytes,
  num_allocated_blocks, num_allocated_bytes,
}
use ftf_interview.Malloc.Frees.{sfree-Owner}

-- A sum over a list of which one element changes.
total_swap :
    (f : Block → ℕ) (front back : List Block) (b c : Block)
    → total f (front ++ c ∷ back) + f b ≡ total f (front ++ b ∷ back) + f c
unfolding total
total_swap f [] back b c = omega arith
total_swap f (d ∷ front) back b c = omega (arith, total_swap f front back b c)

-- The sum grows by what the changed element gains.
total_gain :
    (f : Block → ℕ) (bs front back : List Block) (b c : Block) (k : ℕ)
    → bs ≡ front ++ b ∷ back
    → f c ≡ f b + k
    → total f (front ++ c ∷ back) ≡ total f bs + k
total_gain f bs front back b c k e g = omega (arith, total_swap f front back b c, ap (total f) e, g)

length_swap :
    (front back : List Block) (b c : Block)
    → length (front ++ c ∷ back) ≡ length (front ++ b ∷ back)
length_swap [] back b c = refl
length_swap (d ∷ front) back b c = ap suc (length_swap front back b c)

-- sfree of a pointer to a block in use adds one to the free blocks and the block's size to the
-- free bytes, modulo 2^64, and leaves the numbers of all blocks and of their bytes.
sfree-counts :
    (p : Ptr) (h : Heap) (b : Block)
    → block_of p h.blocks ≡ some b
    → b.is_free ≡ false
    → (h' : Heap) × (sfree p h ≡ some h')
      × (num_free_blocks h' ≡ (num_free_blocks h + 1) % 2 ^ 64)
      × (num_free_bytes h' ≡ (num_free_bytes h + b.size) % 2 ^ 64)
      × (num_allocated_blocks h' ≡ num_allocated_blocks h)
      × (num_allocated_bytes h' ≡ num_allocated_bytes h)
unfolding num_free_blocks num_free_bytes num_allocated_blocks num_allocated_bytes
sfree-counts p h b e u =
    let (o, s) = sfree-Owner p h b e u in
    let c : Block = record b { is_free = true } in
    let after = o.front ++ c ∷ o.back in
    let blocks : total free_blocks after ≡ total free_blocks h.blocks + 1 =
      total_gain free_blocks h.blocks o.front o.back b c 1 o.list (rw u refl) in
    let bytes : total free_bytes after ≡ total free_bytes h.blocks + b.size =
      total_gain free_bytes h.blocks o.front o.back b c b.size o.list (rw u (omega arith)) in
    let sizes : total (λ b. b.size) after ≡ total (λ b. b.size) h.blocks + 0 =
      total_gain (λ b. b.size) h.blocks o.front o.back b c 0 o.list (omega arith) in
    (
      record h { blocks = after },
      s,
      omega (arith, blocks),
      omega (arith, bytes),
      ap (λ n. n % 2 ^ 64) (length_swap o.front o.back b c ∙ ap length (sym o.list)),
      omega (arith, sizes),
    )
