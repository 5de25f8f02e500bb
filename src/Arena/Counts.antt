-- ===== src/Arena/Counts.antt =====
-- malloc_2.cpp: what the statistics count, over the two lists of blocks.
use ftf_interview.Base.{
  ℕ, ◌+◌, ◌*◌, ◌%◌, ◌^◌, ◌<◌, ◌≡◌, refl, ap, ◌∙◌, List, [], ◌∷◌, length, total, if◌then◌else◌,
  arith,
}
use ftf_interview.Arena.{Meta, Arena, Run, metadata, and_then, pure}
use ftf_interview.Arena.Statistics.{
  num_free_blocks, num_free_bytes, num_allocated_blocks, num_allocated_bytes, num_meta_data_bytes,
}
use ftf_interview.Arena.Linked.{Linked, sum_list-total, sum_both-total}

abbrev pub free_block : Meta → ℕ
free_block b = if b.is_free then 1 else 0

abbrev pub free_size : Meta → ℕ
free_size b = if b.is_free then b.size else 0

total_ones : (bs : List Meta) → total (λ b. 1) bs ≡ length bs
unfolding total
total_ones [] = refl
total_ones (b ∷ bs) = ap (λ n. 1 + n) (total_ones bs) ∙ omega arith

from_zero :
    (r : Run ℕ) (n m : ℕ) (s : Arena)
    → r ≡ Run.ok ((0 + n) % 2 ^ 64) s
    → n ≡ m
    → r ≡ Run.ok (m % 2 ^ 64) s
from_zero r n m s e same = e ∙ ap (λ k. Run.ok k s) (omega (arith, same))

-- Where root leads to the blocks bs and mmap_head to cs, and the fuel is above the length of both,
-- the five statistics end, change nothing, and are as follows, modulo 2^64: the number and the
-- sizes of the free blocks of bs, the number and the sizes of all blocks of both, and the header's
-- size times that number.
pub statistics-total :
    (fuel : ℕ) (bs cs : List Meta) (s : Arena)
    → Linked s.metas s.root bs
    → Linked s.metas s.mmap_head cs
    → length bs < fuel
    → length cs < fuel
    → (num_free_blocks fuel s ≡ Run.ok (total free_block bs % 2 ^ 64) s)
      × ((num_free_bytes fuel s ≡ Run.ok (total free_size bs % 2 ^ 64) s)
          × ((num_allocated_blocks fuel s ≡ Run.ok ((length bs + length cs) % 2 ^ 64) s)
              × ((num_allocated_bytes fuel s
                    ≡ Run.ok ((total (λ b. b.size) bs + total (λ b. b.size) cs) % 2 ^ 64) s)
                  × (num_meta_data_bytes fuel s
                      ≡ Run.ok (metadata * (length bs + length cs) % 2 ^ 64) s))))
unfolding num_free_blocks num_free_bytes num_allocated_blocks num_allocated_bytes
    num_meta_data_bytes
statistics-total fuel bs cs s l k h g =
    let count : num_allocated_blocks fuel s ≡ Run.ok ((length bs + length cs) % 2 ^ 64) s =
      from_zero (num_allocated_blocks fuel s) (total (λ b. 1) bs + total (λ b. 1) cs)
        (length bs + length cs) s
        (sum_both-total (λ b. 1) fuel s.root s.mmap_head 0 bs cs s l k h g (omega arith))
        (omega (arith, total_ones bs, total_ones cs)) in
    (
      from_zero (num_free_blocks fuel s) (total free_block bs) (total free_block bs) s
          (sum_list-total free_block fuel s.root 0 bs s l h (omega arith)) refl,
      (
        from_zero (num_free_bytes fuel s) (total free_size bs) (total free_size bs) s
            (sum_list-total free_size fuel s.root 0 bs s l h (omega arith)) refl,
        (
          count,
          (
            from_zero (num_allocated_bytes fuel s) (total (λ b. b.size) bs + total (λ b. b.size) cs)
                (total (λ b. b.size) bs + total (λ b. b.size) cs) s
                (sum_both-total (λ b. b.size) fuel s.root s.mmap_head 0 bs cs s l k h g
                  (omega arith))
                refl,
            ap (λ r. and_then r (λ n. pure (metadata * n % 2 ^ 64))) count
                ∙ ap (λ n. Run.ok n s) (omega arith),
          ),
        ),
      ),
    )
