-- ===== src/Arena/Statistics.antt =====
-- The statistics of malloc_2.cpp; the loops have one unit of fuel for each block.
use ftf_interview.Base.{ℕ, zero, suc, ◌+◌, ◌*◌, ◌%◌, ◌^◌, ◌&&◌, ◌==◌, if◌then◌else◌, Ptr, null}
use ftf_interview.Arena.{Meta, Run, Cmd, pure, ◌>>=◌, state, load, metadata}

-- A sum over the list from `root`.
unfoldable pub sum_list : (Meta → ℕ) → ℕ → Ptr → ℕ → Cmd ℕ
unfolding load
sum_list f zero p sum = λ _. Run.out_of_fuel
sum_list f (suc fuel) p sum =
    if p == null then pure sum else do b ← load p; sum_list f fuel b.next ((sum + f b) % 2 ^ 64)

unfoldable pub num_free_blocks : (fuel : ℕ) → Cmd ℕ
unfolding sum_list
num_free_blocks fuel = do s ← state; sum_list (λ b. if b.is_free then 1 else 0) fuel s.root 0

unfoldable pub num_free_bytes : (fuel : ℕ) → Cmd ℕ
unfolding sum_list
num_free_bytes fuel = do s ← state; sum_list (λ b. if b.is_free then b.size else 0) fuel s.root 0

-- What an iterator gives to a sum, and the next one.
unfoldable pub value_at : (Meta → ℕ) → Ptr → Cmd (ℕ × Ptr)
unfolding load
value_at f p = if p == null then pure (0, null) else load p >>= λ b. pure (f b, b.next)

-- A sum over both lists, in step.
unfoldable pub sum_both : (Meta → ℕ) → ℕ → (p q : Ptr) → ℕ → Cmd ℕ
unfolding value_at
sum_both f zero p q sum = λ _. Run.out_of_fuel
sum_both f (suc fuel) p q sum = if (p == null) && (q == null) then pure sum else do
  (v, p') ← value_at f p
  (w, q') ← value_at f q
  sum_both f fuel p' q' ((sum + (w + v)) % 2 ^ 64)

unfoldable pub num_allocated_blocks : (fuel : ℕ) → Cmd ℕ
unfolding sum_both
num_allocated_blocks fuel = do s ← state; sum_both (λ b. 1) fuel s.root s.mmap_head 0

unfoldable pub num_allocated_bytes : (fuel : ℕ) → Cmd ℕ
unfolding sum_both
num_allocated_bytes fuel = do s ← state; sum_both (λ b. b.size) fuel s.root s.mmap_head 0

unfoldable pub num_meta_data_bytes : (fuel : ℕ) → Cmd ℕ
unfolding num_allocated_blocks
num_meta_data_bytes fuel = num_allocated_blocks fuel >>= λ n. pure (metadata * n % 2 ^ 64)
