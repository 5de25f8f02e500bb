-- ===== src/Tests/ArenaTests.antt =====
-- Blocks in a small arena.
use ftf_interview.Base.{
  ℕ, ◌+◌, ◌*◌, ◌%◌, ◌^◌, ◌∷◌, total, ◌≡◌, refl, Bool, true, false, none, some, [], arith, ◌==◌,
  if◌then◌else◌, null,
}
use ftf_interview.Arena.{Meta, Arena, Run, metadata, split, combine, ◌>>◌, find_fit}
use ftf_interview.Arena.Splits.{split-combine}
use ftf_interview.Arena.Statistics.{
  num_free_blocks, num_free_bytes, num_allocated_blocks, num_allocated_bytes, num_meta_data_bytes,
}
use ftf_interview.Arena.Linked.{Linked, done, link}
use ftf_interview.Arena.Counts.{free_block, free_size, statistics-total}
use ftf_interview.Arena.Fits.{IsFirstFit, find_fit-IsFirstFit}

abbrev meta : ℕ → Bool → Meta
meta size is_free = record { size = size; is_free = is_free; next = null; prev = null }

-- One block of 500 bytes at 1000.
abbrev small : Arena
small = record {
  root = 1000;
  end = 1000;
  mmap_head = null;
  mmap_end = null;
  metas = λ p. if p == 1000 then some (meta 500 true) else none;
  unmapped = [];
}

-- One mapped block in use, and none from `sbrk`.
abbrev mapped : Arena
mapped = record {
  root = null;
  end = null;
  mmap_head = 9000;
  mmap_end = 9000;
  metas = λ p. if p == 9000 then some (meta 200000 false) else none;
  unmapped = [];
}

-- Both of them.
abbrev both : Arena
both = record {
  root = 1000;
  end = 1000;
  mmap_head = 9000;
  mmap_end = 9000;
  metas = λ p.
      if p == 1000
      then some (meta 500 true)
      else if p == 9000
      then some (meta 200000 false)
      else none;
  unmapped = [];
}

split-combine_example :
    (t : Arena) × ((split 1000 100 >> combine 1000 (1000 + 100 + metadata)) small ≡ Run.ok tt t)
    × (t.metas 1000 ≡ some (meta 500 true))
    × (t.end ≡ 1000)
split-combine_example =
    split-combine 1000 100 small (meta 500 true) refl (omega arith) refl (omega arith) (omega arith)
      (omega arith)

both-Linked : Linked both.metas both.root (meta 500 true ∷ [])
both-Linked = link (λ e. cc) refl done

both-Linked-mapped : Linked both.metas both.mmap_head (meta 200000 false ∷ [])
both-Linked-mapped = link (λ e. cc) refl done

find_fit-IsFirstFit_example :
    IsFirstFit 400 (meta 500 true ∷ []) both (find_fit 2 400 both.root both)
find_fit-IsFirstFit_example =
    find_fit-IsFirstFit 2 400 both.root (meta 500 true ∷ []) both both-Linked (omega arith)

statistics-total_example :
    (num_free_blocks 2 both ≡ Run.ok (total free_block (meta 500 true ∷ []) % 2 ^ 64) both)
    × ((num_free_bytes 2 both ≡ Run.ok (total free_size (meta 500 true ∷ []) % 2 ^ 64) both)
        × ((num_allocated_blocks 2 both ≡ Run.ok (2 % 2 ^ 64) both)
            × ((num_allocated_bytes 2 both
                  ≡ Run.ok
                      ((total (λ b. b.size) (meta 500 true ∷ [])
                          + total (λ b. b.size) (meta 200000 false ∷ []))
                        % 2 ^ 64)
                      both)
                × (num_meta_data_bytes 2 both ≡ Run.ok (metadata * 2 % 2 ^ 64) both))))
statistics-total_example =
    statistics-total 2 (meta 500 true ∷ []) (meta 200000 false ∷ []) both both-Linked
      both-Linked-mapped (omega arith) (omega arith)
