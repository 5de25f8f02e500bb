-- ===== src/Malloc/Layout.antt =====
-- Where the blocks lie.
use ftf_interview.Base.{
  ◌+◌, ◌≡◌, ◌≤◌, ◌⊎◌, inl, inr, List, [], ◌∷◌, ◌++◌, arith, All, All-append, All-map, Ptr,
}
use ftf_interview.Malloc.{Block, Heap, metadata}

abbrev pub block_end : Block → Ptr
block_end b = b.at + metadata + b.size

-- Every block ends below `p`.
abbrev pub IsBelow : Ptr → List Block → Type 0
IsBelow p = All (λ b. block_end b ≤ p)

-- Each block ends before those behind it begin.
abbrev pub IsLaidOut : List Block → Type 0
IsLaidOut [] = Unit
IsLaidOut (b ∷ bs) = All (λ c. block_end b ≤ c.at) bs × IsLaidOut bs

-- The blocks lie one behind the other, below the program break.
abbrev pub IsSound : Heap → Type 0
IsSound h = IsLaidOut h.blocks × IsBelow h.brk h.blocks

-- Two blocks have no byte in common.
abbrev pub Apart : Block → Block → Type 0
Apart b c = (block_end b ≤ c.at) ⊎ (block_end c ≤ b.at)

pub IsLaidOut-append :
    (bs : List Block) (b : Block) → IsLaidOut bs → IsBelow b.at bs → IsLaidOut (bs ++ b ∷ [])
IsLaidOut-append [] b h k = (tt, tt)
IsLaidOut-append (c ∷ bs) b h k =
    (All-append _ bs (b ∷ []) h.0 (k.0, tt), IsLaidOut-append bs b h.1 k.1)

module _ (b c : Block) (same_at : c.at ≡ b.at) (same_size : c.size ≡ b.size) where
  above_swap :
      (p : Ptr) (pre post : List Block)
      → All (λ d. p ≤ d.at) (pre ++ b ∷ post)
      → All (λ d. p ≤ d.at) (pre ++ c ∷ post)
  above_swap p [] post h = (omega (arith, h.0, same_at), h.1)
  above_swap p (d ∷ pre) post h = (h.0, above_swap p pre post h.1)

  -- A block may change but for its place.
  pub IsLaidOut-swap :
      (pre post : List Block) → IsLaidOut (pre ++ b ∷ post) → IsLaidOut (pre ++ c ∷ post)
  IsLaidOut-swap [] post h =
      (All-map _ _ post (λ d k. omega (arith, k, same_at, same_size)) h.0, h.1)
  IsLaidOut-swap (d ∷ pre) post h =
      (above_swap (block_end d) pre post h.0, IsLaidOut-swap pre post h.1)

  pub IsBelow-swap :
      (p : Ptr) (pre post : List Block) → IsBelow p (pre ++ b ∷ post) → IsBelow p (pre ++ c ∷ post)
  IsBelow-swap p [] post h = (omega (arith, h.0, same_at, same_size), h.1)
  IsBelow-swap p (d ∷ pre) post h = (h.0, IsBelow-swap p pre post h.1)

middle : (P : Block → Type 0) (pre post : List Block) (b : Block) → All P (pre ++ b ∷ post) → P b
middle P [] post b h = h.0
middle P (c ∷ pre) post b h = middle P pre post b h.1

-- A block of the list is apart from all others.
pub IsLaidOut-Apart :
    (pre post : List Block) (b : Block) → IsLaidOut (pre ++ b ∷ post) → All (Apart b) (pre ++ post)
IsLaidOut-Apart [] post b h = All-map _ _ post (λ c k. inl k) h.0
IsLaidOut-Apart (c ∷ pre) post b h = (inr (middle _ pre post b h.0), IsLaidOut-Apart pre post b h.1)
