-- ===== src/Malloc/Allocates.antt =====
-- What `smalloc` allocates.
use ftf_interview.Base.{
  ℕ, ◌≡◌, ◌≤◌, ◌<◌, refl, ap, sym, subst, ◌∙◌, ◌⊎◌, inl, inr, Bool, true, false, ◌&&◌, ◌||◌, none,
  some, List, [], ◌∷◌, ◌++◌, ◌==◌, leb, ltb, arith, All, All-append, All-map, ◌+◌, Ptr, null,
  Bool-cases,
}
use ftf_interview.Malloc.{
  sbrk, metadata, Block, Heap, payload, max_size, reuse, extend, take_or_extend, smalloc,
}
use ftf_interview.Malloc.Layout.{
  block_end, IsBelow-swap, IsBelow, IsLaidOut, IsLaidOut-append, IsLaidOut-swap,
}

-- The test of the search.
abbrev pub fits : ℕ → Block → Bool
fits size b = leb size b.size && b.is_free

-- The list before and after an allocation that returns `q`: the first block that is free and large
-- enough is taken, or a block of the size is put at the end, between the old program break
-- and the new one.
pub record Allocates (brk : Ptr) (size : ℕ) (bs : List Block) (q : Ptr) (bs' : List Block)
    (brk' : Ptr) : Type 0 where
  pub front : List Block
  pub block : Block
  pub back : List Block
  pub after : bs' ≡ front ++ block ∷ back
  pub pointer : q ≡ payload block
  pub in_use : block.is_free ≡ false
  pub enough : size ≤ block.size
  pub first : All (λ c. fits size c ≡ false) front
  pub before :
      ((bs ≡ front ++ record block { is_free = true } ∷ back) × (brk' ≡ brk))
      ⊎ ((bs ≡ front)
          × (back ≡ [])
          × (brk ≡ block.at)
          × (block.size ≡ size)
          × (brk' ≡ block_end block))

-- What the search finds.
record Found (size : ℕ) (bs : List Block) : Type 0 where
  pub front : List Block
  pub block : Block
  pub back : List Block
  pub list : bs ≡ front ++ block ∷ back
  pub result :
      reuse size bs ≡ some (payload block, front ++ record block { is_free = false } ∷ back)
  pub first : All (λ c. fits size c ≡ false) front
  pub free : block.is_free ≡ true
  pub enough : size ≤ block.size

Found-behind :
    (size : ℕ) (c : Block) (bs : List Block)
    → fits size c ≡ false
    → Found size bs
    → Found size (c ∷ bs)
unfolding reuse
Found-behind size c bs n f = record {
  front = c ∷ f.front;
  block = f.block;
  back = f.back;
  list = ap (λ l. c ∷ l) f.list;
  result = rw (n, reuse) (rw f.result refl);
  first = (n, f.first);
  free = f.free;
  enough = f.enough;
}

search :
    (size : ℕ) (bs : List Block)
    → ((reuse size bs ≡ none) × All (λ c. fits size c ≡ false) bs) ⊎ Found size bs
unfolding reuse
search size [] = inl (refl, tt)
search size (c ∷ bs) = elim (Bool-cases (fits size c)) [
  | inl y ↦ inr (record {
    front = [];
    block = c;
    back = bs;
    list = refl;
    result = rw (y, reuse) refl;
    first = tt;
    free = ground arith;
    enough = ground arith;
  })
  | inr n ↦ elim (search size bs) [
    | inl (e, all) ↦ inl (rw (n, reuse) (rw e refl), (n, all))
    | inr f ↦ inr (Found-behind size c bs n f)
  ]
]

-- The two ends of a call for a size that `smalloc` takes.
unfoldable pub Gives : (grants : Bool) → ℕ → Heap → Ptr × Heap → Type 0
Gives grants size h r =
    ((r ≡ (null, h)) × (grants ≡ false) × All (λ c. fits size c ≡ false) h.blocks)
    ⊎ (Allocates h.brk size h.blocks r.0 r.1.blocks r.1.brk × (r.1.mem ≡ h.mem))

free_again : (b : Block) → b.is_free ≡ true → b ≡ record b { is_free = true }
free_again b e = ap (λ f. record b { is_free = f }) e

extend-Gives :
    (grants : Bool) (size : ℕ) (h : Heap)
    → All (λ c. fits size c ≡ false) h.blocks
    → Gives grants size h (extend size (sbrk grants (size + metadata) h))
unfolding extend sbrk Gives
extend-Gives false size h n = inl (refl, refl, n)
extend-Gives true size h n = inr (
  record {
    front = h.blocks;
    block = record { at = h.brk; size = size; is_free = false };
    back = [];
    after = refl;
    pointer = refl;
    in_use = refl;
    enough = omega arith;
    first = n;
    before = inr (refl, refl, refl, refl, omega arith);
  },
  refl,
)

take_or_extend-Gives :
    (grants : Bool) (size : ℕ) (h : Heap)
    → Gives grants size h (take_or_extend (reuse size h.blocks) grants size h)
unfolding take_or_extend Gives
take_or_extend-Gives grants size h = elim (search size h.blocks) [
  | inl (e, n) ↦ rw (e, take_or_extend) (extend-Gives grants size h n)
  | inr f ↦
      rw (f.result, take_or_extend)
        (inr (
          record {
            front = f.front;
            block = record f.block { is_free = false };
            back = f.back;
            after = refl;
            pointer = refl;
            in_use = refl;
            enough = f.enough;
            first = f.first;
            before =
                inl (f.list ∙ ap (λ b. f.front ++ b ∷ f.back) (free_again f.block f.free), refl);
          },
          refl,
        ))
]

-- For a size from 1 to the bound, smalloc returns NULL and changes nothing, which it does only
-- where the system grants nothing and no free block is large enough; or it takes the first free
-- block that is large enough; or, where there is none, it puts a block of the size at the end, at
-- the program break, which moves to the end of that block, and which does not move otherwise. No
-- other block and no byte changes.
pub smalloc-Gives :
    (grants : Bool) (size : ℕ) (h : Heap)
    → 0 < size
    → size ≤ max_size
    → Gives grants size h (smalloc grants size h)
unfolding smalloc
smalloc-Gives grants size h pos le =
    let takes : (size == 0 || ltb max_size size) ≡ false = ground arith in
    rw takes (take_or_extend-Gives grants size h)

pub Allocates-IsLaidOut :
    (brk brk' : Ptr) (size : ℕ) (bs bs' : List Block) (q : Ptr)
    → IsBelow brk bs
    → IsLaidOut bs
    → Allocates brk size bs q bs' brk'
    → IsLaidOut bs'
Allocates-IsLaidOut brk brk' size bs bs' q g h a = subst IsLaidOut (sym a.after) (elim a.before [
  | inl (e, m) ↦
      IsLaidOut-swap (record a.block { is_free = true }) a.block refl refl a.front a.back
        (subst IsLaidOut e h)
  | inr (e, nil, s, k, m) ↦ rw nil (
      IsLaidOut-append a.front a.block (subst IsLaidOut e h)
        (subst (λ p. IsBelow p a.front) s (subst (IsBelow brk) e g)))
])

pub Allocates-IsBelow :
    (brk brk' : Ptr) (size : ℕ) (bs bs' : List Block) (q : Ptr)
    → IsBelow brk bs
    → Allocates brk size bs q bs' brk'
    → IsBelow brk' bs'
Allocates-IsBelow brk brk' size bs bs' q g a = subst (IsBelow brk') (sym a.after) (elim a.before [
  | inl (e, m) ↦
      subst (λ p. IsBelow p (a.front ++ a.block ∷ a.back)) (sym m)
        (IsBelow-swap (record a.block { is_free = true }) a.block refl refl brk a.front a.back
          (subst (IsBelow brk) e g))
  | inr (e, nil, s, k, m) ↦ rw nil (
      All-append _ a.front (a.block ∷ [])
        (All-map _ _ a.front (λ b le. omega (arith, le, s, m)) (subst (IsBelow brk) e g))
        (omega (arith, m), tt))
])
