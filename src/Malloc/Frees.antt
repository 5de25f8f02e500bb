-- ===== src/Malloc/Frees.antt =====
-- What `sfree` frees.
use ftf_interview.Base.{
  ◌≡◌, refl, ap, sym, subst, inl, inr, true, false, some, List, [], ◌∷◌, ◌++◌, ◌==◌, arith, Ptr,
  null, Bool-cases,
}
use ftf_interview.Malloc.{Block, Heap, payload, block_of, free_at, sfree}
use ftf_interview.Malloc.Layout.{IsBelow, IsBelow-swap, IsLaidOut, IsLaidOut-swap}

-- The block of a pointer, in its list.
pub record Owner (p : Ptr) (bs : List Block) (b : Block) : Type 0 where
  pub front : List Block
  pub back : List Block
  pub list : bs ≡ front ++ b ∷ back
  pub pointer : payload b ≡ p
  pub freed : free_at p bs ≡ front ++ record b { is_free = true } ∷ back

pub block_of-Owner : (p : Ptr) (bs : List Block) (b : Block) → block_of p bs ≡ some b → Owner p bs b
unfolding block_of free_at
block_of-Owner p [] b e = ground arith
block_of-Owner p (c ∷ bs) b e = elim (Bool-cases (payload c == p)) [
  | inl y ↦
      let same : c ≡ b = ground (arith, y, e) in
      subst (Owner p (c ∷ bs)) same (record {
        front = [];
        back = bs;
        list = refl;
        pointer = ground arith;
        freed = rw (y, free_at) refl;
      })
  | inr n ↦
      let o = block_of-Owner p bs b (ground (arith, n, e)) in
      record {
        front = c ∷ o.front;
        back = o.back;
        list = ap (λ l. c ∷ l) o.list;
        pointer = o.pointer;
        freed = rw (n, free_at) (ap (λ l. c ∷ l) o.freed);
      }
]

pub pointer_not_null : (p : Ptr) (bs : List Block) (b : Block) → Owner p bs b → (p == null) ≡ false
pointer_not_null p bs b o = ground (arith, o.pointer)

-- sfree of the pointer to a block in use marks that block free and changes nothing else.
pub sfree-Owner :
    (p : Ptr) (h : Heap) (b : Block)
    → block_of p h.blocks ≡ some b
    → b.is_free ≡ false
    → (o : Owner p h.blocks b) × (sfree p h
        ≡ some (record h { blocks = o.front ++ record b { is_free = true } ∷ o.back }))
unfolding sfree
sfree-Owner p h b e u =
    let o = block_of-Owner p h.blocks b e in
    (
      o,
      rw (pointer_not_null p h.blocks b o, sfree)
          (rw e (rw u (ap (λ bs. some (record h { blocks = bs })) o.freed))),
    )

-- Whatever `sfree` does to the list, it keeps the bytes and where the blocks lie.
pub sfree_keeps :
    (p : Ptr) (h : Heap) (b : Block)
    → block_of p h.blocks ≡ some b
    → (h' : Heap) × (sfree p h ≡ some h') × (h'.mem ≡ h.mem)
unfolding sfree
sfree_keeps p h b e =
    let o = block_of-Owner p h.blocks b e in
    elim (Bool-cases b.is_free) [
      | inl f ↦ (h, rw (pointer_not_null p h.blocks b o, sfree) (rw e (rw f refl)), refl)
      | inr u ↦ (
        record h { blocks = free_at p h.blocks },
        rw (pointer_not_null p h.blocks b o, sfree) (rw e (rw u refl)),
        refl,
      )
    ]

pub free_at-IsLaidOut :
    (p : Ptr) (bs : List Block) (b : Block)
    → block_of p bs ≡ some b
    → IsLaidOut bs
    → IsLaidOut (free_at p bs)
free_at-IsLaidOut p bs b e h =
    let o = block_of-Owner p bs b e in
    subst IsLaidOut (sym o.freed) (
      IsLaidOut-swap b (record b { is_free = true }) refl refl o.front o.back
        (subst IsLaidOut o.list h))

pub free_at-IsBelow :
    (p q : Ptr) (bs : List Block) (b : Block)
    → block_of p bs ≡ some b
    → IsBelow q bs
    → IsBelow q (free_at p bs)
free_at-IsBelow p q bs b e h =
    let o = block_of-Owner p bs b e in
    subst (IsBelow q) (sym o.freed) (
      IsBelow-swap b (record b { is_free = true }) refl refl q o.front o.back
        (subst (IsBelow q) o.list h))
