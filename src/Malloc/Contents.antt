-- ===== src/Malloc/Contents.antt =====
-- The bytes that `srealloc` moves, and those that it keeps.
use ftf_interview.Base.{
  ℕ, ◌+◌, ◌-◌, ◌^◌, ◌≡◌, ◌≤◌, ◌<◌, ◌≢◌, refl, ap, sym, subst, ◌∙◌, inl, inr, true, false, ◌||◌,
  Bool, none, some, ◌==◌, leb, ltb, arith, Ptr, null, get_elem?, if_false, if_ind, ◌*◌, ◌%◌,
}
use ftf_interview.Malloc.{
  Block, Heap, payload, max_size, block_of, smalloc, clear, memset, scalloc, memmove, move_to,
  srealloc, with_block,
}
use ftf_interview.Malloc.Layout.{IsSound, block_end}
use ftf_interview.Malloc.Allocates.{Allocates, Gives, smalloc-Gives}
use ftf_interview.Malloc.Frees.{sfree_keeps, block_of-Owner}
use ftf_interview.Malloc.Owners.{still_owned, Allocates-Apart, memmove_in, memmove_out}

-- What `srealloc` does with a block that it was given.
moves :
    (p size : ℕ) (r : Ptr × Heap) (b : Block)
    → block_of p r.1.blocks ≡ some b
    → 0 < r.0
    → r.0 < 2 ^ 64 - 1
    → p + size ≤ r.1.brk
    → (h' : Heap) × (move_to p size r ≡ some (r.0, h')) × (h'.mem ≡ memmove r.0 p size r.1.mem)
unfolding move_to
moves p size r b e pos small room =
    let (h', s, m) = sfree_keeps p (record r.1 { mem = memmove r.0 p size r.1.mem }) b e in
    let top : (r.0 == 2 ^ 64 - 1) ≡ false = ground arith in
    let no_null : (r.0 == null) ≡ false = ground arith in
    let fits : ltb r.1.brk (p + size) ≡ false = ground (arith, room) in
    (h', rw (top, move_to) (rw no_null (rw fits (rw s refl))), m)

faults : (p size : ℕ) (r : Ptr × Heap) → r.0 ≡ null → move_to p size r ≡ none
unfolding move_to
faults p size r n =
    let top : (r.0 == 2 ^ 64 - 1) ≡ false = ground arith in
    let is_null : (r.0 == null) ≡ true = ground arith in rw (top, move_to) (rw is_null refl)

grows :
    (grants : Bool) (p size : ℕ) (h : Heap) (b : Block)
    → block_of p h.blocks ≡ some b
    → 0 < p
    → b.size < size
    → size ≤ max_size
    → srealloc grants p size h ≡ move_to p size (smalloc grants size h)
unfolding srealloc with_block
grows grants p size h b e pos lt le =
    let takes : (size == 0 || ltb max_size size) ≡ false = ground arith in
    let no_null : (p == null) ≡ false = ground arith in
    let larger : leb size b.size ≡ false = ground arith in
    if_false _ (some (null, h)) _ takes
    ∙ if_false _ (some (smalloc grants size h)) _ no_null
    ∙ subst (λ o. with_block grants p size h o ≡ move_to p size (smalloc grants size h)) (sym e)
        (if_false _ (some (p, h)) _ larger)

-- `srealloc` to a larger size that `smalloc` can allocate returns the new block, whose bytes are
-- those that `memmove` brings.
srealloc_lem :
    (grants : Bool) (p size : ℕ) (h : Heap) (b : Block)
    → block_of p h.blocks ≡ some b
    → b.size < size
    → size ≤ max_size
    → (a : Allocates h.brk size h.blocks
        (smalloc grants size h).0
        (smalloc grants size h).1.blocks
        (smalloc grants size h).1.brk)
    → (smalloc grants size h).1.mem ≡ h.mem
    → payload a.block < 2 ^ 64 - 1
    → p + size ≤ (smalloc grants size h).1.brk
    → (h' : Heap) × (srealloc grants p size h ≡ some (payload a.block, h'))
      × (h'.mem ≡ memmove (payload a.block) p size h.mem)
srealloc_lem grants p size h b e lt le a same small room =
    let r = smalloc grants size h in
    let (b', e') = still_owned h.brk r.1.brk size h.blocks r.1.blocks p r.0 b a e in
    let o = block_of-Owner p h.blocks b e in
    let (h', m, k) =
      moves p size r b' e' (omega (arith, a.pointer)) (omega (arith, a.pointer, small)) room in
    (
      h',
      grows grants p size h b e (omega (arith, o.pointer)) lt le
          ∙ m
          ∙ ap (λ q. some (q, h')) a.pointer,
      k ∙ ap (λ q. memmove q p size r.1.mem) a.pointer ∙ ap (memmove (payload a.block) p size) same,
    )

-- In a heap whose blocks lie one behind the other below the program break: srealloc of a pointer
-- to a larger size that is at most the bound, where smalloc returns a pointer other than NULL and
-- below 2^64 - 1, and where that many bytes from the old pointer end at most at the break, returns
-- that pointer; each byte of the old block is found there, and each byte of each block that was in
-- use is unchanged.
pub srealloc_grows :
    (grants : Bool) (p size : ℕ) (h : Heap) (b : Block)
    → IsSound h
    → block_of p h.blocks ≡ some b
    → b.size < size
    → size ≤ max_size
    → (smalloc grants size h).0 ≢ null
    → (smalloc grants size h).0 < 2 ^ 64 - 1
    → p + size ≤ (smalloc grants size h).1.brk
    → (i : ℕ) → i < b.size
    → (j x : ℕ) (c : Block) → get_elem? h.blocks j ≡ some c
    → c.is_free ≡ false
    → payload c ≤ x
    → x < block_end c
    → (h' : Heap) × (srealloc grants p size h ≡ some ((smalloc grants size h).0, h'))
      × (h'.mem ((smalloc grants size h).0 + i) ≡ h.mem (p + i))
      × (h'.mem x ≡ h.mem x)
unfolding Gives
srealloc_grows grants p size h b (l, g) e lt le nn small room i ib j x c at u lo hi =
    elim (smalloc-Gives grants size h (omega arith) le) [
      | inl z ↦ absurd (nn (ap (λ r. r.0) z.0))
      | inr (a, same) ↦
          let (h', s, m) =
            srealloc_lem grants p size h b e lt le a same (omega (arith, a.pointer, small)) room in
          let q = payload a.block in
          (
            h',
            s ∙ ap (λ r. some (r, h')) (sym a.pointer),
            ap (λ r. h'.mem (r + i)) a.pointer
                ∙ ap (λ f. f (q + i)) m
                ∙ memmove_in q p size i h.mem (omega arith),
            ap (λ f. f x) m
                ∙ memmove_out q p size x h.mem
                    (elim (Allocates-Apart h.brk _ size h.blocks _ _ c j g l a at u) [
                      | inl behind ↦ inr (omega (arith, a.enough, behind, lo))
                      | inr before ↦ inl (omega (arith, before, hi))
                    ]),
          )
    ]

-- Where srealloc of a pointer to a larger size that is at most the bound gets NULL from smalloc,
-- NULL goes to memmove: its behaviour is undefined.
srealloc_faults :
    (grants : Bool) (p size : ℕ) (h : Heap) (b : Block)
    → block_of p h.blocks ≡ some b
    → b.size < size
    → size ≤ max_size
    → (smalloc grants size h).0 ≡ null
    → srealloc grants p size h ≡ none
unfolding move_to
srealloc_faults grants p size h b e lt le n =
    let o = block_of-Owner p h.blocks b e in
    grows grants p size h b e (omega (arith, o.pointer)) lt le
    ∙ faults p size (smalloc grants size h) n

-- Where smalloc returns a pointer other than NULL and -1 and the new size from the old pointer
-- reaches beyond the break, memmove reads beyond it: the behaviour is undefined.
srealloc_overreads :
    (grants : Bool) (p size : ℕ) (h : Heap) (b : Block)
    → block_of p h.blocks ≡ some b
    → b.size < size
    → size ≤ max_size
    → (smalloc grants size h).0 ≢ null
    → (smalloc grants size h).0 < 2 ^ 64 - 1
    → (smalloc grants size h).1.brk < p + size
    → srealloc grants p size h ≡ none
unfolding move_to
srealloc_overreads grants p size h b e lt le nn small over =
    let r = smalloc grants size h in
    let o = block_of-Owner p h.blocks b e in
    let top : (r.0 == 2 ^ 64 - 1) ≡ false = ground (arith, small) in
    let no_null : (r.0 == null) ≡ false = ground (arith, nn) in
    let beyond : ltb r.1.brk (p + size) ≡ true = ground (arith, over) in
    grows grants p size h b e (omega (arith, o.pointer)) lt le
    ∙ rw (top, move_to) (rw no_null (rw beyond refl))

clear_pointer : (n : ℕ) (r : Ptr × Heap) → (clear n r).0 ≡ r.0
unfolding clear
clear_pointer n r =
    if_ind (λ (s : Ptr × Heap). s.0 ≡ r.0) (r.0 == null) _ _ (λ y. ground arith) (λ _. refl)

clear_zeroes : (n i : ℕ) (r : Ptr × Heap) → i < n → r.0 ≢ null → (clear n r).1.mem (r.0 + i) ≡ 0
unfolding clear memset
clear_zeroes n i r lt nn =
    if_ind (λ (s : Ptr × Heap). s.1.mem (r.0 + i) ≡ 0) (r.0 == null) _ _
      (λ y. absurd (nn (ground arith))) (λ _. ground arith)

-- Where n is the product modulo 2^64 and smalloc returns a pointer other than NULL for n, scalloc
-- returns it too, and each of the n bytes there is 0.
scalloc-smalloc :
    (grants : Bool) (num size n : ℕ) (h : Heap) (i : ℕ)
    → n ≡ size * num % 2 ^ 64
    → (smalloc grants n h).0 ≢ null
    → i < n
    → ((scalloc grants num size h).0 ≡ (smalloc grants n h).0)
      × ((scalloc grants num size h).1.mem ((smalloc grants n h).0 + i) ≡ 0)
unfolding scalloc
scalloc-smalloc grants num size n h i e nn lt =
    subst
      (λ k.
        ((clear k (smalloc grants k h)).0 ≡ (smalloc grants n h).0)
        × ((clear k (smalloc grants k h)).1.mem ((smalloc grants n h).0 + i) ≡ 0))
      e (clear_pointer n (smalloc grants n h), clear_zeroes n i (smalloc grants n h) lt nn)
