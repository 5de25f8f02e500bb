-- ===== src/Arena/Linked.antt =====
-- malloc_2.cpp: the blocks that a list of the memory links together.
use ftf_interview.Base.{
  ℕ, zero, suc, ◌&&◌, ◌+◌, ◌%◌, ◌^◌, ◌<◌, ◌≡◌, ◌≢◌, refl, ap, ◌∙◌, false, some, List, [], ◌∷◌, ◌==◌,
  length, total, Ptr, null, Store, ==_ne, arith,
}
use ftf_interview.Arena.{Meta, Arena, Run, load}
use ftf_interview.Arena.Statistics.{sum_list, sum_both, value_at}

-- The list that begins at an address, up to the null pointer.
pub data Linked (m : Store Meta) : Ptr → List Meta → Type 0 where
  done : Linked m null []
  link :
      {p : Ptr} {b : Meta} {bs : List Meta}
      → p ≢ null
      → m p ≡ some b
      → Linked m b.next bs
      → Linked m p (b ∷ bs)

pub load-ok :
    (p : Ptr) (b : Meta) (s : Arena) → p ≢ null → s.metas p ≡ some b → load p s ≡ Run.ok b s
unfolding load
load-ok p b s ne at = rw (load, at, ==_ne p null ne) refl

add_word : (x y z : ℕ) → ((x + y) % 2 ^ 64 + z) % 2 ^ 64 ≡ (x + (y + z)) % 2 ^ 64
add_word x y z = omega arith

-- Over a list that ends, the loop of a statistic adds up what its blocks count.
pub sum_list-total :
    (f : Meta → ℕ) (fuel : ℕ) (p : Ptr) (sum : ℕ) (bs : List Meta) (s : Arena)
    → Linked s.metas p bs
    → length bs < fuel
    → sum < 2 ^ 64
    → sum_list f fuel p sum s ≡ Run.ok ((sum + total f bs) % 2 ^ 64) s
unfolding sum_list total
sum_list-total f zero p sum bs s l h w = absurd (omega (arith, h))
sum_list-total f (suc fuel) p sum [] s done h w = ap (λ n. Run.ok n s) (omega (arith, w))
sum_list-total f (suc fuel) p sum (b ∷ bs) s (link ne at rest) h w =
    rw (==_ne p null ne, load-ok p b s ne at)
      (sum_list-total f fuel b.next ((sum + f b) % 2 ^ 64) bs s rest (omega (arith, h))
          (omega arith)
        ∙ ap (λ n. Run.ok n s) (add_word sum (f b) (total f bs)))

-- An iterator that stands before a block.
value_at-block :
    (f : Meta → ℕ) (p : Ptr) (b : Meta) (s : Arena)
    → p ≢ null
    → s.metas p ≡ some b
    → value_at f p s ≡ Run.ok (f b, b.next) s
unfolding value_at
value_at-block f p b s ne at = rw (==_ne p null ne, load-ok p b s ne at) refl

-- What the iterator gives and where it goes, from the blocks before it.
abbrev value_of : (Meta → ℕ) → List Meta → ℕ
value_of f [] = 0
value_of f (b ∷ bs) = f b

abbrev rest_of : List Meta → List Meta
rest_of [] = []
rest_of (b ∷ bs) = bs

value_at-Linked :
    (f : Meta → ℕ) (p : Ptr) (bs : List Meta) (s : Arena)
    → Linked s.metas p bs
    → (q : Ptr) × ((value_at f p s ≡ Run.ok (value_of f bs, q) s) × Linked s.metas q (rest_of bs))
unfolding value_at
value_at-Linked f p [] s done = (null, (refl, done))
value_at-Linked f p (b ∷ bs) s (link ne at rest) = (b.next, (value_at-block f p b s ne at, rest))

at_value : (f : Meta → ℕ) (bs : List Meta) → value_of f bs + total f (rest_of bs) ≡ total f bs
unfolding total
at_value f [] = refl
at_value f (b ∷ bs) = refl

-- One round of the loop over both lists, where one of them has a block.
sum_both-round :
    (f : Meta → ℕ) (fuel : ℕ) (p q sum : ℕ) (bs cs : List Meta) (s : Arena)
    → Linked s.metas p bs
    → Linked s.metas q cs
    → ((p == null) && (q == null)) ≡ false
    → (p' : Ptr) × ((q' : Ptr) × ((sum_both f (suc fuel) p q sum s
            ≡ sum_both f fuel p' q' ((sum + (value_of f cs + value_of f bs)) % 2 ^ 64) s)
          × (Linked s.metas p' (rest_of bs) × Linked s.metas q' (rest_of cs))))
unfolding sum_both
sum_both-round f fuel p q sum bs cs s l k more =
    let (p', (e, l')) = value_at-Linked f p bs s l in
    let (q', (d, k')) = value_at-Linked f q cs s k in (p', (q', (rw (more, e, d) refl, (l', k'))))

-- The round with what the rounds behind it come to.
sum_both-behind :
    (f : Meta → ℕ) (fuel : ℕ) (p q sum : ℕ) (bs cs : List Meta) (s : Arena)
    → Linked s.metas p bs
    → Linked s.metas q cs
    → ((p == null) && (q == null)) ≡ false
    → ((p' q' sum' : ℕ)
        → Linked s.metas p' (rest_of bs)
        → Linked s.metas q' (rest_of cs)
        → sum' < 2 ^ 64
        → sum_both f fuel p' q' sum' s
          ≡ Run.ok ((sum' + (total f (rest_of bs) + total f (rest_of cs))) % 2 ^ 64) s)
    → sum_both f (suc fuel) p q sum s ≡ Run.ok ((sum + (total f bs + total f cs)) % 2 ^ 64) s
sum_both-behind f fuel p q sum bs cs s l k more behind =
    let (p', (q', (e, (l', k')))) = sum_both-round f fuel p q sum bs cs s l k more in
    e
    ∙ behind p' q' ((sum + (value_of f cs + value_of f bs)) % 2 ^ 64) l' k' (omega arith)
    ∙ ap (λ n. Run.ok n s) (omega (arith, at_value f bs, at_value f cs))

length-rest_of :
    (fuel : ℕ) (bs : List Meta) → length bs < suc fuel → 0 < fuel → length (rest_of bs) < fuel
length-rest_of fuel [] h g = g
length-rest_of fuel (b ∷ bs) h g = omega (arith, h)

-- Over two lists that end, the loop adds up what the blocks of both count.
pub sum_both-total :
    (f : Meta → ℕ) (fuel : ℕ) (p q sum : ℕ) (bs cs : List Meta) (s : Arena)
    → Linked s.metas p bs
    → Linked s.metas q cs
    → length bs < fuel
    → length cs < fuel
    → sum < 2 ^ 64
    → sum_both f fuel p q sum s ≡ Run.ok ((sum + (total f bs + total f cs)) % 2 ^ 64) s
unfolding sum_both total
sum_both-total f zero p q sum bs cs s l k h g w = absurd (omega (arith, h))
sum_both-total f (suc fuel) p q sum [] [] s done done h g w =
    ap (λ n. Run.ok n s) (omega (arith, w))
sum_both-total f (suc fuel) p q sum [] (c ∷ cs) s done (link ne at rest) h g w =
    sum_both-behind f fuel null q sum [] (c ∷ cs) s done (link ne at rest) (==_ne q null ne)
      (λ p' q' sum' l' k' w'.
        sum_both-total f fuel p' q' sum' [] cs s l' k' (omega (arith, g)) (omega (arith, g)) w')
sum_both-total f (suc fuel) p q sum (b ∷ bs) cs s (link ne at rest) k h g w =
    sum_both-behind f fuel p q sum (b ∷ bs) cs s (link ne at rest) k
      (ap (λ t. t && (q == null)) (==_ne p null ne))
      (λ p' q' sum' l' k' w'.
        sum_both-total f fuel p' q' sum' bs (rest_of cs) s l' k' (omega (arith, h))
          (length-rest_of fuel cs g (omega (arith, h))) w')
