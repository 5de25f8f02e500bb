-- ===== src/Arena/Fits.antt =====
-- malloc_2.cpp: the loops of smallocSbrk and smallocMmap that look for a block.
use ftf_interview.Base.{
  ℕ, zero, suc, ◌≡◌, ◌≢◌, ◌<◌, refl, ap, subst, ◌⊎◌, inl, inr, Bool, true, false, ◌&&◌, Option,
  none, some, List, [], ◌∷◌, ◌++◌, leb, length, All, Bool-cases, Ptr, null, ==_ne, arith,
}
use ftf_interview.Arena.{Meta, Arena, Run, find_fit}
use ftf_interview.Arena.Linked.{Linked, done, link, load-ok}

-- A block is free and large enough.
abbrev pub fits : (size : ℕ) → Meta → Bool
fits size b = leb size b.size && b.is_free

-- No block fits, or q holds the first one that does.
unfoldable pub IsFirstFit : (size : ℕ) → (bs : List Meta) → Arena → Run (Option Ptr) → Type 0
IsFirstFit size bs s r =
    ((r ≡ Run.ok none s) × All (λ b. fits size b ≡ false) bs)
    ⊎ ((q : Ptr) × ((b : Meta) × ((front : List Meta) × ((behind : List Meta) × ((r
                  ≡ Run.ok (some q) s)
                × ((s.metas q ≡ some b)
                    × ((bs ≡ front ++ b ∷ behind)
                        × ((fits size b ≡ true) × All (λ c. fits size c ≡ false) front))))))))

skip_block :
    (size : ℕ) (b : Meta) (bs : List Meta) (s : Arena) (r : Run (Option Ptr))
    → fits size b ≡ false
    → IsFirstFit size bs s r
    → IsFirstFit size (b ∷ bs) s r
unfolding IsFirstFit
skip_block size b bs s r out (inl (e, a)) = inl (e, (out, a))
skip_block size b bs s r out (inr (q, (c, (front, (behind, (e, (m, (d, (f, a))))))))) =
    inr (q, (c, (b ∷ front, (behind, (e, (m, (ap (λ l. b ∷ l) d, (f, (out, a)))))))))

-- One round of the loop, at a block.
round-skips :
    (fuel size : ℕ) (p : Ptr) (b : Meta) (s : Arena)
    → p ≢ null
    → s.metas p ≡ some b
    → fits size b ≡ false
    → find_fit fuel size b.next s ≡ find_fit (suc fuel) size p s
unfolding find_fit
round-skips fuel size p b s ne at out = rw (==_ne p null ne, load-ok p b s ne at, out) refl

round-hits :
    (fuel size : ℕ) (p : Ptr) (b : Meta) (s : Arena)
    → p ≢ null
    → s.metas p ≡ some b
    → fits size b ≡ true
    → find_fit (suc fuel) size p s ≡ Run.ok (some p) s
unfolding find_fit
round-hits fuel size p b s ne at hit = rw (==_ne p null ne, load-ok p b s ne at, hit) refl

-- Over a list that ends, with fuel above its length, the loop that looks for a block ends: with
-- the first free block of at least the size, or with none where there is no such block.
pub find_fit-IsFirstFit :
    (fuel size : ℕ) (p : Ptr) (bs : List Meta) (s : Arena)
    → Linked s.metas p bs
    → length bs < fuel
    → IsFirstFit size bs s (find_fit fuel size p s)
unfolding find_fit IsFirstFit
find_fit-IsFirstFit zero size p bs s l h = absurd (omega (arith, h))
find_fit-IsFirstFit (suc fuel) size p [] s done h = inl (refl, tt)
find_fit-IsFirstFit (suc fuel) size p (b ∷ bs) s (link ne at rest) h =
    elim (Bool-cases (fits size b)) [
      | inl y ↦
          inr (p, (b, ([], (bs, (round-hits fuel size p b s ne at y, (at, (refl, (y, tt))))))))
      | inr n ↦ subst (IsFirstFit size (b ∷ bs) s) (round-skips fuel size p b s ne at n) (
          skip_block size b bs s (find_fit fuel size b.next s) n
            (find_fit-IsFirstFit fuel size b.next bs s rest (omega (arith, h))))
    ]
