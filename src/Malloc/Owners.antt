-- ===== src/Malloc/Owners.antt =====
-- Which blocks the pointers keep while the heap changes, and which bytes `memmove` brings.
use ftf_interview.Base.{
  ℕ, zero, suc, ◌+◌, ◌-◌, ◌≡◌, ◌≤◌, ◌<◌, refl, ap, sym, subst, ◌∙◌, ◌⊎◌, inl, inr, true, false,
  ◌&&◌, some, List, [], ◌∷◌, ◌++◌, ◌==◌, leb, ltb, arith, All, Ptr, Bool-cases, get_elem?, All-get,
  some-injective, append-nil,
}
use ftf_interview.Malloc.{Block, payload, block_of, memmove}
use ftf_interview.Malloc.Layout.{IsBelow, IsLaidOut, Apart, IsLaidOut-Apart}
use ftf_interview.Malloc.Allocates.{Allocates, Allocates-IsLaidOut}

-- A block keeps its owner when another block's `is_free` changes.
owned_in :
    (p : Ptr) (front back : List Block) (c d b : Block)
    → c.at ≡ d.at
    → block_of p (front ++ c ∷ back) ≡ some b
    → (b' : Block) × (block_of p (front ++ d ∷ back) ≡ some b')
unfolding block_of
owned_in p [] back c d b same e = elim (Bool-cases (payload d == p)) [
  | inl y ↦ (d, rw (y, block_of) refl)
  | inr n ↦ (b, ground (arith, n, e, same))
]
owned_in p (f ∷ front) back c d b same e = elim (Bool-cases (payload f == p)) [
  | inl y ↦ (f, rw (y, block_of) refl)
  | inr n ↦
      let (b', e') = owned_in p front back c d b same (ground (arith, n, e)) in
      (b', rw (n, block_of) e')
]

owned_append :
    (p : Ptr) (bs more : List Block) (b : Block)
    → block_of p bs ≡ some b
    → block_of p (bs ++ more) ≡ some b
unfolding block_of
owned_append p [] more b e = ground arith
owned_append p (c ∷ bs) more b e = elim (Bool-cases (payload c == p)) [
  | inl y ↦ ground (arith, y, e)
  | inr n ↦ ground (arith, n, e, owned_append p bs more b)
]

-- An allocation leaves every pointer its block.
pub still_owned :
    (brk brk' : Ptr) (size : ℕ) (bs bs' : List Block) (p q : Ptr) (b : Block)
    → Allocates brk size bs q bs' brk'
    → block_of p bs ≡ some b
    → (b' : Block) × (block_of p bs' ≡ some b')
still_owned brk brk' size bs bs' p q b a e = elim a.before [
  | inl (f, m) ↦
      let (b', e') =
        owned_in p a.front a.back (record a.block { is_free = true }) a.block b refl
          (ap (block_of p) (sym f) ∙ e) in
      (b', ap (block_of p) a.after ∙ e')
  | inr (f, nil, s, k, m) ↦ (
    b,
    ap (block_of p) a.after
        ∙ owned_append p a.front (a.block ∷ a.back) b (ap (block_of p) (sym f) ∙ e),
  )
]

-- What holds of all blocks but a free one holds of each block in use.
in_use_elsewhere :
    (P : Block → Type 0) (front back : List Block) (d c : Block) (j : ℕ)
    → d.is_free ≡ true
    → c.is_free ≡ false
    → All P (front ++ back)
    → get_elem? (front ++ d ∷ back) j ≡ some c
    → P c
in_use_elsewhere P [] back d c zero f u all e = ground (arith, f, u, e)
in_use_elsewhere P [] back d c (suc j) f u all e = All-get P back j c all e
in_use_elsewhere P (b ∷ front) back d c zero f u all e = subst P (some-injective b c e) all.0
in_use_elsewhere P (b ∷ front) back d c (suc j) f u all e =
    in_use_elsewhere P front back d c j f u all.1 e

-- The block that an allocation returns is apart from every block that was in use.
pub Allocates-Apart :
    (brk brk' : Ptr) (size : ℕ) (bs bs' : List Block) (q : Ptr) (c : Block) (j : ℕ)
    → IsBelow brk bs
    → IsLaidOut bs
    → (a : Allocates brk size bs q bs' brk') → get_elem? bs j ≡ some c
    → c.is_free ≡ false
    → Apart a.block c
Allocates-Apart brk brk' size bs bs' q c j g h a e u =
    let others =
      IsLaidOut-Apart a.front a.back a.block
        (subst IsLaidOut a.after (Allocates-IsLaidOut brk brk' size bs bs' q g h a)) in
    elim a.before [
      | inl (f, m) ↦
          in_use_elsewhere (Apart a.block) a.front a.back (record a.block { is_free = true }) c j
            refl u others (ap (λ l. get_elem? l j) (sym f) ∙ e)
      | inr (f, nil, s, k, m) ↦
          let same : a.front ++ a.back ≡ bs =
            ap (λ l. a.front ++ l) nil ∙ append-nil a.front ∙ sym f in
          All-get (Apart a.block) (a.front ++ a.back) j c others (ap (λ l. get_elem? l j) same ∙ e)
    ]

pub memmove_in : (q p n i : ℕ) (mem : Ptr → ℕ) → i < n → memmove q p n mem (q + i) ≡ mem (p + i)
unfolding memmove
memmove_in q p n i mem lt =
    let inside : (leb q (q + i) && ltb (q + i) (q + n)) ≡ true = ground arith in
    let at : p + (q + i - q) ≡ p + i = omega arith in rw inside (ap mem at)

pub memmove_out :
    (q p n x : ℕ) (mem : Ptr → ℕ) → (x < q) ⊎ (q + n ≤ x) → memmove q p n mem x ≡ mem x
unfolding memmove
memmove_out q p n x mem out = ground arith
