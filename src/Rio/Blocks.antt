-- ===== src/Rio/Blocks.antt =====
-- `rio_readnb` and `rio_readn`: blocks of n bytes.
use ftf_interview.Base.{
  ℕ, zero, suc, ◌+◌, ◌-◌, ◌≡◌, ◌≤◌, ◌<◌, refl, ap, sym, subst, ◌∙◌, ◌⊎◌, inl, inr, List, [], ◌∷◌,
  ◌++◌, Bytes, length, take, drop, take-append, drop-append, length-append, length-take, arith,
}
use ftf_interview.Rio.{Rio, Read, Outcome, block_loop, rio_readnb, rio_readn, add_bytes}
use ftf_interview.Rio.Streams.{Ends, at_end, after_signal, after_bytes, ahead, stream, rio_read_lem}

-- The first `n` bytes of a text are taken; where there are that many, the rest is still to come.
pub record IsBlock (n : ℕ) (s : Bytes) (o : Outcome) : Type 0 where
  pub left : Rio
  pub result : o ≡ Outcome.bytes_read (take n s) left
  pub behind : (length s < n) ⊎ ((stream left ≡ drop n s) × Ends left.reads)

IsBlock-append :
    (n m : ℕ) (t s : Bytes) (o : Outcome)
    → length t + m ≡ n
    → IsBlock m s o
    → IsBlock n (t ++ s) (add_bytes t o)
IsBlock-append n m t s o e b = record {
  left = b.left;
  result =
      ap (add_bytes t) b.result
      ∙ ap (λ l. Outcome.bytes_read l b.left) (sym (take-append n m t s e));
  behind = elim b.behind [
    | inl lt ↦ inl (omega (arith, length-append t s))
    | inr (e', h) ↦ inr (e' ∙ sym (drop-append n m t s e), h)
  ];
}

loop_lem :
    (fuel n : ℕ) (r : Rio) → n ≤ fuel → Ends r.reads → IsBlock n (stream r) (block_loop fuel n r)
unfolding block_loop
loop_lem fuel zero r le h = record { left = r; result = refl; behind = inr (refl, h) }
loop_lem zero (suc n) r le h = absurd (omega arith)
loop_lem (suc fuel) (suc n) r le h = elim (rio_read_lem n r h) [
  | inl (e, r', o) ↦
      subst (λ s. IsBlock (suc n) s (block_loop (suc fuel) (suc n) r)) (sym e)
        (record { left = r'; result = rw (o, block_loop) refl; behind = inl (omega arith) })
  | inr (c, t, r', o, u, e, h') ↦
      subst (λ s. IsBlock (suc n) s (block_loop (suc fuel) (suc n) r)) (sym e)
        (rw (o, block_loop)
          (IsBlock-append (suc n) (n - length (take n t)) (c ∷ take n t) (stream r') _
            (omega (arith, length-take n t))
            (loop_lem fuel (n - length (take n t)) r' (omega arith) h')))
]

-- For a connection whose reads come to the end of the file, in whatever pieces, rio_readnb ends
-- within fuel of n and returns the first n bytes of the stream, or all where there are fewer; in
-- the first case the rest is still to come.
pub rio_readnb-IsBlock : (n : ℕ) (r : Rio) → Ends r.reads → IsBlock n (stream r) (rio_readnb n r)
unfolding rio_readnb
rio_readnb-IsBlock n r h = loop_lem n n r (omega arith) h

-- No read returns more than was asked for, `n` bytes at first.
unfoldable pub Fits : ℕ → List Read → Type 0
Fits n [] = Unit
Fits n (Read.fails e ∷ rs) = Fits n rs
Fits n (Read.got s ∷ rs) = (length s ≤ n) × Fits (n - length s) rs

-- For reads that come to the end of the file, none of which returns more than was asked for,
-- rio_readn returns the first n of their bytes, or all where there are fewer; in the first case
-- the rest is still to come.
rio_readn-IsBlock :
    (n : ℕ) (rs : List Read) → Ends rs → Fits n rs → IsBlock n (ahead rs) (rio_readn n rs)
unfolding rio_readn ahead Fits
rio_readn-IsBlock zero rs h f = record {
  left = record { unread = []; reads = rs };
  result = refl;
  behind = inr (refl, h);
}
rio_readn-IsBlock (suc n) _ (at_end rs) f = record {
  left = record { unread = []; reads = rs };
  result = refl;
  behind = inl (omega arith);
}
rio_readn-IsBlock (suc n) _ (after_signal rs h) f = rio_readn-IsBlock (suc n) rs h f
rio_readn-IsBlock (suc n) _ (after_bytes c s rs h) f =
    let less : suc n - suc (length s) ≡ n - length s = omega arith in
    IsBlock-append (suc n) (n - length s) (c ∷ s) (ahead rs) _ (omega (arith, f.0))
      (rio_readn-IsBlock (n - length s) rs h (subst (λ k. Fits k rs) less f.1))
