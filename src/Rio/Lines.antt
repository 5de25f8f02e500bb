-- ===== src/Rio/Lines.antt =====
-- `rio_readlineb` and the lines of the stream.
use ftf_interview.Base.{
  ℕ, zero, suc, ◌+◌, ◌-◌, ◌≡◌, ◌<◌, refl, ap, sym, ◌∙◌, ◌⊎◌, inl, inr, ◌≢◌, subst, Bool, true,
  false, [], ◌∷◌, ◌++◌, ◌==◌, Bytes, length, arith, if◌then◌else◌, Bool-cases,
}
use ftf_interview.Rio.{Rio, Outcome, Line, rio_read, line_loop, rio_readlineb, add_char}
use ftf_interview.Rio.Streams.{Ends, stream, rio_read_lem}

-- The first line of a text, up to its newline and of at most `k` bytes.
unfoldable pub first_line : ℕ → Bytes → Bytes
first_line zero s = []
first_line (suc k) [] = []
first_line (suc k) (c ∷ s) = let rest = first_line k s in if c == b'\n' then c ∷ [] else c ∷ rest

unfoldable pub after_line : ℕ → Bytes → Bytes
after_line zero s = s
after_line (suc k) [] = []
after_line (suc k) (c ∷ s) = let rest = after_line k s in if c == b'\n' then s else rest

unfoldable pub has_newline : ℕ → Bytes → Bool
has_newline zero s = false
has_newline (suc k) [] = false
has_newline (suc k) (c ∷ s) = let rest = has_newline k s in if c == b'\n' then true else rest

-- The line and what is behind it, with the number that is returned where `n` was counted so far.
pub record IsFirst (k n : ℕ) (s : Bytes) (l : Line) : Type 0 where
  pub count : ℕ
  pub left : Rio
  pub result : l ≡ Line.line count (first_line k s) left
  pub counted : count + (if has_newline k s then 1 else 0) ≡ n + length (first_line k s)
  pub behind : (after_line k s ≡ []) ⊎ ((stream left ≡ after_line k s) × Ends left.reads)

at_end :
    (k n : ℕ) (r r' : Rio)
    → 1 < n
    → rio_read 1 r ≡ Outcome.eof r'
    → IsFirst (suc k) n [] (line_loop (suc k) n r)
unfolding line_loop first_line after_line has_newline
at_end k n r r' lt o = record {
  count = n;
  left = r';
  result = ground (arith, o, lt);
  counted = omega arith;
  behind = inl refl;
}

at_char :
    (k n : ℕ) (r r' : Rio) (c : ℕ) (s : Bytes)
    → rio_read 1 r ≡ Outcome.bytes_read (c ∷ []) r'
    → stream r' ≡ s
    → Ends r'.reads
    → IsFirst k (n + 1) s (line_loop k (n + 1) r')
    → IsFirst (suc k) n (c ∷ s) (line_loop (suc k) n r)
unfolding line_loop first_line after_line has_newline
at_char k n r r' c s o e h f = elim (Bool-cases (c == b'\n')) [
  | inl y ↦ record {
    count = n;
    left = r';
    result = rw (o, line_loop) (rw y refl);
    counted = rw y (omega arith);
    behind = inr (rw y (e, h));
  }
  | inr x ↦ record {
    count = f.count;
    left = f.left;
    result = rw (o, line_loop) (rw x (ap (add_char c) f.result));
    counted = rw x (omega (arith, f.counted));
    behind = rw x f.behind;
  }
]

loop_lem : (k n : ℕ) (r : Rio) → Ends r.reads → 1 < n → IsFirst k n (stream r) (line_loop k n r)
unfolding line_loop first_line after_line has_newline
loop_lem zero n r h lt = record {
  count = n;
  left = r;
  result = refl;
  counted = omega arith;
  behind = inr (refl, h);
}
loop_lem (suc k) n r h lt = elim (rio_read_lem 0 r h) [
  | inl (e, r', o) ↦
      subst (λ s. IsFirst (suc k) n s (line_loop (suc k) n r)) (sym e) (at_end k n r r' lt o)
  | inr (c, t, r', o, u, e, h') ↦
      subst (λ s. IsFirst (suc k) n s (line_loop (suc k) n r)) (sym e)
        (at_char k n r r' c (stream r') o refl h' (loop_lem k (n + 1) r' h' (omega arith)))
]

-- What `rio_readlineb` does with `k` rounds left at its start.
abbrev Starts : ℕ → Rio → Line → Type 0
Starts k r l =
    ((stream r ≡ []) × (r' : Rio) × (l ≡ Line.no_line r'))
    ⊎ ((stream r ≢ []) × IsFirst k 1 (stream r) l)

first_round : (k : ℕ) (r : Rio) → Ends r.reads → Starts (suc k) r (line_loop (suc k) 1 r)
unfolding line_loop
first_round k r h = elim (rio_read_lem 0 r h) [
  | inl (e, r', o) ↦ inl (e, r', rw (o, line_loop) refl)
  | inr (c, t, r', o, u, e, h') ↦ inr (
    λ z. ground (arith, sym e ∙ z),
    subst (λ s. IsFirst (suc k) 1 s (line_loop (suc k) 1 r)) (sym e)
        (at_char k 1 r r' c (stream r') o refl h' (loop_lem k 2 r' h' (omega arith))),
  )
]

-- For maxlen above 1 and a connection whose reads come to the end of the file, in whatever pieces
-- and with whatever signals between them, rio_readlineb returns 0 where no byte is left, and else
-- the first line of the stream, of at most maxlen - 1 bytes; the number it returns is the line's
-- length, plus one where the line has no newline; the rest of the stream is still to come.
pub rio_readlineb-IsFirst :
    (maxlen : ℕ) (r : Rio)
    → Ends r.reads
    → 1 < maxlen
    → ((stream r ≡ []) × (r' : Rio) × (rio_readlineb maxlen r ≡ Line.no_line r'))
      ⊎ ((stream r ≢ []) × IsFirst (maxlen - 1) 1 (stream r) (rio_readlineb maxlen r))
unfolding rio_readlineb
rio_readlineb-IsFirst maxlen r h lt =
    let rounds : suc (maxlen - 2) ≡ maxlen - 1 = omega arith in
    subst (λ k. Starts k r (line_loop k 1 r)) rounds (first_round (maxlen - 2) r h)

-- A line and what is behind it are the text.
pub first_line-after_line : (k : ℕ) (s : Bytes) → first_line k s ++ after_line k s ≡ s
unfolding first_line after_line
first_line-after_line zero s = refl
first_line-after_line (suc k) [] = refl
first_line-after_line (suc k) (c ∷ s) = elim (Bool-cases (c == b'\n')) [
  | inl y ↦ rw y refl
  | inr x ↦ rw x (ap (λ l. c ∷ l) (first_line-after_line k s))
]
