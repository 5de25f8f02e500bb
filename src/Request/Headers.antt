-- ===== src/Request/Headers.antt =====
-- When the loop over the header lines ends.
use ftf_interview.Base.{
  ℕ, zero, suc, ◌+◌, ◌<◌, ◌≡◌, refl, Bool, true, false, none, some, List, [], ◌∷◌, ◌++◌, arith, All,
  length, Bytes, bytes, equal,
}
use ftf_interview.Request.{read_hdrs, read_hdrs_from}

-- The line that ends the headers.
abbrev pub is_blank : Bytes → Bool
is_blank l = equal l (bytes "\r\n")

skips :
    (fuel : ℕ) (buf : Bytes) (ls rest : List Bytes) (end : Bytes)
    → is_blank buf ≡ false
    → All (λ l. is_blank l ≡ false) ls
    → is_blank end ≡ true
    → length ls + 1 < fuel
    → read_hdrs_from fuel buf (ls ++ end ∷ rest) ≡ some rest
unfolding read_hdrs_from
skips zero buf ls rest end b all e h = absurd (omega arith)
skips (suc zero) buf ls rest end b all e h = absurd (omega arith)
skips (suc (suc fuel)) buf [] rest end b all e h = rw (b, read_hdrs_from) (rw e refl)
skips (suc (suc fuel)) buf (l ∷ ls) rest end b all e h =
    rw (b, read_hdrs_from) (skips (suc fuel) l ls rest end all.0 all.1 e (omega arith))

-- The headers `ls` and the blank line `end` are read, and `rest` is what the connection still has.
pub read_hdrs-append :
    (fuel : ℕ) (buf : Bytes) (ls rest : List Bytes) (end : Bytes)
    → All (λ l. is_blank l ≡ false) ls
    → is_blank end ≡ true
    → length ls < fuel
    → read_hdrs fuel buf (ls ++ end ∷ rest) ≡ some rest
unfolding read_hdrs read_hdrs_from
read_hdrs-append zero buf ls rest end all e h = absurd (omega arith)
read_hdrs-append (suc fuel) buf [] rest end all e h = rw (e, read_hdrs_from) refl
read_hdrs-append (suc fuel) buf (l ∷ ls) rest end all e h =
    skips (suc fuel) l ls rest end all.0 all.1 e (omega arith)

runs_on :
    (fuel : ℕ) (buf : Bytes) (ls : List Bytes)
    → is_blank buf ≡ false
    → All (λ l. is_blank l ≡ false) ls
    → read_hdrs_from fuel buf ls ≡ none
unfolding read_hdrs_from
runs_on zero buf ls b all = refl
runs_on (suc fuel) buf [] b all = rw (b, read_hdrs_from) (runs_on fuel buf [] b all)
runs_on (suc fuel) buf (l ∷ ls) b all = rw (b, read_hdrs_from) (runs_on fuel l ls all.0 all.1)

-- Without a blank line no number of reads ends the headers.
pub read_hdrs_endless :
    (fuel : ℕ) (buf : Bytes) (ls : List Bytes)
    → is_blank buf ≡ false
    → All (λ l. is_blank l ≡ false) ls
    → read_hdrs fuel buf ls ≡ none
unfolding read_hdrs
read_hdrs_endless fuel buf [] b all = runs_on fuel buf [] b all
read_hdrs_endless fuel buf (l ∷ ls) b all = runs_on fuel l ls all.0 all.1
