-- ===== src/Rio/Writes.antt =====
-- `rio_writen`: the whole buffer goes out, once and in order.
use ftf_interview.Base.{
  ℕ, zero, suc, ◌+◌, ◌≡◌, ◌≤◌, ◌<◌, refl, ap, sym, subst, ◌∙◌, List, [], ◌∷◌, ◌++◌, ◌==◌, Bytes,
  length, take, drop, arith, if_ind, append_assoc, append-nil, take-drop, length-drop,
}
use ftf_interview.Rio.{Write, Written, eintr, write_loop, rio_writen}

-- All of `buf` is sent, or a beginning of it.
unfoldable pub IsPrefixOf : Bytes → Written → Type 0
IsPrefixOf buf (Written.all_written sent) = sent ≡ buf
IsPrefixOf buf (Written.write_error sent) = (rest : Bytes) × (sent ++ rest ≡ buf)
IsPrefixOf buf (Written.write_waits sent) = (rest : Bytes) × (sent ++ rest ≡ buf)

sent_on : (k c : ℕ) (sent s : Bytes) → (sent ++ c ∷ take k s) ++ drop k s ≡ sent ++ c ∷ s
sent_on k c sent s =
    append_assoc sent (c ∷ take k s) (drop k s) ∙ ap (λ l. sent ++ c ∷ l) (take-drop k s)

loop-IsPrefixOf :
    (sent buf : Bytes) (errno : ℕ) (ws : List Write)
    → IsPrefixOf (sent ++ buf) (write_loop sent buf errno ws)
unfolding write_loop IsPrefixOf
loop-IsPrefixOf sent [] errno ws = sym (append-nil sent)
loop-IsPrefixOf sent (c ∷ s) errno [] = (c ∷ s, refl)
loop-IsPrefixOf sent (c ∷ s) errno (Write.refuses e ∷ ws) =
    if_ind (IsPrefixOf (sent ++ c ∷ s)) (e == eintr) _ _ (λ _. loop-IsPrefixOf sent (c ∷ s) e ws)
      (λ _. (c ∷ s, refl))
loop-IsPrefixOf sent (c ∷ s) errno (Write.wrote zero ∷ ws) =
    if_ind (IsPrefixOf (sent ++ c ∷ s)) (errno == eintr) _ _
      (λ _. loop-IsPrefixOf sent (c ∷ s) errno ws) (λ _. (c ∷ s, refl))
loop-IsPrefixOf sent (c ∷ s) errno (Write.wrote (suc k) ∷ ws) =
    subst (λ l. IsPrefixOf l (write_loop (sent ++ c ∷ take k s) (drop k s) errno ws))
      (sent_on k c sent s) (loop-IsPrefixOf (sent ++ c ∷ take k s) (drop k s) errno ws)

-- Whatever the calls of write return, what rio_writen has sent is a beginning of the buffer, and
-- the whole buffer where it reports success.
pub rio_writen-IsPrefixOf :
    (buf : Bytes) (errno : ℕ) (ws : List Write) → IsPrefixOf buf (rio_writen buf errno ws)
unfolding rio_writen
rio_writen-IsPrefixOf buf errno ws = loop-IsPrefixOf [] buf errno ws

-- The writes that make progress or that a signal stops.
unfoldable pub Progresses : List Write → Type 0
Progresses [] = Unit
Progresses (Write.refuses e ∷ ws) = (e ≡ eintr) × Progresses ws
Progresses (Write.wrote k ∷ ws) = (0 < k) × Progresses ws

-- How many bytes the writes may take, one at least for each of them.
unfoldable pub written : List Write → ℕ
written [] = 0
written (Write.refuses e ∷ ws) = written ws
written (Write.wrote k ∷ ws) = k + written ws

loop-all :
    (sent buf : Bytes) (errno : ℕ) (ws : List Write)
    → Progresses ws
    → length buf ≤ written ws
    → write_loop sent buf errno ws ≡ Written.all_written (sent ++ buf)
unfolding write_loop Progresses written
loop-all sent [] errno ws p le = ap Written.all_written (sym (append-nil sent))
loop-all sent (c ∷ s) errno [] p le = absurd (omega arith)
loop-all sent (c ∷ s) errno (Write.refuses e ∷ ws) p le =
    ground (arith, p.0, loop-all sent (c ∷ s) e ws p.1 le)
loop-all sent (c ∷ s) errno (Write.wrote zero ∷ ws) p le = absurd (omega (arith, p.0))
loop-all sent (c ∷ s) errno (Write.wrote (suc k) ∷ ws) p le =
    loop-all (sent ++ c ∷ take k s) (drop k s) errno ws p.1 (omega (arith, length-drop k s))
    ∙ ap Written.all_written (sent_on k c sent s)

-- Where each write makes progress or is stopped by a signal, and together they may take the
-- buffer's length, rio_writen sends the whole buffer and reports success.
pub rio_writen_all :
    (buf : Bytes) (errno : ℕ) (ws : List Write)
    → Progresses ws
    → length buf ≤ written ws
    → rio_writen buf errno ws ≡ Written.all_written buf
unfolding rio_writen
rio_writen_all buf errno ws p le = loop-all [] buf errno ws p le
