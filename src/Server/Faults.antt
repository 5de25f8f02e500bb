-- ===== src/Server/Faults.antt =====
-- Where the overload policies go wrong.
use ftf_interview.Base.{
  ℕ, suc, ◌+◌, ◌/◌, ◌%◌, ◌≤◌, ◌<◌, ◌≡◌, refl, ap, [], ◌∷◌, arith, length, ◌==◌, if◌then◌else◌,
  Bool-cases, ==_refl, ◌∙◌, inl, inr,
}
use ftf_interview.Queue.RandomDrop.{drop_queue, length-drop_queue}
use ftf_interview.Server.{
  dh, random, Conn, unguarded, crashed, Server, start, load_of, take, append, accept,
  handle_overload, overload_by, size_after_random, wake, wake_master,
}
use ftf_interview.Server.Steps.{accepts, overloads, takes, Reach, begin, next}
use ftf_interview.Server.Counters.{IsExact}

-- Under dh with QmaxSize 1 and any pool of at least one worker, any two connections can lead to
-- the state in which the null pointer that dequeue returned is followed.
pub dh_crash :
    (n : ℕ) (c d : Conn)
    → (s : Server) × Reach dh 1 (suc n) (c.fd ∷ d.fd ∷ []) s × (s.master ≡ crashed d)
unfolding start accept append take handle_overload wake wake_master
dh_crash n c d = (
  _,
  next (next (next (next begin (accepts c refl)) (accepts d refl)) (takes 0 refl))
      (overloads (λ i. 0) d refl),
  refl,
)

-- What the branch "random" leaves at the bound.
abbrev dropped : (ℕ → ℕ) → Conn → Server → Server
dropped rand c s = record s {
  queue = (drop_queue rand s.queue_size s.queue).1;
  queue_size = size_after_random s.queue_size;
  master = unguarded c;
}

handle_overload-random :
    (rand : ℕ → ℕ) (c : Conn) (s : Server)
    → s.policy ≡ random
    → load_of s ≡ s.q_max_size
    → handle_overload rand c s ≡ dropped rand c s
unfolding handle_overload
handle_overload-random rand c s e full =
    ap (λ p. overload_by p rand c s) e ∙ rw (full, ==_refl s.q_max_size) refl

-- Under random, at the bound and with an exact queue_size n of at least 1: if 4 divides n the new
-- queue_size is exact; if not, it is larger than the shortened queue, and the counters together
-- with n / 4 add up to QmaxSize + 1.
pub random_miscounts :
    (rand : ℕ → ℕ) (c : Conn) (s : Server)
    → IsExact s
    → s.policy ≡ random
    → load_of s ≡ s.q_max_size
    → 1 ≤ s.queue_size
    → let t = handle_overload rand c s in
      if s.queue_size % 4 == 0
      then (t.queue_size ≡ length t.queue)
      else ((length t.queue < t.queue_size) × (load_of t + s.queue_size / 4 ≡ s.q_max_size + 1))
unfolding size_after_random
random_miscounts rand c s x e full pos =
    let left = length-drop_queue rand s.queue_size s.queue in
    rw (handle_overload-random rand c s e full) (elim (Bool-cases (s.queue_size % 4 == 0)) [
      | inl by_four ↦ rw by_four (ground (arith, left, x.queued))
      | inr other ↦ rw other (ground (arith, left, x.queued), ground arith)
    ])
