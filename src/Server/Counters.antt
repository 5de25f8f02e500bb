-- ===== src/Server/Counters.antt =====
-- The two counters against what they count.
use ftf_interview.Base.{
  ℕ, ◌≤◌, ◌≡◌, ◌≢◌, refl, ap, sym, ◌∙◌, List, [], ◌∷◌, some, arith, length, length-append, total,
  total-set, total-map, total-replicate, get_elem?, set,
}
use ftf_interview.Queue.RandomDrop.{length-drop_queue}
use ftf_interview.Server.{
  Policy, block, dt, dh, random, unknown, Conn, Worker, ready, asleep, handling, Server, wake,
  start, take, take_from, finish, append, accept, block_until_room, drop_oldest, drop_random,
  overload_by, handle_overload,
}
use ftf_interview.Server.Steps.{
  Step, accepts, overloads, rechecks, appends, takes, finishes, wakes, wakes_master, Reach, begin,
  Reach-settings, next,
}

abbrev pub is_handling : Worker → ℕ
is_handling ready = 0
is_handling asleep = 0
is_handling (handling c) = 1

pub is_handling-wake : (w : Worker) → is_handling (wake w) ≡ is_handling w
unfolding wake
is_handling-wake ready = refl
is_handling-wake asleep = refl
is_handling-wake (handling c) = refl

-- What holds of the counters under every policy.
pub record IsCounted (s : Server) : Type 0 where
  pub queued : length s.queue ≤ s.queue_size
  pub handled : s.currently_handled ≡ total is_handling s.workers

-- A worker that handles a connection is counted.
pub handling-pos :
    {s : Server} (i : ℕ) (c : Conn)
    → IsCounted s
    → get_elem? s.workers i ≡ some (handling c)
    → 1 ≤ s.currently_handled
handling-pos {s} i c v at =
    omega (arith, v.handled, total-set is_handling s.workers i (handling c) ready at)

append-IsCounted : (c : Conn) (s : Server) → IsCounted s → IsCounted (append c s)
unfolding append
append-IsCounted c s v =
    ground
      (arith, length-append s.queue (c ∷ []), total-map is_handling wake is_handling-wake s.workers)

take_from-IsCounted :
    (i : ℕ) (s : Server) (q : List Conn)
    → q ≡ s.queue
    → get_elem? s.workers i ≡ some ready
    → IsCounted s
    → IsCounted (take_from s i q)
unfolding take_from
take_from-IsCounted i s [] e at v = ground (arith, total-set is_handling s.workers i ready asleep)
take_from-IsCounted i s (c ∷ rest) e at v =
    ground (arith, total-set is_handling s.workers i ready (handling c), ap length e)

finish-IsCounted :
    (i : ℕ) (c : Conn) (s : Server)
    → get_elem? s.workers i ≡ some (handling c)
    → IsCounted s
    → IsCounted (finish i c s)
unfolding finish
finish-IsCounted i c s at v = ground (
  arith,
  total-set is_handling s.workers i (handling c) ready,
  total-map is_handling wake is_handling-wake (set s.workers i ready),
)

accept-IsCounted : (c : Conn) (s : Server) → IsCounted s → IsCounted (accept c s)
unfolding accept
accept-IsCounted c s v = ground (arith, append-IsCounted c s)

drop_oldest-IsCounted :
    (c : Conn) (s : Server) (q : List Conn)
    → q ≡ s.queue
    → IsCounted s
    → IsCounted (drop_oldest c s q)
unfolding drop_oldest
drop_oldest-IsCounted c s [] e v = ground arith
drop_oldest-IsCounted c s (d ∷ rest) e v = ground (arith, ap length e)

drop_random-IsCounted :
    (rand : ℕ → ℕ) (c : Conn) (s : Server) → IsCounted s → IsCounted (drop_random rand c s)
unfolding drop_random
drop_random-IsCounted rand c s v = ground (arith, length-drop_queue rand s.queue_size s.queue)

overload_by-IsCounted :
    (p : Policy) (rand : ℕ → ℕ) (c : Conn) (s : Server)
    → IsCounted s
    → IsCounted (overload_by p rand c s)
unfolding overload_by block_until_room
overload_by-IsCounted block rand c s v = ground arith
overload_by-IsCounted dt rand c s v = ground arith
overload_by-IsCounted dh rand c s v = drop_oldest-IsCounted c s s.queue refl v
overload_by-IsCounted random rand c s v = drop_random-IsCounted rand c s v
overload_by-IsCounted unknown rand c s v = ground arith

pub Step-IsCounted : {s t : Server} {new : List ℕ} → Step s new t → IsCounted s → IsCounted t
unfolding take handle_overload block_until_room
Step-IsCounted (accepts {s} c at) v = accept-IsCounted c s v
Step-IsCounted (overloads {s} rand c at) v = overload_by-IsCounted s.policy rand c s v
Step-IsCounted (rechecks c at) v = ground arith
Step-IsCounted (appends {s} c at) v = append-IsCounted c s v
Step-IsCounted (takes {s} i at) v = take_from-IsCounted i s s.queue refl at v
Step-IsCounted (finishes {s} i c at) v = finish-IsCounted i c s at v
Step-IsCounted (wakes {s} i at) v = ground (arith, total-set is_handling s.workers i asleep ready)
Step-IsCounted (wakes_master c at) v = ground arith

-- In every reachable state, under every policy, queue_size is at least the length of the queue and
-- currently_handled is the number of workers in requestHandle.
pub Reach-IsCounted :
    {p : Policy} {q n : ℕ} {fds : List ℕ} {s : Server} → Reach p q n fds s → IsCounted s
unfolding start
Reach-IsCounted {n} begin = record {
  queued = omega arith;
  handled = omega (arith, total-replicate is_handling n ready refl);
}
Reach-IsCounted (next r st) = Step-IsCounted st (Reach-IsCounted r)

-- queue_size is exact.
pub record IsExact (s : Server) : Type 0 where
  pub queued : s.queue_size ≡ length s.queue

take_from-IsExact :
    (i : ℕ) (s : Server) (q : List Conn) → q ≡ s.queue → IsExact s → IsExact (take_from s i q)
unfolding take_from
take_from-IsExact i s [] e v = ground arith
take_from-IsExact i s (c ∷ rest) e v = ground (arith, ap length e)

append-IsExact : (c : Conn) (s : Server) → IsExact s → IsExact (append c s)
unfolding append
append-IsExact c s v = ground (arith, length-append s.queue (c ∷ []))

drop_oldest-IsExact :
    (c : Conn) (s : Server) (q : List Conn) → q ≡ s.queue → IsExact s → IsExact (drop_oldest c s q)
unfolding drop_oldest
drop_oldest-IsExact c s [] e v = ground arith
drop_oldest-IsExact c s (d ∷ rest) e v = ground (arith, ap length e)

overload_by-IsExact :
    (p : Policy) (rand : ℕ → ℕ) (c : Conn) (s : Server)
    → p ≢ random
    → IsExact s
    → IsExact (overload_by p rand c s)
unfolding overload_by block_until_room
overload_by-IsExact block rand c s ne v = ground arith
overload_by-IsExact dt rand c s ne v = ground arith
overload_by-IsExact dh rand c s ne v = drop_oldest-IsExact c s s.queue refl v
overload_by-IsExact random rand c s ne v = absurd (ne refl)
overload_by-IsExact unknown rand c s ne v = ground arith

pub Step-IsExact :
    {s t : Server} {new : List ℕ} → Step s new t → s.policy ≢ random → IsExact s → IsExact t
unfolding take handle_overload block_until_room accept finish
Step-IsExact (accepts {s} c at) ne v = ground (arith, append-IsExact c s)
Step-IsExact (overloads {s} rand c at) ne v = overload_by-IsExact s.policy rand c s ne v
Step-IsExact (rechecks c at) ne v = ground arith
Step-IsExact (appends {s} c at) ne v = append-IsExact c s v
Step-IsExact (takes {s} i at) ne v = take_from-IsExact i s s.queue refl v
Step-IsExact (finishes {s} i c at) ne v = ground arith
Step-IsExact (wakes i at) ne v = record { queued = v.queued }
Step-IsExact (wakes_master c at) ne v = record { queued = v.queued }

-- Under every policy but random, queue_size is the length of the queue in every reachable state.
pub Reach-IsExact :
    {p : Policy} {q n : ℕ} {fds : List ℕ} {s : Server} → Reach p q n fds s → p ≢ random → IsExact s
unfolding start
Reach-IsExact begin ne = record { queued = refl }
Reach-IsExact (next r st) ne =
    Step-IsExact st (λ e. ne (sym (Reach-settings r).0 ∙ e)) (Reach-IsExact r ne)
