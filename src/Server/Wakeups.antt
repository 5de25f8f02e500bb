-- ===== src/Server/Wakeups.antt =====
-- Nobody sleeps for ever: who is awake when there is work, and who wakes `main`.
use ftf_interview.Base.{
  ℕ, suc, ◌+◌, ◌-◌, ◌≤◌, ◌≡◌, ◌≢◌, ◌⊎◌, refl, sym, ◌∙◌, inl, inr, List, [], ◌∷◌, some, arith, map,
  total, total-set, total_mono, le-total, get_elem?, set, subst, ◌==◌, Bool-cases, if_ind, ◌||◌,
}
use ftf_interview.Server.{
  Policy, block, dt, dh, random, unknown, Conn, Worker, ready, asleep, handling, waiting,
  rechecking, unguarded, Server, wake, wake_master, start, load_of, take, take_from, finish, append,
  accept, block_until_room, drop_oldest, overload_by, handle_overload,
}
use ftf_interview.Server.Steps.{
  Step, accepts, overloads, rechecks, appends, takes, finishes, wakes, wakes_master, Reach, begin,
  next, Reach-settings,
}
use ftf_interview.Server.Counters.{
  is_handling, IsCounted, IsExact, handling-pos, Reach-IsCounted, Reach-IsExact,
}
use ftf_interview.Server.Capacity.{Fits, Reach-IsBounded}

abbrev pub is_awake : Worker → ℕ
is_awake ready = 1
is_awake asleep = 0
is_awake (handling c) = 1

abbrev one : Worker → ℕ
one w = 1

handling-le-awake : (w : Worker) → is_handling w ≤ is_awake w
handling-le-awake ready = omega arith
handling-le-awake asleep = omega arith
handling-le-awake (handling c) = omega arith

awake-wake : (ws : List Worker) → total is_awake (map wake ws) ≡ total one ws
unfolding total wake
awake-wake [] = refl
awake-wake (ready ∷ ws) = omega (arith, awake-wake ws)
awake-wake (asleep ∷ ws) = omega (arith, awake-wake ws)
awake-wake (handling c ∷ ws) = omega (arith, awake-wake ws)

one-wake : (ws : List Worker) → total one (map wake ws) ≡ total one ws
unfolding total
one-wake [] = refl
one-wake (w ∷ ws) = omega (arith, one-wake ws)

-- There is a worker, and one is awake if there is anything in the queue.
pub record IsLive (s : Server) : Type 0 where
  pub staffed : 1 ≤ total one s.workers
  pub awake : (s.queue ≡ []) ⊎ (1 ≤ total is_awake s.workers)

-- Somebody is awake if the counters show any connection.
awake_of_load :
    (s : Server) → IsCounted s → IsExact s → IsLive s → 1 ≤ load_of s → 1 ≤ total is_awake s.workers
awake_of_load s v x l h = ground (
  arith,
  x.queued,
  v.handled,
  l.awake,
  total_mono is_handling is_awake handling-le-awake s.workers,
)

append-IsLive : (c : Conn) (s : Server) → IsCounted s → IsExact s → IsLive s → IsLive (append c s)
unfolding append
append-IsLive c s v x l = elim (Bool-cases (s.queue_size + 1 + s.currently_handled == 1)) [
  | inl first ↦ rw first (record {
    staffed = omega (arith, l.staffed, one-wake s.workers);
    awake = inr (omega (arith, l.staffed, awake-wake s.workers));
  })
  | inr more ↦
      rw more (record { staffed = l.staffed; awake = inr (awake_of_load s v x l (ground arith)) })
]

take_from-IsLive :
    (i : ℕ) (s : Server) (q : List Conn)
    → q ≡ s.queue
    → get_elem? s.workers i ≡ some ready
    → IsLive s
    → IsLive (take_from s i q)
unfolding take_from
take_from-IsLive i s [] e at l = record {
  staffed = omega (arith, l.staffed, total-set one s.workers i ready asleep at);
  awake = inl (sym e);
}
take_from-IsLive i s (c ∷ rest) e at l = record {
  staffed = omega (arith, l.staffed, total-set one s.workers i ready (handling c) at);
  awake = inr (
      omega (
        arith,
        total-set is_awake s.workers i ready (handling c) at,
        le-total is_awake s.workers i ready at,
      ));
}

finish-IsLive :
    (i : ℕ) (c : Conn) (s : Server)
    → get_elem? s.workers i ≡ some (handling c)
    → IsLive s
    → IsLive (finish i c s)
unfolding finish
finish-IsLive i c s at l =
    let ws = set s.workers i ready in
    let staff : 1 ≤ total one ws =
      omega (arith, l.staffed, total-set one s.workers i (handling c) ready at) in
    let up : 1 ≤ total is_awake ws = omega (
      arith,
      total-set is_awake s.workers i (handling c) ready at,
      le-total is_awake s.workers i (handling c) at,
    ) in
    let n = s.queue_size + (s.currently_handled - 1) in
    if_ind IsLive (n == s.q_max_size || n + 1 == s.q_max_size) _ _
      (λ _. record {
        staffed = omega (arith, staff, one-wake ws);
        awake = inr (omega (arith, staff, awake-wake ws));
      })
      (λ _. record { staffed = staff; awake = inr up })

drop_oldest-IsLive :
    (c : Conn) (s : Server) (q : List Conn) → q ≡ s.queue → IsLive s → IsLive (drop_oldest c s q)
unfolding drop_oldest
drop_oldest-IsLive c s [] e l = record { staffed = l.staffed; awake = l.awake }
drop_oldest-IsLive c s (d ∷ rest) e l = record {
  staffed = l.staffed;
  awake = ground (arith, l.awake);
}

overload_by-IsLive :
    (p : Policy) (rand : ℕ → ℕ) (c : Conn) (s : Server)
    → p ≢ random
    → IsLive s
    → IsLive (overload_by p rand c s)
unfolding overload_by block_until_room
overload_by-IsLive block rand c s ne l = ground arith
overload_by-IsLive dt rand c s ne l = record { staffed = l.staffed; awake = l.awake }
overload_by-IsLive dh rand c s ne l = drop_oldest-IsLive c s s.queue refl l
overload_by-IsLive random rand c s ne l = absurd (ne refl)
overload_by-IsLive unknown rand c s ne l = record { staffed = l.staffed; awake = l.awake }

Step-IsLive :
    {s t : Server} {new : List ℕ}
    → Step s new t
    → s.policy ≢ random
    → IsCounted s
    → IsExact s
    → IsLive s
    → IsLive t
unfolding take handle_overload block_until_room accept
Step-IsLive (accepts {s} c at) ne v x l = ground (arith, append-IsLive c s v x l)
Step-IsLive (overloads {s} rand c at) ne v x l = overload_by-IsLive s.policy rand c s ne l
Step-IsLive (rechecks c at) ne v x l = ground arith
Step-IsLive (appends {s} c at) ne v x l = append-IsLive c s v x l
Step-IsLive (takes {s} i at) ne v x l = take_from-IsLive i s s.queue refl at l
Step-IsLive (finishes {s} i c at) ne v x l = finish-IsLive i c s at l
Step-IsLive (wakes {s} i at) ne v x l = record {
  staffed = omega (arith, l.staffed, total-set one s.workers i asleep ready at);
  awake = inr (omega (arith, total-set is_awake s.workers i asleep ready at));
}
Step-IsLive (wakes_master c at) ne v x l = record { staffed = l.staffed; awake = l.awake }

start-IsLive : (p : Policy) (q n : ℕ) → IsLive (start p q (suc n))
unfolding start total
start-IsLive p q n = record { staffed = omega arith; awake = inl refl }

Reach-IsLive :
    {p : Policy} {q n : ℕ} {fds : List ℕ} {s : Server}
    → Reach p q (suc n) fds s
    → p ≢ random
    → IsLive s
Reach-IsLive {p} {q} {n} begin ne = start-IsLive p q n
Reach-IsLive (next r st) ne =
    Step-IsLive st (λ e. ne (sym (Reach-settings r).0 ∙ e)) (Reach-IsCounted r) (Reach-IsExact r ne)
      (Reach-IsLive r ne)

-- With a worker in the pool and a policy other than random, in every reachable state with a
-- connection in the queue some worker is not asleep.
pub Reach-awake :
    {p : Policy} {q n : ℕ} {fds : List ℕ} {s : Server}
    → Reach p q (suc n) fds s
    → p ≢ random
    → s.queue ≢ []
    → 1 ≤ total is_awake s.workers
Reach-awake r ne some_queued = ground (arith, (Reach-IsLive r ne).awake)

-- Under block, in a reachable state in which main waits for room, the counters add up to QmaxSize,
-- and a worker that finishes wakes main, which then finds room.
pub Reach-main-wakes :
    {q n : ℕ} {fds : List ℕ} {s : Server} (c : Conn) (i : ℕ) (d : Conn)
    → Reach block q (suc n) fds s
    → s.master ≡ waiting c
    → get_elem? s.workers i ≡ some (handling d)
    → (load_of s ≡ q)
      × ((finish i d s).master ≡ rechecking c)
      × ((block_until_room c (finish i d s)).master ≡ unguarded c)
unfolding finish block_until_room wake_master
Reach-main-wakes {q} {s} c i d r at working =
    let full : load_of s ≡ s.q_max_size =
      subst (λ m. Fits m (load_of s) s.q_max_size) at
        (Reach-IsBounded r (λ e. cc) (λ e. cc)).fits in
    let pos = handling-pos i d (Reach-IsCounted r) working in
    let size = (Reach-settings r).1 in (omega arith, ground arith, ground arith)
