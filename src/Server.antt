-- ===== src/Server.antt =====
-- Threads and synchronization/server.c: the accepting thread and the pool of worker threads over
-- the shared queue. Each critical section is one step.
pub mod Counters
pub mod Steps
pub mod Capacity
pub mod Descriptors
pub mod Wakeups
pub mod Faults
pub mod Startup
pub mod Starts
use ftf_interview.Base.{
  ℕ, zero, suc, ◌+◌, ◌-◌, ◌*◌, ◌/◌, ◌%◌, Bool, true, false, ◌&&◌, ◌||◌, not, List, [], ◌∷◌, ◌++◌,
  map, ◌==◌, if◌then◌else◌, set, replicate,
}
use ftf_interview.Queue.{Timeval}
use ftf_interview.Queue.RandomDrop.{drop_queue}

-- `argv[4]`; the names that `strcmp` knows, and any other word.
pub data Policy : Type 0 where
  block dt dh random unknown : Policy

abbrev pub is_block : Policy → Bool
is_block block = true
is_block _ = false

abbrev pub is_dt : Policy → Bool
is_dt dt = true
is_dt _ = false

pub record Conn : Type 0 where
  pub fd : ℕ
  pub arrival : Timeval

-- Where a worker stands in `thread_function`: before the lock or woken from the wait, in
-- `pthread_cond_wait`, or in `requestHandle`, which it runs without the mutex.
pub data Worker : Type 0 where
  ready asleep : Worker
  handling : Conn → Worker

-- Where `main` stands: in `Accept`; between its unlock and `handle_overload`; in the wait of
-- `handle_overload` and woken from it; and behind `handle_overload`, where it goes on to `enqueue`
-- without the mutex. `crashed` is the null pointer followed in the branch "dh".
pub data Master : Type 0 where
  accepting : Master
  overloaded waiting rechecking unguarded crashed : Conn → Master

-- The globals, the threads, and the descriptors passed to `close`, oldest first.
pub record Server : Type 0 where
  pub policy : Policy
  pub q_max_size : ℕ
  pub queue : List Conn
  pub queue_size : ℕ
  pub currently_handled : ℕ
  pub workers : List Worker
  pub master : Master
  pub closed : List ℕ

abbrev pub load_of : Server → ℕ
load_of s = s.queue_size + s.currently_handled

-- `pthread_cond_broadcast`: everyone in a wait goes on to test again.
unfoldable pub wake : Worker → Worker
wake asleep = ready
wake ready = ready
wake (handling c) = handling c

unfoldable pub wake_master : Master → Master
wake_master (waiting c) = rechecking c
wake_master accepting = accepting
wake_master (overloaded c) = overloaded c
wake_master (rechecking c) = rechecking c
wake_master (unguarded c) = unguarded c
wake_master (crashed c) = crashed c

unfoldable pub broadcast : Server → Server
broadcast s = record s { workers = map wake s.workers; master = wake_master s.master }

-- `Create_thread_pool` and the globals at the start.
unfoldable pub start : Policy → ℕ → ℕ → Server
start policy q_max_size pool_size = record {
  policy = policy;
  q_max_size = q_max_size;
  queue = [];
  queue_size = 0;
  currently_handled = 0;
  workers = replicate pool_size ready;
  master = accepting;
  closed = [];
}

-- The first critical section of a worker, up to its unlock or its wait.
pub take_from : Server → ℕ → List Conn → Server
take_from s i [] = record s { workers = set s.workers i asleep }
take_from s i (c ∷ rest) = record s {
  queue = rest;
  queue_size = s.queue_size - 1;
  currently_handled = s.currently_handled + 1;
  workers = set s.workers i (handling c);
}

unfoldable pub take : ℕ → Server → Server
unfolding take_from
take i s = take_from s i s.queue

-- The critical section behind `requestHandle`.
unfoldable pub finish : ℕ → Conn → Server → Server
unfolding broadcast
finish i c s =
    let t = record s {
      currently_handled = s.currently_handled - 1;
      workers = set s.workers i ready;
      closed = s.closed ++ c.fd ∷ [];
    } in
    if load_of t == t.q_max_size || load_of t + 1 == t.q_max_size then broadcast t else t

-- `enqueue`, `++queue_size` and the broadcast at the end of the round of `main`.
unfoldable pub append : Conn → Server → Server
unfolding broadcast
append c s =
    let t = record s {
      queue = s.queue ++ c ∷ [];
      queue_size = s.queue_size + 1;
      master = accepting;
    } in
    if load_of t == 1 then broadcast t else t

-- The connection is closed and `main` goes back to `Accept`.
unfoldable pub refuse : Conn → Server → Server
refuse c s = record s { closed = s.closed ++ c.fd ∷ []; master = accepting }

-- The round of `main` from `Accept` to the end of its critical section.
unfoldable pub accept : Conn → Server → Server
unfolding refuse append
accept c s =
    if (s.currently_handled == s.q_max_size) && not (is_block s.policy)
    then refuse c s
    else if load_of s == s.q_max_size
    then if is_dt s.policy then refuse c s else record s { master = overloaded c }
    else append c s

-- The test of the loop in the branch "block".
unfoldable pub block_until_room : Conn → Server → Server
block_until_room c s =
    if load_of s == s.q_max_size
    then record s { master = waiting c }
    else record s { master = unguarded c }

-- The branch "dh": the oldest connection is dropped; `dequeue` of an empty queue gives NULL.
pub drop_oldest : Conn → Server → List Conn → Server
drop_oldest c s [] = record s { master = crashed c }
drop_oldest c s (d ∷ rest) = record s {
  queue = rest;
  queue_size = s.queue_size - 1;
  closed = s.closed ++ d.fd ∷ [];
  master = unguarded c;
}

unfoldable pub size_after_random : ℕ → ℕ
size_after_random n = if n % 4 == 0 then 3 * (n / 4) else n - n / 4 + 1

-- The branch "random". `random_drop` passes pointers to `close`, so it closes no connection.
unfoldable pub drop_random : (rand : ℕ → ℕ) → Conn → Server → Server
unfolding size_after_random drop_queue
drop_random rand c s =
    if load_of s == s.q_max_size
    then record s {
      queue = (drop_queue rand s.queue_size s.queue).1;
      queue_size = size_after_random s.queue_size;
      master = unguarded c;
    }
    else record s { master = unguarded c }

pub overload_by : Policy → (rand : ℕ → ℕ) → Conn → Server → Server
unfolding block_until_room drop_oldest drop_random
overload_by block rand c s = block_until_room c s
overload_by dh rand c s = drop_oldest c s s.queue
overload_by random rand c s = drop_random rand c s
overload_by dt rand c s = record s { master = unguarded c }
overload_by unknown rand c s = record s { master = unguarded c }

unfoldable pub handle_overload : (rand : ℕ → ℕ) → Conn → Server → Server
unfolding overload_by
handle_overload rand c s = overload_by s.policy rand c s
