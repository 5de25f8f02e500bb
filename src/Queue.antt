-- ===== src/Queue.antt =====
-- Threads and synchronization/FIFO_queue.c: the linked list of accepted connections, on an explicit
-- memory. `malloc` enters as the address `fresh` that it returned.
pub mod Chain
pub mod Dequeue
pub mod Fifo
pub mod Order
pub mod Cuts
pub mod RandomDrop
pub mod Returns
use ftf_interview.Base.{
  ℕ, zero, suc, ◌+◌, ◌-◌, ◌/◌, ◌%◌, Bool, true, false, ◌&&◌, not, Option, none, some, List, [], ◌∷◌,
  ◌++◌, ◌==◌, if◌then◌else◌, Ptr, null, Store, write,
}

pub record Timeval : Type 0 where
  pub tv_sec : ℕ
  pub tv_usec : ℕ

-- `struct node`
pub record Node : Type 0 where
  pub next : Ptr
  pub fd : Ptr
  pub arrival : Timeval

-- The globals `head` and `tail`, the nodes, the integers that `int*` point to, and what was passed
-- to `close`, oldest first.
pub record Memory : Type 0 where
  pub head : Ptr
  pub tail : Ptr
  pub nodes : Store Node
  pub ints : Store ℕ
  pub closed : List ℕ

-- A null or dangling pointer is a fault; a loop that uses up its fuel says so.
pub data Run (A : Type 0) : Type 0 where
  ok : A → Memory → Run A
  fault out_of_fuel : Run A

abbrev pub Cmd : Type 0 → Type 0
Cmd A = Memory → Run A

abbrev pub pure : {A : Type 0} → A → Cmd A
pure a m = ok a m

abbrev pub and_then : {A B : Type 0} → Run A → (A → Cmd B) → Run B
and_then (ok a m) k = k a m
and_then fault k = fault
and_then out_of_fuel k = out_of_fuel

infixl 5 ◌>>=◌ ◌>>◌
abbrev pub ◌>>=◌ : {A B : Type 0} → Cmd A → (A → Cmd B) → Cmd B
◌>>=◌ c k m = and_then (c m) k

abbrev pub ◌>>◌ : {B : Type 0} → Cmd (Unit {0}) → Cmd B → Cmd B
c >> k = c >>= λ _. k

abbrev pub state : Cmd Memory
state m = ok m m

abbrev pub set_head : Ptr → Cmd (Unit {0})
set_head p m = ok tt (record m { head = p })

abbrev pub set_tail : Ptr → Cmd (Unit {0})
set_tail p m = ok tt (record m { tail = p })

pub load : Ptr → Cmd Node
load p m = elim (m.nodes p) [ none ↦ fault | some n ↦ if p == null then fault else ok n m ]

pub load_int : Ptr → Cmd ℕ
load_int p m = elim (m.ints p) [ none ↦ fault | some v ↦ if p == null then fault else ok v m ]

-- The fields of the node that `malloc` returned are set; it did not test for NULL.
pub store : Ptr → Node → Cmd (Unit {0})
store p n m = if p == null then fault else ok tt (record m { nodes = write m.nodes p (some n) })

pub store_int : Ptr → ℕ → Cmd (Unit {0})
store_int p v m = if p == null then fault else ok tt (record m { ints = write m.ints p (some v) })

pub set_next : Ptr → Ptr → Cmd (Unit {0})
unfolding load store
set_next p next = do n ← load p; store p (record n { next = next })

pub free : Ptr → Cmd (Unit {0})
unfolding load
free p = do _ ← load p; λ m. ok tt (record m { nodes = write m.nodes p none })

pub free_int : Ptr → Cmd (Unit {0})
unfolding load_int
free_int p = do _ ← load_int p; λ m. ok tt (record m { ints = write m.ints p none })

-- `close` is given the pointer, converted to `int`.
abbrev pub close : ℕ → Cmd (Unit {0})
close n m = ok tt (record m { closed = m.closed ++ n ∷ [] })

pub get_head_time : Cmd Timeval
unfolding load
get_head_time = do m ← state; n ← load m.head; pure n.arrival

unfoldable pub enqueue : (fresh : Ptr) → Ptr → Timeval → Cmd (Unit {0})
unfolding store set_next
enqueue fresh request_fd arival_time = do
  store fresh (record { next = null; fd = request_fd; arrival = arival_time })
  m ← state
  if m.head == null
      then set_head fresh >> set_tail fresh
      else if (m.tail == m.head) && not (m.tail == null)
      then set_tail fresh >> set_next m.head fresh
      else set_next m.tail fresh >> set_tail fresh

-- `none` is NULL; the arrival time is what the call writes to `*time`.
unfoldable pub dequeue : (fresh : Ptr) → Cmd (Option (Ptr × Timeval))
unfolding load load_int store_int free
dequeue fresh = do
  m ← state
  if m.head == null then pure none else do
    n ← load m.head
    v ← load_int n.fd
    store_int fresh v
    set_head n.next
    if n.next == null then set_tail null else pure tt
    free m.head
    pure (some (fresh, n.arrival))

pub drop_head : Cmd (Unit {0})
unfolding load free free_int
drop_head = do m ← state; tmp ← load m.head; set_head tmp.next; free_int tmp.fd; free m.head

-- `r` is what `rand()` returned.
pub randoms : (r lower upper : ℕ) → ℕ
randoms r lower upper = (r % (upper - lower + 1)) + lower

pub to_be_deleted : ℕ → ℕ
to_be_deleted q_max_size = if q_max_size % 4 == 0 then q_max_size / 4 else 1 + q_max_size / 4

-- The inner loop. `left` is `node_to_delete + 1`, with 0 for every negative number: counting down
-- from one of them, the loop ends at the end of the list.
pub walk : ℕ → (left prior tmp : ℕ) → Cmd (Ptr × Ptr)
unfolding load
walk zero left prior tmp = λ _. out_of_fuel
walk (suc fuel) left prior tmp = do
  t ← load tmp
  p ← load prior
  if not (left == 1) && not (t.next == null)
      then walk fuel (left - 1) p.next t.next
      else pure (prior, tmp)

-- The node behind `prior` is unlinked and freed.
pub unlink : (prior tmp : Ptr) → Cmd (Unit {0})
unfolding load set_next free free_int
unlink prior tmp = do
  m ← state
  t ← load tmp
  set_next prior t.next
  close t.fd
  free_int t.fd
  free tmp
  if tmp == m.tail then set_tail prior else pure tt

-- The outer loop: `rounds` are left, and `rand i` is what the next call of `rand` returns.
pub drop_rounds : (rand : ℕ → ℕ) → (fuel rounds i higher : ℕ) → Cmd ℕ
unfolding load randoms walk unlink
drop_rounds rand fuel zero i higher = pure 1
drop_rounds rand fuel (suc rounds) i higher = do
  m ← state
  h ← load m.head
  if h.next == null then pure 0 else do
    (prior, tmp) ← walk fuel (randoms (rand i) 0 higher) m.head h.next
    unlink prior tmp
    drop_rounds rand fuel rounds (i + 1) (higher - 1)

pub random_drop : (rand : ℕ → ℕ) → (fuel q_max_size : ℕ) → Cmd ℕ
unfolding to_be_deleted drop_rounds
random_drop rand fuel q_max_size = do
  m ← state
  if m.head == null then pure 0 else drop_rounds rand fuel (to_be_deleted q_max_size) 0 q_max_size
