-- ===== src/Tests/QueueTests.antt =====
-- Queues in a small memory.
use ftf_interview.Base.{
  ℕ, ◌+◌, ◌≡◌, refl, List, [], ◌∷◌, Option, none, some, arith, ◌==◌, if◌then◌else◌, Ptr, null,
  write,
}
use ftf_interview.Queue.{Timeval, Memory, enqueue, dequeue, random_drop}
use ftf_interview.Queue.Returns.{Returns}
use ftf_interview.Queue.Chain.{Cell, node_of, nil, cons, IsQueue}
use ftf_interview.Queue.Fifo.{IsNew}
use ftf_interview.Queue.RandomDrop.{drop_queue, random_drop_lem}
use ftf_interview.Queue.Order.{
  IsAllocated, History, start, enqueues, dequeues, Leaves, History-Leaves,
}

abbrev time : ℕ → Timeval
time s = record { tv_sec = s; tv_usec = 0 }

-- The entry with its node at `a`, its integer at `a + 100`, file descriptor `v`, arrived at `v`.
abbrev cell : ℕ → ℕ → Cell
cell a v = record { at = a; fd = a + 100; value = v; arrival = time v }

abbrev ints : Ptr → Option ℕ
ints p = if p == 101 then some 5 else if p == 102 then some 6 else if p == 103 then some 7 else none

-- Nothing is queued, and three connections have been accepted.
abbrev empty : Memory
empty = record { head = null; tail = null; nodes = λ p. none; ints = ints; closed = [] }

-- The first two of them are queued.
abbrev two : Memory
two = record {
  head = 1;
  tail = 2;
  nodes = λ p.
      if p == 1
      then some (node_of (cell 1 5) 2)
      else if p == 2
      then some (node_of (cell 2 6) null)
      else none;
  ints = ints;
  closed = [];
}

abbrev xs : List Cell
xs = cell 1 5 ∷ cell 2 6 ∷ []

two-IsQueue : IsQueue two xs
two-IsQueue = record {
  chain =
      cons (record { node = refl; int = refl; at_ne = omega arith; fd_ne = omega arith })
        ((omega arith, omega arith), tt)
        (cons (record { node = refl; int = refl; at_ne = omega arith; fd_ne = omega arith }) tt
          nil);
  head = refl;
  tail = refl;
}

third-IsNew : IsNew two xs (cell 3 7)
third-IsNew = record {
  at_unused = refl;
  at_ne = omega arith;
  int = refl;
  fd_ne = omega arith;
  unshared = (omega arith, (omega arith, tt));
}

random_drop_lem_example :
    Returns (λ r g. (r ≡ 1) × IsQueue g (cell 1 5 ∷ [])) (random_drop (λ i. 9) 2 2 two)
unfolding drop_queue
random_drop_lem_example = random_drop_lem (λ i. 9) 2 2 two xs two-IsQueue (omega arith)

first-IsAllocated : IsAllocated empty (cell 1 5)
first-IsAllocated = record {
  at_unused = refl;
  at_ne = omega arith;
  int = refl;
  fd_ne = omega arith;
  unshared = λ p n e. ground arith;
}

abbrev one : Memory
one = record empty {
  head = 1;
  tail = 1;
  nodes = write (λ p. none) 1 (some (node_of (cell 1 5) null));
}

abbrev none_left : Memory
none_left = record {
  head = null;
  tail = null;
  nodes = write one.nodes 1 none;
  ints = write ints 200 (some 5);
  closed = [];
}

in_and_out : History none_left ((5, time 5) ∷ []) ((5, time 5) ∷ [])
unfolding enqueue dequeue write
in_and_out =
    dequeues 200 5 (time 5)
      (enqueues {m = empty} {g = one} (cell 1 5) (start (record { head = refl; tail = refl }))
        first-IsAllocated refl)
      (omega arith) refl refl refl

History-Leaves_example : Leaves none_left ((5, time 5) ∷ []) ((5, time 5) ∷ [])
History-Leaves_example = History-Leaves in_and_out
