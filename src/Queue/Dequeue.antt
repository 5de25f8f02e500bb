-- ===== src/Queue/Dequeue.antt =====
-- `dequeue` and `drop_head` against a queue of connections.
use ftf_interview.Base.{
  ◌≡◌, ◌≢◌, refl, ◌∙◌, none, some, List, [], ◌∷◌, arith, All, Ptr, null, write, write_self,
  write_ne, ==_ne, ne_of_none, ◌==◌, if◌then◌else◌,
}
use ftf_interview.Queue.{Memory, ok, fault, store_int, dequeue, drop_head}
use ftf_interview.Queue.Returns.{Returns, returned}
use ftf_interview.Queue.Chain.{
  Cell, first, last, Holds, Apart, Chain, IsQueue, TailAt, head-Holds, head-Apart, tail-Chain,
  Chain-unused_int, Chain-write,
}

-- An empty queue gives NULL and stays as it is.
pub dequeue-nil : (m : Memory) (fresh : Ptr) → IsQueue m [] → dequeue fresh m ≡ ok none m
unfolding dequeue
dequeue-nil m fresh q = rw q.head refl

abbrev dequeued : Memory → Ptr → Cell → List Cell → Memory
dequeued m fresh c xs = record {
  head = first xs;
  tail = if first xs == null then null else m.tail;
  nodes = write m.nodes c.at none;
  ints = write m.ints fresh (some c.value);
  closed = m.closed;
}

dequeue-ok :
    (m : Memory) (fresh : Ptr) (c : Cell) (xs : List Cell)
    → IsQueue m (c ∷ xs)
    → fresh ≢ null
    → dequeue fresh m ≡ ok (some (fresh, c.arrival)) (dequeued m fresh c xs)
unfolding dequeue store_int
dequeue-ok m fresh c xs q ne =
    let h = head-Holds q.chain in ground (arith, h.node, h.int, h.at_ne, h.fd_ne, q.head)

dequeued-IsQueue :
    (m : Memory) (fresh : Ptr) (c : Cell) (xs : List Cell)
    → IsQueue m (c ∷ xs)
    → m.ints fresh ≡ none
    → IsQueue (dequeued m fresh c xs) xs
dequeued-IsQueue m fresh c xs q unused = record {
  chain =
      Chain-write c.at fresh none (some c.value)
        (All-both xs (head-Apart q.chain) (Chain-unused_int fresh unused (tail-Chain q.chain)))
        (tail-Chain q.chain);
  head = refl;
  tail = after xs (tail-Chain q.chain) q.tail;
}
  where
    All-both :
        (ys : List Cell)
        → All (Apart c) ys
        → All (λ d. fresh ≢ d.fd) ys
        → All (λ d. (c.at ≢ d.at) × (fresh ≢ d.fd)) ys
    All-both [] a b = tt
    All-both (y ∷ ys) a b = ((a.0.0, b.0), All-both ys a.1 b.1)

    after :
        (ys : List Cell)
        → Chain m.nodes m.ints ys
        → m.tail ≡ (last c ys).at
        → TailAt (if first ys == null then null else m.tail) ys
    after [] h e = tt
    after (y ∷ ys) h e = rw (==_ne y.at null (head-Holds h).at_ne) e

-- For a queue c, xs and a fresh integer, dequeue returns that integer and the arrival time of c,
-- writes the descriptor of c to it, frees the node of c and leaves the queue xs; the integer that
-- enqueue was given stays allocated, and nothing is closed.
pub dequeue-cons :
    (m : Memory) (fresh : Ptr) (c : Cell) (xs : List Cell)
    → IsQueue m (c ∷ xs)
    → fresh ≢ null
    → m.ints fresh ≡ none
    → Returns
        (λ r g.
          (r ≡ some (fresh, c.arrival))
          × (g.ints fresh ≡ some c.value)
          × IsQueue g xs
          × (g.nodes c.at ≡ none)
          × (g.ints c.fd ≡ some c.value)
          × (g.closed ≡ m.closed))
        (dequeue fresh m)
dequeue-cons m fresh c xs q ne unused = rw (dequeue-ok m fresh c xs q ne) (
    returned (
      refl,
      write_self m.ints fresh _,
      dequeued-IsQueue m fresh c xs q unused,
      write_self m.nodes c.at none,
      write_ne m.ints fresh c.fd _ (ne_of_none m.ints fresh c.fd unused h.int) ∙ h.int,
      refl,
    ))
  where
    h : Holds m.nodes m.ints c (first xs)
    h = head-Holds q.chain

abbrev head_dropped : Memory → Cell → List Cell → Memory
head_dropped m c xs = record {
  head = first xs;
  tail = m.tail;
  nodes = write m.nodes c.at none;
  ints = write m.ints c.fd none;
  closed = m.closed;
}

drop_head-ok :
    (m : Memory) (c : Cell) (xs : List Cell)
    → IsQueue m (c ∷ xs)
    → drop_head m ≡ ok tt (head_dropped m c xs)
unfolding drop_head
drop_head-ok m c xs q =
    let h = head-Holds q.chain in ground (arith, h.node, h.int, h.at_ne, h.fd_ne, q.head)

head_dropped-tail :
    (m : Memory) (c : Cell) (xs : List Cell) → m.tail ≡ (last c xs).at → TailAt m.tail xs
head_dropped-tail m c [] e = tt
head_dropped-tail m c (d ∷ xs) e = e

abbrev DropsHead : Memory → List Cell → Type 0
DropsHead m [] = drop_head m ≡ fault
DropsHead m (c ∷ rest) =
    Returns
      (λ _ g. IsQueue g rest × (g.nodes c.at ≡ none) × (g.ints c.fd ≡ none) × (g.closed ≡ m.closed))
      (drop_head m)

-- On a queue c, xs drop_head leaves xs, frees the node and the integer of c and closes nothing; on
-- an empty queue it faults.
drop_head_lem : (m : Memory) (xs : List Cell) → IsQueue m xs → DropsHead m xs
unfolding drop_head
drop_head_lem m [] q = ground (arith, q.head)
drop_head_lem m (c ∷ rest) q = rw (drop_head-ok m c rest q) (
    returned (
      record {
        chain = Chain-write c.at c.fd none none (head-Apart q.chain) (tail-Chain q.chain);
        head = refl;
        tail = head_dropped-tail m c rest q.tail;
      },
      write_self m.nodes c.at none,
      write_self m.ints c.fd none,
      refl,
    ))
