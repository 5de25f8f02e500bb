-- ===== src/Queue/Order.antt =====
-- A history of `enqueue` and `dequeue` is first in, first out.
use ftf_interview.Base.{
  ℕ, ◌≡◌, ◌≢◌, refl, sym, ◌∙◌, Option, none, some, List, [], ◌∷◌, ◌++◌, append_assoc, arith, All,
  Ptr, null, map, map-append,
}
use ftf_interview.Queue.{Timeval, Node, Memory, ok, enqueue, dequeue}
use ftf_interview.Queue.Returns.{Returns-ok}
use ftf_interview.Queue.Fifo.{IsNew, enqueue-append}
use ftf_interview.Queue.Dequeue.{dequeue-cons, dequeue-nil}
use ftf_interview.Queue.Chain.{Cell, Chain, nil, cons, IsQueue}

-- The globals at the start of the program, over some memory.
pub record IsInitial (m : Memory) : Type 0 where
  pub head : m.head ≡ null
  pub tail : m.tail ≡ null

-- What `malloc` and the caller promise for a new entry: its node and its integer are allocated
-- for it, so no node in use has either of them.
pub record IsAllocated (m : Memory) (c : Cell) : Type 0 where
  pub at_unused : m.nodes c.at ≡ none
  pub at_ne : c.at ≢ null
  pub int : m.ints c.fd ≡ some c.value
  pub fd_ne : c.fd ≢ null
  pub unshared : (p : Ptr) (n : Node) → m.nodes p ≡ some n → n.fd ≢ c.fd

abbrev pub Entry : Type 0
Entry = ℕ × Timeval

abbrev pub entry : Cell → Entry
entry c = (c.value, c.arrival)

-- A history with the memory it ends in, what was enqueued and what was dequeued, oldest first.
pub data History : Memory → List Entry → List Entry → Type 0 where
  start : {m : Memory} → IsInitial m → History m [] []
  enqueues :
      {m g : Memory} {ins outs : List Entry} (c : Cell)
      → History m ins outs
      → IsAllocated m c
      → enqueue c.at c.fd c.arrival m ≡ ok tt g
      → History g (ins ++ entry c ∷ []) outs
  dequeues :
      {m g : Memory} {ins outs : List Entry} (fresh v : ℕ) (t : Timeval)
      → History m ins outs
      → fresh ≢ null
      → m.ints fresh ≡ none
      → dequeue fresh m ≡ ok (some (fresh, t)) g
      → g.ints fresh ≡ some v
      → History g ins (outs ++ (v, t) ∷ [])

unshared-All :
    {m : Memory} {c : Cell} {xs : List Cell}
    → IsAllocated m c
    → Chain m.nodes m.ints xs
    → All (λ d. d.fd ≢ c.fd) xs
unshared-All new nil = tt
unshared-All new (cons {c = d} h apart rest) = (new.unshared d.at _ h.node, unshared-All new rest)

-- The queue that a history leaves, with what is still to come out of it.
abbrev pub Leaves : Memory → List Entry → List Entry → Type 0
Leaves m ins outs = (xs : List Cell) × IsQueue m xs × (ins ≡ outs ++ map entry xs)

enqueues-Leaves :
    (m g : Memory) (ins outs : List Entry) (c : Cell)
    → Leaves m ins outs
    → IsAllocated m c
    → enqueue c.at c.fd c.arrival m ≡ ok tt g
    → Leaves g (ins ++ entry c ∷ []) outs
enqueues-Leaves m g ins outs c (xs, q, e) new run =
    let is : IsNew m xs c = record {
      at_unused = new.at_unused;
      at_ne = new.at_ne;
      int = new.int;
      fd_ne = new.fd_ne;
      unshared = unshared-All new q.chain;
    } in
    let (q', _, _) = Returns-ok tt g (enqueue-append m c xs q is) run in
    (xs ++ c ∷ [], q', simp (e, append_assoc, map-append))

some_eq : {a b : ℕ} → some a ≡ some b → a ≡ b
some_eq e = ground arith

arrival_eq :
    {p q : Ptr} {t u : Timeval}
    → ◌≡◌ {A = Option (Ptr × Timeval)} (some (p, t)) (some (q, u))
    → t ≡ u
arrival_eq e = ground arith

dequeues-Leaves :
    (m g : Memory) (ins outs : List Entry) (fresh v : ℕ) (t : Timeval)
    → Leaves m ins outs
    → fresh ≢ null
    → m.ints fresh ≡ none
    → dequeue fresh m ≡ ok (some (fresh, t)) g
    → g.ints fresh ≡ some v
    → Leaves g ins (outs ++ (v, t) ∷ [])
dequeues-Leaves m g ins outs fresh v t ([], q, e) ne unused run read =
    absurd (ground (arith, dequeue-nil m fresh q))
dequeues-Leaves m g ins outs fresh v t (c ∷ xs, q, e) ne unused run read =
    let (r, i, q', _, _, _) = Returns-ok _ g (dequeue-cons m fresh c xs q ne unused) run in
    (
      xs,
      q',
      e
          ∙ rw (some_eq (sym read ∙ i), arrival_eq r)
              (sym (append_assoc outs (entry c ∷ []) (map entry xs))),
    )

-- After any history of enqueue and dequeue calls from empty globals, with each new entry freshly
-- allocated, the memory holds a queue, and what was enqueued (descriptor and arrival time) is what
-- was dequeued, in the same order, followed by what that queue holds.
pub History-Leaves : {m : Memory} {ins outs : List Entry} → History m ins outs → Leaves m ins outs
History-Leaves (start i) = ([], record { chain = nil; head = i.head; tail = tt }, refl)
History-Leaves (enqueues c h new run) = enqueues-Leaves _ _ _ _ c (History-Leaves h) new run
History-Leaves (dequeues fresh v t h ne unused run read) =
    dequeues-Leaves _ _ _ _ fresh v t (History-Leaves h) ne unused run read
