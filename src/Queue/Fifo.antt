-- ===== src/Queue/Fifo.antt =====
-- `enqueue`, `dequeue` and `drop_head` against a queue of connections.
use ftf_interview.Base.{
  true, ◌≡◌, ◌≢◌, refl, sym, ap, ◌∙◌, inl, inr, false, ◌&&◌, not, none, some, List, [], ◌∷◌, ◌++◌,
  arith, All, All-map, Ptr, null, write, write_self, write_ne, ==_ne, ◌==◌, Bool-cases,
}
use ftf_interview.Queue.{Memory, ok, load, load_int, store, set_next, free, free_int, enqueue}
use ftf_interview.Queue.Returns.{Returns, returned}
use ftf_interview.Queue.Chain.{
  Cell, node_of, last, Holds, Apart, nil, cons, IsQueue, head-Holds, Chain-frame, Chain-unused,
  last-Holds, last-snoc, Chain-snoc, Agree,
}

module _ {m : Memory} {c : Cell} {next : Ptr} (h : Holds m.nodes m.ints c next) where
  pub load-ok : load c.at m ≡ ok (node_of c next) m
  unfolding load
  load-ok = rw (h.node, load, ==_ne _ _ h.at_ne)

  pub load-at : (q : Ptr) → q ≡ c.at → load q m ≡ ok (node_of c next) m
  load-at q e = ap (λ r. load r m) e ∙ load-ok

  pub load_int-ok : load_int c.fd m ≡ ok c.value m
  unfolding load_int
  load_int-ok = rw (h.int, load_int, ==_ne _ _ h.fd_ne)

  pub set_next-ok :
      (p : Ptr)
      → set_next c.at p m ≡ ok tt (record m { nodes = write m.nodes c.at (some (node_of c p)) })
  unfolding set_next store
  set_next-ok p = rw (load-ok, ==_ne _ _ h.at_ne)

  pub set_next-at :
      (q p : Ptr)
      → q ≡ c.at
      → set_next q p m ≡ ok tt (record m { nodes = write m.nodes c.at (some (node_of c p)) })
  set_next-at q p e = ap (λ r. set_next r p m) e ∙ set_next-ok p

  pub free-ok : free c.at m ≡ ok tt (record m { nodes = write m.nodes c.at none })
  unfolding free
  free-ok = rw load-ok

  pub free_int-ok : free_int c.fd m ≡ ok tt (record m { ints = write m.ints c.fd none })
  unfolding free_int
  free_int-ok = rw load_int-ok

pub head-null : {m : Memory} → IsQueue m [] → (m.head == null) ≡ true
head-null q = ap (λ p. p == null) q.head

-- A queue that is not empty starts at a node.
pub head-ne :
    {m : Memory} {c : Cell} {xs : List Cell} → IsQueue m (c ∷ xs) → (m.head == null) ≡ false
head-ne q = rw q.head (==_ne _ _ (head-Holds q.chain).at_ne)

-- A new node at the end, and how the three branches reach it.
enqueue-nil :
    {m : Memory} (c : Cell)
    → IsQueue m []
    → c.at ≢ null
    → enqueue c.at c.fd c.arrival m
      ≡ ok tt (record m {
        head = c.at;
        tail = c.at;
        nodes = write m.nodes c.at (some (node_of c null));
      })
unfolding enqueue
enqueue-nil c q ne = rw (==_ne _ _ ne, q.head) refl

-- The memory after the node is set, before it is linked.
abbrev stored : Memory → Cell → Memory
stored m c = record m { nodes = write m.nodes c.at (some (node_of c null)) }

enqueue-cons :
    (m : Memory) {d : Cell} {xs : List Cell} (c : Cell)
    → IsQueue (stored m c) (d ∷ xs)
    → c.at ≢ null
    → enqueue c.at c.fd c.arrival m
      ≡ ok tt (record (stored m c) {
        tail = c.at;
        nodes = write (stored m c).nodes (last d xs).at (some (node_of (last d xs) c.at));
      })
unfolding enqueue
enqueue-cons m {d} {xs} c q ne =
    let end = last-Holds xs q.chain in
    rw (==_ne _ _ ne, head-ne q)
      (elim (Bool-cases ((m.tail == m.head) && not (m.tail == null))) [
        | inl one ↦
            let same : m.head ≡ (last d xs).at = ground (arith, q.tail) in
            rw one (set_next-at {m = record (stored m c) { tail = c.at }} end m.head c.at same)
        | inr more ↦ rw (more, set_next-at {m = stored m c} end m.tail c.at q.tail) refl
      ])

-- `c` stands for a connection that is not in memory yet: its address is what `malloc` returned,
-- and its integer is allocated and belongs to no entry of the queue.
pub record IsNew (m : Memory) (xs : List Cell) (c : Cell) : Type 0 where
  pub at_unused : m.nodes c.at ≡ none
  pub at_ne : c.at ≢ null
  pub int : m.ints c.fd ≡ some c.value
  pub fd_ne : c.fd ≢ null
  pub unshared : All (λ d. d.fd ≢ c.fd) xs

module _ (m : Memory) (c : Cell) where
  new-Holds : {xs : List Cell} → IsNew m xs c → Holds (stored m c).nodes m.ints c null
  new-Holds new = record {
    node = write_self m.nodes c.at _;
    int = new.int;
    at_ne = new.at_ne;
    fd_ne = new.fd_ne;
  }

  stored-Agree :
      (xs : List Cell)
      → All (λ d. c.at ≢ d.at) xs
      → All (Agree m.nodes m.ints (stored m c).nodes m.ints) xs
  stored-Agree xs off =
      All-map (λ d. c.at ≢ d.at) (Agree m.nodes m.ints (stored m c).nodes m.ints) xs
        (λ d ne. (write_ne m.nodes c.at d.at _ ne, refl)) off

  new-Apart :
      (xs : List Cell)
      → All (λ d. c.at ≢ d.at) xs
      → All (λ d. d.fd ≢ c.fd) xs
      → All (λ d. Apart d c) xs
  new-Apart [] off un = tt
  new-Apart (d ∷ xs) off un = ((λ e. off.0 (sym e), un.0), new-Apart xs off.1 un.1)

  -- For a queue xs in memory and a connection c that is newly allocated, enqueue ends without a
  -- fault and the memory then holds xs followed by c, whichever of its three branches is taken; no
  -- integer changes and nothing is closed.
  pub enqueue-append :
      (xs : List Cell)
      → IsQueue m xs
      → IsNew m xs c
      → Returns
          (λ _ g. IsQueue g (xs ++ c ∷ []) × (g.ints ≡ m.ints) × (g.closed ≡ m.closed))
          (enqueue c.at c.fd c.arrival m)
  enqueue-append [] q new = rw (enqueue-nil c q new.at_ne) (
      returned
        (record { chain = cons (new-Holds new) tt nil; head = refl; tail = refl }, refl, refl))
  enqueue-append (d ∷ xs) q new =
      let off = Chain-unused c.at new.at_unused q.chain in
      let kept = Chain-frame (stored-Agree (d ∷ xs) off) q.chain in
      let q' : IsQueue (stored m c) (d ∷ xs) = record {
        chain = kept;
        head = q.head;
        tail = q.tail;
      } in
      rw (enqueue-cons m c q' new.at_ne) (
        returned (
          record {
            chain = Chain-snoc xs c kept (new-Apart (d ∷ xs) off new.unshared) (new-Holds new);
            head = q.head;
            tail = ap (λ e. e.at) (sym (last-snoc d xs c));
          },
          refl,
          refl,
        ))
