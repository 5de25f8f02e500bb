-- ===== src/Queue/Chain.antt =====
-- The chain of nodes that a list of connections stands for, and what keeps it.
use ftf_interview.Base.{
  ℕ, ◌≡◌, ◌≢◌, refl, sym, ◌∙◌, Option, none, some, List, [], ◌∷◌, ◌++◌, arith, All, All-append,
  All-map, Ptr, null, Store, write, write_self, write_ne,
}
use ftf_interview.Queue.{Timeval, Node, Memory}

-- One entry: its node, the integer that the node points to, and what the two hold.
pub record Cell : Type 0 where
  pub at : Ptr
  pub fd : Ptr
  pub value : ℕ
  pub arrival : Timeval

abbrev pub node_of : Cell → Ptr → Node
node_of c next = record { next = next; fd = c.fd; arrival = c.arrival }

abbrev pub first : List Cell → Ptr
first [] = null
first (c ∷ xs) = c.at

abbrev pub last : Cell → List Cell → Cell
last c [] = c
last c (d ∷ xs) = last d xs

pub record Holds (n : Store Node) (i : Store ℕ) (c : Cell) (next : Ptr) : Type 0 where
  pub node : n c.at ≡ some (node_of c next)
  pub int : i c.fd ≡ some c.value
  pub at_ne : c.at ≢ null
  pub fd_ne : c.fd ≢ null

abbrev pub Apart : Cell → Cell → Type 0
Apart c d = (c.at ≢ d.at) × (c.fd ≢ d.fd)

pub data Chain (n : Store Node) (i : Store ℕ) : List Cell → Type 0 where
  nil : Chain n i []
  cons :
      {c : Cell} {xs : List Cell}
      → Holds n i c (first xs)
      → All (Apart c) xs
      → Chain n i xs
      → Chain n i (c ∷ xs)

abbrev pub TailAt : Ptr → List Cell → Type 0
TailAt t [] = Unit
TailAt t (c ∷ xs) = t ≡ (last c xs).at

-- The memory holds the queue `xs`, oldest first; of an empty queue `tail` may be stale.
pub record IsQueue (m : Memory) (xs : List Cell) : Type 0 where
  pub chain : Chain m.nodes m.ints xs
  pub head : m.head ≡ first xs
  pub tail : TailAt m.tail xs

pub All-last {ℓ} : (P : Cell → Type ℓ) (c : Cell) (xs : List Cell) → All P (c ∷ xs) → P (last c xs)
All-last P c [] h = h.0
All-last P c (d ∷ xs) h = All-last P d xs h.1

pub last-snoc : (c : Cell) (xs : List Cell) (d : Cell) → last c (xs ++ d ∷ []) ≡ d
last-snoc c [] d = refl
last-snoc c (x ∷ xs) d = last-snoc x xs d

-- Two memories that agree at the addresses of a cell.
abbrev pub Agree : Store Node → Store ℕ → Store Node → Store ℕ → Cell → Type 0
Agree n i n' i' c = (n' c.at ≡ n c.at) × (i' c.fd ≡ i c.fd)

module _ {n n' : Store Node} {i i' : Store ℕ} where
  pub Holds-frame :
      {c : Cell} {next : Ptr} → Agree n i n' i' c → Holds n i c next → Holds n' i' c next
  Holds-frame (e, f) h = record {
    node = e ∙ h.node;
    int = f ∙ h.int;
    at_ne = h.at_ne;
    fd_ne = h.fd_ne;
  }

  -- A chain survives every change that spares its own addresses.
  pub Chain-frame : {xs : List Cell} → All (Agree n i n' i') xs → Chain n i xs → Chain n' i' xs
  Chain-frame same nil = nil
  Chain-frame same (cons h apart rest) = cons (Holds-frame same.0 h) apart (Chain-frame same.1 rest)

module _ {n : Store Node} {i : Store ℕ} where
  pub Holds-used : (p : Ptr) {c : Cell} {q : Ptr} → n p ≡ none → Holds n i c q → p ≢ c.at
  Holds-used p e h same = ground (arith, h.node)

  -- An unused address is not in the chain.
  pub Chain-unused : {xs : List Cell} (p : Ptr) → n p ≡ none → Chain n i xs → All (λ c. p ≢ c.at) xs
  Chain-unused p e nil = tt
  Chain-unused p e (cons h apart rest) = (Holds-used p e h, Chain-unused p e rest)

  pub Holds-unused_int : (p : Ptr) {c : Cell} {q : Ptr} → i p ≡ none → Holds n i c q → p ≢ c.fd
  Holds-unused_int p e h same = ground (arith, h.int)

  pub Chain-unused_int :
      {xs : List Cell} (p : Ptr) → i p ≡ none → Chain n i xs → All (λ c. p ≢ c.fd) xs
  Chain-unused_int p e nil = tt
  Chain-unused_int p e (cons h apart rest) = (Holds-unused_int p e h, Chain-unused_int p e rest)

  pub head-Holds : {c : Cell} {xs : List Cell} → Chain n i (c ∷ xs) → Holds n i c (first xs)
  head-Holds (cons h apart rest) = h

  pub head-Apart : {c : Cell} {xs : List Cell} → Chain n i (c ∷ xs) → All (Apart c) xs
  head-Apart (cons h apart rest) = apart

  pub tail-Chain : {c : Cell} {xs : List Cell} → Chain n i (c ∷ xs) → Chain n i xs
  tail-Chain (cons h apart rest) = rest

  pub last-Holds : {c : Cell} (xs : List Cell) → Chain n i (c ∷ xs) → Holds n i (last c xs) null
  last-Holds [] (cons h apart rest) = h
  last-Holds (d ∷ xs) (cons h apart rest) = last-Holds xs rest

  -- The last node linked to a new one at the end.
  pub Chain-snoc :
      {c : Cell} (xs : List Cell) (new : Cell)
      → Chain n i (c ∷ xs)
      → All (λ d. Apart d new) (c ∷ xs)
      → Holds n i new null
      → Chain (write n (last c xs).at (some (node_of (last c xs) new.at))) i ((c ∷ xs) ++ new ∷ [])
  Chain-snoc {c} [] new (cons h apart nil) off k =
      cons (record { node = write_self n c.at _; int = h.int; at_ne = h.at_ne; fd_ne = h.fd_ne })
        (off.0, tt) (cons (Holds-frame (write_ne n c.at new.at _ off.0.0, refl) k) tt nil)
  Chain-snoc {c} (d ∷ xs) new (cons h apart rest) off k =
      cons
        (Holds-frame
          (write_ne n (last d xs).at c.at _ (λ e. (All-last (Apart c) d xs apart).0 (sym e)), refl)
          h)
        (All-append (Apart c) (d ∷ xs) (new ∷ []) apart (off.0, tt))
        (Chain-snoc xs new rest off.1 k)

-- A write to a node and to an integer that no cell of the chain uses.
pub Chain-write :
    {n : Store Node} {i : Store ℕ} {xs : List Cell} (p q : Ptr) (v : Option Node) (w : Option ℕ)
    → All (λ d. (p ≢ d.at) × (q ≢ d.fd)) xs
    → Chain n i xs
    → Chain (write n p v) (write i q w) xs
Chain-write {n} {i} {xs} p q v w off h =
    Chain-frame
      (All-map (λ d. (p ≢ d.at) × (q ≢ d.fd)) (Agree n i (write n p v) (write i q w)) xs
        (λ d (a, b). (write_ne n p d.at v a, write_ne i q d.fd w b)) off)
      h
