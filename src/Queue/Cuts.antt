-- ===== src/Queue/Cuts.antt =====
-- The inner loop of `random_drop`: one connection is cut out of the chain.
use ftf_interview.Base.{
  ℕ, zero, suc, ◌-◌, ◌<◌, ◌≡◌, refl, sym, ◌∙◌, inl, inr, false, ◌&&◌, not, none, some, List, [],
  ◌∷◌, ◌++◌, arith, All, null, write, write_self, write_ne, ==_ne, ==_refl, ◌==◌, if◌then◌else◌,
  Bool-cases, length,
}
use ftf_interview.Queue.{Memory, ok, and_then, walk, unlink}
use ftf_interview.Queue.Returns
use ftf_interview.Queue.Returns.{Returns, returned, and_then_assoc}
use ftf_interview.Queue.Fifo.{load-ok}
use ftf_interview.Queue.Chain.{
  Cell, node_of, first, last, Apart, Chain, cons, head-Holds, head-Apart, tail-Chain, Chain-write,
  Agree, Holds-frame, Chain-frame, All-last,
}

-- The connection that one round drops, counted from 1; 0 and numbers past the end mean the last.
unfoldable pub drop_one {ℓ} : {A : Type ℓ} → ℕ → List A → List A
drop_one left [] = []
drop_one left (x ∷ []) = []
drop_one left (x ∷ y ∷ ys) = if left == 1 then y ∷ ys else x ∷ drop_one (left - 1) (y ∷ ys)

unfoldable pub picked : ℕ → Cell → List Cell → Cell
picked left x [] = x
picked left x (y ∷ ys) = if left == 1 then x else picked (left - 1) y ys

All-drop_one {ℓ} :
    (P : Cell → Type ℓ) (left : ℕ) (xs : List Cell) → All P xs → All P (drop_one left xs)
unfolding drop_one
All-drop_one P left [] h = tt
All-drop_one P left (x ∷ []) h = tt
All-drop_one P left (x ∷ y ∷ ys) h = elim (Bool-cases (left == 1)) [
  | inl hit ↦ rw hit h.1
  | inr miss ↦ rw miss (h.0, All-drop_one P (left - 1) (y ∷ ys) h.1)
]

-- The part of the queue behind `p`, with one connection cut out of it.
pub record Cut (m : Memory) (left : ℕ) (p t : Cell) (ys : List Cell) (g : Memory) : Type 0 where
  pub chain : Chain g.nodes g.ints (p ∷ drop_one left (t ∷ ys))
  pub frame : (c : Cell) → All (Apart c) (p ∷ t ∷ ys) → Agree m.nodes m.ints g.nodes g.ints c
  pub head : g.head ≡ m.head
  pub tail : g.tail ≡ (last p (drop_one left (t ∷ ys))).at
  pub closed : g.closed ≡ m.closed ++ (picked left t ys).fd ∷ []

-- What `unlink` leaves behind.
abbrev unlinked : Memory → Cell → Cell → List Cell → Memory
unlinked m p t ys = record {
  head = m.head;
  tail = if t.at == m.tail then p.at else m.tail;
  nodes = write (write m.nodes p.at (some (node_of p (first ys)))) t.at none;
  ints = write m.ints t.fd none;
  closed = m.closed ++ t.fd ∷ [];
}

unlink-ok :
    (m : Memory) (p t : Cell) (ys : List Cell)
    → Chain m.nodes m.ints (p ∷ t ∷ ys)
    → unlink p.at t.at m ≡ ok tt (unlinked m p t ys)
unfolding unlink write
unlink-ok m p t ys (cons h apart (cons k apart' rest)) =
    ground (arith, h.node, h.at_ne, k.node, k.int, k.at_ne, k.fd_ne, apart.0.0)

-- The tail after an unlink: `tail` moves only if the last node was cut.
unlinked-tail :
    (m : Memory) (p t : Cell) (ys : List Cell)
    → All (Apart t) ys
    → m.tail ≡ (last t ys).at
    → (if t.at == m.tail then p.at else m.tail) ≡ (last p ys).at
unlinked-tail m p t [] apart e = rw (e, ==_refl t.at) refl
unlinked-tail m p t (y ∷ ys) apart e =
    rw (e, ==_ne t.at (last y ys).at (All-last (Apart t) y ys apart).0) refl

unlink-Chain :
    (m : Memory) (p t : Cell) (ys : List Cell)
    → Chain m.nodes m.ints (p ∷ t ∷ ys)
    → let g = unlinked m p t ys in Chain g.nodes g.ints (p ∷ ys)
unlink-Chain m p t ys (cons h (apart, far) (cons k apart' rest)) =
    cons
      (record {
        node = write_ne _ t.at p.at none (λ e. apart.0 (sym e)) ∙ write_self m.nodes p.at _;
        int = write_ne m.ints t.fd p.fd none (λ e. apart.1 (sym e)) ∙ h.int;
        at_ne = h.at_ne;
        fd_ne = h.fd_ne;
      })
      far (Chain-write t.at t.fd none none apart' (Chain-frame (relinked ys far) rest))
  where
    relinked :
        (zs : List Cell)
        → All (Apart p) zs
        → All (Agree m.nodes m.ints (write m.nodes p.at (some (node_of p (first ys)))) m.ints) zs
    relinked [] a = tt
    relinked (z ∷ zs) a = ((write_ne m.nodes p.at z.at _ a.0.0, refl), relinked zs a.1)

unlink-frame :
    (m : Memory) (p t : Cell) (ys : List Cell) (c : Cell)
    → All (Apart c) (p ∷ t ∷ ys)
    → let g = unlinked m p t ys in Agree m.nodes m.ints g.nodes g.ints c
unlink-frame m p t ys c (a, (b, rest)) = (
  write_ne _ t.at c.at none (λ e. b.0 (sym e)) ∙ write_ne m.nodes p.at c.at _ (λ e. a.0 (sym e)),
  write_ne m.ints t.fd c.fd none (λ e. b.1 (sym e)),
)

-- The cut made at once, where the walk has ended.
unlink-Cut :
    (m : Memory) (left : ℕ) (p t : Cell) (ys : List Cell)
    → Chain m.nodes m.ints (p ∷ t ∷ ys)
    → m.tail ≡ (last t ys).at
    → drop_one left (t ∷ ys) ≡ ys
    → picked left t ys ≡ t
    → Returns (λ _ g. Cut m left p t ys g) (unlink p.at t.at m)
unlink-Cut m left p t ys h e same here = rw (unlink-ok m p t ys h) (
    returned (record {
      chain = rw same (unlink-Chain m p t ys h);
      frame = unlink-frame m p t ys;
      head = refl;
      tail = rw same (unlinked-tail m p t ys (head-Apart (tail-Chain h)) e);
      closed = rw here refl;
    }))

-- A cut further on, seen from one node before.
Cut-cons :
    (m : Memory) (left : ℕ) (p t y : Cell) (ys : List Cell) (g : Memory)
    → Chain m.nodes m.ints (p ∷ t ∷ y ∷ ys)
    → (left == 1) ≡ false
    → Cut m (left - 1) t y ys g
    → Cut m left p t (y ∷ ys) g
unfolding drop_one picked
Cut-cons m left p t y ys g (cons h apart rest) miss c = record {
  chain = rw miss (
      cons (Holds-frame (c.frame p apart) h)
        (apart.0, All-drop_one (Apart p) (left - 1) (y ∷ ys) apart.1) c.chain);
  frame = λ d off. c.frame d off.1;
  head = c.head;
  tail = rw miss c.tail;
  closed = rw miss c.closed;
}

walk-end :
    (m : Memory) (fuel left : ℕ) (p t : Cell) (ys : List Cell)
    → Chain m.nodes m.ints (p ∷ t ∷ ys)
    → (not (left == 1) && not (first ys == null)) ≡ false
    → walk (suc fuel) left p.at t.at m ≡ ok (p.at, t.at) m
unfolding walk
walk-end m fuel left p t ys (cons h apart (cons k apart' rest)) stop =
    rw (load-ok {m = m} k, load-ok {m = m} h, stop) refl

walk-next :
    (m : Memory) (fuel left : ℕ) (p t y : Cell) (ys : List Cell)
    → Chain m.nodes m.ints (p ∷ t ∷ y ∷ ys)
    → (left == 1) ≡ false
    → walk (suc fuel) left p.at t.at m ≡ walk fuel (left - 1) t.at y.at m
unfolding walk
walk-next m fuel left p t y ys (cons h apart (cons k apart' rest)) go =
    rw (load-ok {m = m} k, load-ok {m = m} h, go, ==_ne y.at null (head-Holds rest).at_ne) refl

-- The inner loop and the unlink behind it, with enough fuel for the rest of the queue.
pub walk-Cut :
    (m : Memory) (fuel left : ℕ) (p t : Cell) (ys : List Cell)
    → Chain m.nodes m.ints (p ∷ t ∷ ys)
    → m.tail ≡ (last t ys).at
    → length ys < fuel
    → Returns
        (λ _ g. Cut m left p t ys g)
        (and_then (walk fuel left p.at t.at m) (λ (a, b). unlink a b))
unfolding drop_one picked
walk-Cut m zero left p t ys h e f = absurd (omega arith)
walk-Cut m (suc fuel) left p t [] h e f =
    rw (walk-end m fuel left p t [] h (ground arith)) (unlink-Cut m left p t [] h e refl refl)
walk-Cut m (suc fuel) left p t (y ∷ ys) h e f = elim (Bool-cases (left == 1)) [
  | inl hit ↦
      rw (walk-end m fuel left p t (y ∷ ys) h (rw hit refl))
        (unlink-Cut m left p t (y ∷ ys) h e (rw hit refl) (rw hit refl))
  | inr miss ↦ rw (walk-next m fuel left p t y ys h miss) (
      Returns.weaken (walk-Cut m fuel (left - 1) t y ys (tail-Chain h) e (omega arith))
        λ _ g c. Cut-cons m left p t y ys g h miss c)
]
