-- ===== src/Queue/RandomDrop.antt =====
-- `random_drop` against a queue of connections: which are dropped, and how many are left.
use ftf_interview.Base.{
  ℕ, zero, suc, ◌+◌, ◌-◌, ◌/◌, ◌≤◌, ◌≡◌, refl, ap, ◌∙◌, List, [], ◌∷◌, arith, Ptr, null, ==_ne,
  length, max, min,
}
use ftf_interview.Queue.{
  Memory, and_then, randoms, to_be_deleted, walk, unlink, drop_rounds, random_drop,
}
use ftf_interview.Queue.Returns
use ftf_interview.Queue.Returns.{Returns, returned, and_then_assoc}
use ftf_interview.Queue.Fifo.{load-at, head-ne, head-null}
use ftf_interview.Queue.Chain.{Cell, IsQueue, head-Holds, tail-Chain}
use ftf_interview.Queue.Cuts.{drop_one, Cut, walk-Cut}

-- What the outer loop does to the connections behind the first, and its result.
unfoldable pub drop_many {ℓ} : {A : Type ℓ} → (ℕ → ℕ) → ℕ → ℕ → ℕ → List A → ℕ × List A
unfolding randoms drop_one
drop_many rand zero i higher xs = (1, xs)
drop_many rand (suc rounds) i higher [] = (0, [])
drop_many rand (suc rounds) i higher (x ∷ xs) =
    drop_many rand rounds (i + 1) (higher - 1) (drop_one (randoms (rand i) 0 higher) (x ∷ xs))

length-drop_one-le : (left : ℕ) (xs : List Cell) → length (drop_one left xs) ≤ length xs
unfolding drop_one
length-drop_one-le left [] = omega arith
length-drop_one-le left (x ∷ []) = omega arith
length-drop_one-le left (x ∷ y ∷ ys) = ground (arith, length-drop_one-le (left - 1) (y ∷ ys))

Cut-IsQueue :
    (m g : Memory) (left : ℕ) (h t : Cell) (ys : List Cell)
    → m.head ≡ h.at
    → Cut m left h t ys g
    → IsQueue g (h ∷ drop_one left (t ∷ ys))
Cut-IsQueue m g left h t ys e c = record { chain = c.chain; head = c.head ∙ e; tail = c.tail }

-- One round drops one connection, and leaves a queue to the rounds after it.
round-Cut :
    (rand : ℕ → ℕ) (fuel rounds i higher : ℕ) (m : Memory) (h t : Cell) (ys : List Cell)
    → IsQueue m (h ∷ t ∷ ys)
    → drop_rounds rand fuel (suc rounds) i higher m
      ≡ and_then
          (and_then (walk fuel (randoms (rand i) 0 higher) h.at t.at m) (λ (a, b). unlink a b))
          (λ _. drop_rounds rand fuel rounds (i + 1) (higher - 1))
unfolding drop_rounds
round-Cut rand fuel rounds i higher m h t ys q =
    let left = randoms (rand i) 0 higher in
    let rest = λ (u : Unit {0}). drop_rounds rand fuel rounds (i + 1) (higher - 1) in
    let cut = λ (a : Ptr). and_then (walk fuel left a t.at m) (λ (p, t). unlink p t) in
    rw
      (
        load-at {m = m} (head-Holds q.chain) m.head q.head,
        ==_ne t.at null (head-Holds (tail-Chain q.chain)).at_ne,
      )
      (and_then_assoc (walk fuel left m.head t.at m) (λ (p, t). unlink p t) rest)
    ∙ ap (λ a. and_then (cut a) rest) q.head

drop_rounds_lem :
    (rand : ℕ → ℕ) (fuel rounds i higher : ℕ) (m : Memory) (h : Cell) (xs : List Cell)
    → IsQueue m (h ∷ xs)
    → length xs ≤ fuel
    → let (b, rest) = drop_many rand rounds i higher xs in
      Returns (λ r g. (r ≡ b) × IsQueue g (h ∷ rest)) (drop_rounds rand fuel rounds i higher m)
unfolding drop_many
drop_rounds_lem rand fuel zero i higher m h xs q f = unfold drop_rounds in returned (refl, q)
drop_rounds_lem rand fuel (suc rounds) i higher m h [] q f =
    unfold drop_rounds in
    rw (load-at {m = m} (head-Holds q.chain) m.head q.head) (returned (refl, q))
drop_rounds_lem rand fuel (suc rounds) i higher m h (t ∷ ys) q f =
    let left = randoms (rand i) 0 higher in
    rw (round-Cut rand fuel rounds i higher m h t ys q) (
      Returns.bind (walk-Cut m fuel left h t ys q.chain q.tail f) λ _ g c.
        drop_rounds_lem rand fuel rounds (i + 1) (higher - 1) g h (drop_one left (t ∷ ys))
          (Cut-IsQueue m g left h t ys q.head c) (omega (arith, length-drop_one-le left (t ∷ ys))))

-- What `random_drop` does to the whole queue.
unfoldable pub drop_queue {ℓ} : {A : Type ℓ} → (ℕ → ℕ) → ℕ → List A → ℕ × List A
unfolding to_be_deleted drop_many
drop_queue rand q_max_size [] = (0, [])
drop_queue rand q_max_size (x ∷ xs) =
    let (b, rest) = drop_many rand (to_be_deleted q_max_size) 0 q_max_size xs in (b, x ∷ rest)

-- For a queue xs in memory and fuel of at least its length, random_drop ends without a fault or
-- want of fuel, returns the flag of drop_queue, and leaves the queue of drop_queue: the oldest
-- entry stays, and the random numbers pick, one by one, the entries behind it that go.
pub random_drop_lem :
    (rand : ℕ → ℕ) (fuel q_max_size : ℕ) (m : Memory) (xs : List Cell)
    → IsQueue m xs
    → length xs ≤ fuel
    → let (b, rest) = drop_queue rand q_max_size xs in
      Returns (λ r g. (r ≡ b) × IsQueue g rest) (random_drop rand fuel q_max_size m)
unfolding random_drop drop_queue
random_drop_lem rand fuel q_max_size m [] q f = rw (head-null q) (returned (refl, q))
random_drop_lem rand fuel q_max_size m (x ∷ xs) q f =
    rw (head-ne q)
      (drop_rounds_lem rand fuel (to_be_deleted q_max_size) 0 q_max_size m x xs q (omega arith))

length-drop_one :
    {A : Type 0} (left : ℕ) (x : A) (xs : List A) → length (drop_one left (x ∷ xs)) ≡ length xs
unfolding drop_one
length-drop_one left x [] = refl
length-drop_one left x (y ∷ ys) = ground (arith, length-drop_one (left - 1) y ys)

length-drop_many :
    {A : Type 0} (rand : ℕ → ℕ) (rounds i higher : ℕ) (xs : List A)
    → length (drop_many rand rounds i higher xs).1 ≡ length xs - rounds
unfolding drop_many
length-drop_many rand zero i higher xs = omega arith
length-drop_many rand (suc rounds) i higher [] = omega arith
length-drop_many rand (suc rounds) i higher (x ∷ xs) = omega (
  arith,
  length-drop_many rand rounds (i + 1) (higher - 1) (drop_one (randoms (rand i) 0 higher) (x ∷ xs)),
  length-drop_one (randoms (rand i) 0 higher) x xs,
)

-- Of n entries drop_queue leaves min(n, max(1, n - q)), where q is a quarter of the given size,
-- rounded up.
pub length-drop_queue :
    {A : Type 0} (rand : ℕ → ℕ) (q_max_size : ℕ) (xs : List A)
    → length (drop_queue rand q_max_size xs).1
      ≡ min (length xs) (max 1 (length xs - (q_max_size + 3) / 4))
unfolding drop_queue
length-drop_queue rand q_max_size [] = omega arith
length-drop_queue rand q_max_size (x ∷ xs) =
    ground (arith, length-drop_many rand (to_be_deleted q_max_size) 0 q_max_size xs)
