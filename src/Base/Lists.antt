-- ===== src/Base/Lists.antt =====
-- Lists measured, indexed and counted by native numbers, under the library's names.
use Prim.Native.Nat.{ℕ, zero, suc, ◌+◌, ◌-◌, ◌≤◌}
use mathlib.Core.Path.{◌≡◌, refl, ap, subst}
use mathlib.Core.List.{List, [], ◌∷◌, ◌++◌, map}
use mathlib.Core.Option.{Option, none, some, some-injective}
use native.Mathlib.Omega.{arith}
use ftf_interview.Base.Tests.{◌==◌, if◌then◌else◌}

module _ {ℓ} {A : Type ℓ} where
  abbrev pub length : List A → ℕ
  length [] = 0
  length (x ∷ xs) = suc (length xs)

  abbrev pub get_elem? : List A → ℕ → Option A
  get_elem? [] i = none
  get_elem? (x ∷ xs) zero = some x
  get_elem? (x ∷ xs) (suc i) = get_elem? xs i

  -- A write out of bounds changes nothing.
  abbrev pub set : List A → ℕ → A → List A
  set [] i v = []
  set (x ∷ xs) zero v = v ∷ xs
  set (x ∷ xs) (suc i) v = x ∷ set xs i v

  abbrev pub replicate : ℕ → A → List A
  replicate zero a = []
  replicate (suc n) a = a ∷ replicate n a

  abbrev pub take : ℕ → List A → List A
  take zero xs = []
  take (suc n) [] = []
  take (suc n) (x ∷ xs) = x ∷ take n xs

  abbrev pub drop : ℕ → List A → List A
  drop zero xs = xs
  drop (suc n) [] = []
  drop (suc n) (x ∷ xs) = drop n xs

  pub take-append-drop : (n : ℕ) (xs ys : List A) → take n xs ++ (drop n xs ++ ys) ≡ xs ++ ys
  take-append-drop zero xs ys = refl
  take-append-drop (suc n) [] ys = refl
  take-append-drop (suc n) (x ∷ xs) ys = ap (λ l. x ∷ l) (take-append-drop n xs ys)

  pub take-drop : (n : ℕ) (xs : List A) → take n xs ++ drop n xs ≡ xs
  take-drop zero xs = refl
  take-drop (suc n) [] = refl
  take-drop (suc n) (x ∷ xs) = ap (λ l. x ∷ l) (take-drop n xs)

  -- Of two lists together, the first is taken whole.
  pub take-append :
      (n m : ℕ) (xs ys : List A) → length xs + m ≡ n → take n (xs ++ ys) ≡ xs ++ take m ys
  take-append n m [] ys e = let e' : n ≡ m = omega (arith, e) in ap (λ k. take k ys) e'
  take-append zero m (x ∷ xs) ys e = absurd (omega (arith, e))
  take-append (suc n) m (x ∷ xs) ys e = ap (λ l. x ∷ l) (take-append n m xs ys (omega (arith, e)))

  pub drop-append : (n m : ℕ) (xs ys : List A) → length xs + m ≡ n → drop n (xs ++ ys) ≡ drop m ys
  drop-append n m [] ys e = let e' : n ≡ m = omega (arith, e) in ap (λ k. drop k ys) e'
  drop-append zero m (x ∷ xs) ys e = absurd (omega (arith, e))
  drop-append (suc n) m (x ∷ xs) ys e = drop-append n m xs ys (omega (arith, e))

  pub length-take : (n : ℕ) (xs : List A) → length (take n xs) ≤ n
  length-take zero xs = omega arith
  length-take (suc n) [] = omega arith
  length-take (suc n) (x ∷ xs) = omega (arith, length-take n xs)

  pub length-drop : (n : ℕ) (xs : List A) → length (drop n xs) ≡ length xs - n
  length-drop zero xs = omega arith
  length-drop (suc n) [] = omega arith
  length-drop (suc n) (x ∷ xs) = omega (arith, length-drop n xs)

  pub length-append : (xs ys : List A) → length (xs ++ ys) ≡ length xs + length ys
  length-append [] ys = omega arith
  length-append (x ∷ xs) ys = omega (arith, length-append xs ys)

  pub length-set : (xs : List A) (i : ℕ) (v : A) → length (set xs i v) ≡ length xs
  length-set [] i v = refl
  length-set (x ∷ xs) zero v = refl
  length-set (x ∷ xs) (suc i) v = ap suc (length-set xs i v)

  pub length-replicate : (n : ℕ) (a : A) → length (replicate n a) ≡ n
  length-replicate zero a = refl
  length-replicate (suc n) a = ap suc (length-replicate n a)

  -- A predicate that holds of every element.
  abbrev pub All {κ} : (A → Type κ) → List A → Type κ
  All P [] = Unit
  All P (x ∷ xs) = P x × All P xs

  pub All-get {κ} :
      (P : A → Type κ) (xs : List A) (i : ℕ) (a : A) → All P xs → get_elem? xs i ≡ some a → P a
  All-get P [] i a h e = ground arith
  All-get P (x ∷ xs) zero a h e = subst P (some-injective x a e) h.0
  All-get P (x ∷ xs) (suc i) a h e = All-get P xs i a h.1 e

  pub All-set {κ} :
      (P : A → Type κ) (xs : List A) (i : ℕ) (v : A) → All P xs → P v → All P (set xs i v)
  All-set P [] i v h p = tt
  All-set P (x ∷ xs) zero v h p = (p, h.1)
  All-set P (x ∷ xs) (suc i) v h p = (h.0, All-set P xs i v h.1 p)

  pub All-append {κ} : (P : A → Type κ) (xs ys : List A) → All P xs → All P ys → All P (xs ++ ys)
  All-append P [] ys h k = k
  All-append P (x ∷ xs) ys h k = (h.0, All-append P xs ys h.1 k)

pub length-map {ℓ κ} :
    {A : Type ℓ} {B : Type κ} (f : A → B) (xs : List A) → length (map f xs) ≡ length xs
length-map f [] = refl
length-map f (x ∷ xs) = ap suc (length-map f xs)

pub All-map {ℓ κ μ} :
    {A : Type ℓ} (P : A → Type κ) (Q : A → Type μ) (xs : List A)
    → ((a : A) → P a → Q a)
    → All P xs
    → All Q xs
All-map P Q [] f h = tt
All-map P Q (x ∷ xs) f h = (f x h.0, All-map P Q xs f h.1)

-- How often a number stands in a list.
abbrev pub count : ℕ → List ℕ → ℕ
count n [] = 0
count n (x ∷ xs) = let rest = count n xs in if x == n then suc rest else rest

pub count-append : (n : ℕ) (xs ys : List ℕ) → count n (xs ++ ys) ≡ count n xs + count n ys
count-append n [] ys = omega arith
count-append n (x ∷ xs) ys = ground (arith, count-append n xs ys)

-- A sum over a list.
module _ {A : Type 0} (f : A → ℕ) where
  unfoldable pub total : List A → ℕ
  total [] = 0
  total (x ∷ xs) = f x + total xs

  pub total-append : (xs ys : List A) → total (xs ++ ys) ≡ total xs + total ys
  unfolding total
  total-append [] ys = omega arith
  total-append (x ∷ xs) ys = omega (arith, total-append xs ys)

  -- An element replaced by another.
  pub total-set :
      (xs : List A) (i : ℕ) (old new : A)
      → get_elem? xs i ≡ some old
      → total (set xs i new) + f old ≡ total xs + f new
  unfolding total
  total-set [] i old new e = ground arith
  total-set (x ∷ xs) zero old new e = ground arith
  total-set (x ∷ xs) (suc i) old new e = omega (arith, total-set xs i old new e)

  pub total-map :
      (g : A → A) → ((a : A) → f (g a) ≡ f a) → (xs : List A) → total (map g xs) ≡ total xs
  unfolding total
  total-map g same [] = refl
  total-map g same (x ∷ xs) = omega (arith, same x, total-map g same xs)

  pub total-replicate : (n : ℕ) (a : A) → f a ≡ 0 → total (replicate n a) ≡ 0
  unfolding total
  total-replicate zero a e = refl
  total-replicate (suc n) a e = omega (arith, total-replicate n a e)

  -- An element's share.
  pub le-total : (xs : List A) (i : ℕ) (a : A) → get_elem? xs i ≡ some a → f a ≤ total xs
  unfolding total
  le-total [] i a e = ground arith
  le-total (x ∷ xs) zero a e = ground arith
  le-total (x ∷ xs) (suc i) a e = omega (arith, le-total xs i a e)

pub total_mono :
    {A : Type 0} (f g : A → ℕ) → ((a : A) → f a ≤ g a) → (xs : List A) → total f xs ≤ total g xs
unfolding total
total_mono f g le [] = omega arith
total_mono f g le (x ∷ xs) = omega (arith, le x, total_mono f g le xs)
