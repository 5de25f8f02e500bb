-- ===== src/Queue/Returns.antt =====
-- Total correctness of a command: it neither faults nor runs out of fuel, and its result and final
-- memory satisfy a predicate.
use ftf_interview.Base.{◌≡◌, refl, subst}
use ftf_interview.Queue.{Memory, Run, ok, fault, out_of_fuel, Cmd, and_then}

pub data Returns {A : Type 0} (P : A → Memory → Type 0) : Run A → Type 0 where
  returned : {a : A} {m : Memory} → P a m → Returns P (ok a m)

module _ {A : Type 0} {P : A → Memory → Type 0} where
  pub bind :
      {B : Type 0} {Q : B → Memory → Type 0} {r : Run A} {k : A → Cmd B}
      → Returns P r
      → ((a : A) (m : Memory) → P a m → Returns Q (k a m))
      → Returns Q (and_then r k)
  bind (returned p) then = then _ _ p

  pub weaken :
      {Q : A → Memory → Type 0} {r : Run A}
      → Returns P r
      → ((a : A) (m : Memory) → P a m → Q a m)
      → Returns Q r
  weaken (returned p) f = returned (f _ _ p)

-- What is known of a run is known of its outcome.
abbrev Outcome : {A : Type 0} → (A → Memory → Type 0) → Run A → Type 0
Outcome P (ok a m) = P a m
Outcome P fault = Unit
Outcome P out_of_fuel = Unit

pub Returns-ok :
    {A : Type 0} {P : A → Memory → Type 0} {r : Run A} (a : A) (m : Memory)
    → Returns P r
    → r ≡ ok a m
    → P a m
Returns-ok {P} a m (returned p) e = subst (Outcome P) e p

pub and_then_assoc :
    {A B C : Type 0} (r : Run A) (f : A → Cmd B) (g : B → Cmd C)
    → and_then r (λ a. λ m. and_then (f a m) g) ≡ and_then (and_then r f) g
and_then_assoc (ok a m) f g = refl
and_then_assoc fault f g = refl
and_then_assoc out_of_fuel f g = refl
