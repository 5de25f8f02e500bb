-- ===== src/Base/Addresses.antt =====
-- Memory that is addressed by numbers: what `malloc` handed out and `free` has not taken back.
use Prim.Native.Nat.{ℕ}
use mathlib.Core.Path.{◌≡◌}
use mathlib.Core.Logic.{◌≢◌}
use mathlib.Core.Option.{Option, none, some}
use native.Mathlib.Omega.{arith}
use ftf_interview.Base.Tests.{◌==◌, if◌then◌else◌}

-- An address; the null pointer is 0.
abbrev pub Ptr : Type 0
Ptr = ℕ

abbrev pub null : Ptr
null = 0

abbrev pub Store : Type 0 → Type 0
Store A = Ptr → Option A

module _ {A : Type 0} where
  unfoldable pub write : Store A → Ptr → Option A → Store A
  write m p v q = if p == q then v else m q

  pub write_self : (m : Store A) (p : Ptr) (v : Option A) → write m p v p ≡ v
  unfolding write
  write_self m p v = ground arith

  pub write_ne : (m : Store A) (p q : Ptr) (v : Option A) → p ≢ q → write m p v q ≡ m q
  unfolding write
  write_ne m p q v h = ground arith

  -- An address that holds a value differs from one that holds none.
  pub ne_of_none : (m : Store A) (p q : Ptr) {a : A} → m p ≡ none → m q ≡ some a → p ≢ q
  ne_of_none m p q e h same = ground arith
