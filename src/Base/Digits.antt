-- ===== src/Base/Digits.antt =====
-- Reading a number that was printed with its digits.
use Prim.Native.Nat.{ℕ, zero, suc, ◌+◌, ◌-◌, ◌*◌, ◌/◌, ◌%◌, ◌≤◌, ◌<◌}
use mathlib.Core.Path.{◌≡◌, ap, ◌∙◌}
use mathlib.Core.Logic.{inl, inr}
use mathlib.Core.Bool.{true}
use mathlib.Core.List.{[], ◌∷◌, ◌++◌, append_assoc}
use native.Mathlib.Omega.{arith}
use ftf_interview.Base.Tests.{ltb, Bool-cases}
use ftf_interview.Base.Text.{Bytes, is_digit, digits_from, digits_of}

one_digit :
    (value d : ℕ) (s : Bytes)
    → d < 10
    → digits_from value ((b'0' + d) ∷ s) ≡ digits_from (10 * value + d) s
unfolding digits_from
one_digit value d s h =
    let yes : is_digit (b'0' + d) ≡ true = ground arith in
    let same : 10 * value + (b'0' + d - b'0') ≡ 10 * value + d = omega arith in
    rw yes (ap (λ v. digits_from v s) same)

first_digit : (d : ℕ) (s : Bytes) → d < 10 → digits_from 0 ((b'0' + d) ∷ s) ≡ digits_from d s
first_digit d s h = one_digit 0 d s h ∙ ap (λ v. digits_from v s) (omega arith)

pub digits_from-digits_of :
    (fuel n : ℕ) (s : Bytes) → n ≤ fuel → digits_from 0 (digits_of fuel n ++ s) ≡ digits_from n s
unfolding digits_of
digits_from-digits_of zero n s h = first_digit n s (omega (arith, h))
digits_from-digits_of (suc fuel) n s h = elim (Bool-cases (ltb n 10)) [
  | inl y ↦ rw (digits_of, y) (first_digit n s (ground (arith, y)))
  | inr above ↦
      let big : 10 ≤ n = ground (arith, above) in
      rw (digits_of, above)
        (ap (digits_from 0) (append_assoc (digits_of fuel (n / 10)) ((b'0' + n % 10) ∷ []) s)
          ∙ digits_from-digits_of fuel (n / 10) ((b'0' + n % 10) ∷ s) (omega (arith, big, h))
          ∙ one_digit (n / 10) (n % 10) s (omega arith)
          ∙ ap (λ v. digits_from v s) (omega arith))
]
