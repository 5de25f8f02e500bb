-- ===== src/Shell/Numbers.antt =====
-- Linux Shell/Commands.cpp: `stoi`, `strtol` and the tests on words.
use ftf_interview.Base.{
  ℕ, ◌-◌, ◌%◌, ◌^◌, min, Bool, false, ◌||◌, Option, none, some, List, [], ◌∷◌, ◌==◌, ltb,
  if◌then◌else◌, Bytes, is_digit, digits_from,
}

-- `remove` of a character and `erase`
unfoldable pub without : ℕ → Bytes → Bytes
without c [] = []
without c (x ∷ s) = let rest = without c s in if x == c then rest else x ∷ rest

-- The number that the text begins with.
unfoldable pub leading_number : Bytes → Option ℕ
unfolding digits_from
leading_number [] = none
leading_number (c ∷ s) = if is_digit c then some (digits_from 0 (c ∷ s)) else none

-- `stoi` of a text without a sign or a space; none is an exception.
unfoldable pub stoi : Bytes → Option ℕ
unfolding leading_number
stoi s = elim (leading_number s) [ none ↦ none | some n ↦ if ltb n (2 ^ 31) then some n else none ]

-- `strtol` of such a text, converted to `int`
unfoldable pub strtol : Bytes → ℕ
unfolding leading_number
strtol s = elim (leading_number s) [ none ↦ 0 | some n ↦ min n (2 ^ 63 - 1) % 2 ^ 32 ]

module _ {A : Type 0} (f : A → Bool) where
  unfoldable pub any : List A → Bool
  any [] = false
  any (x ∷ xs) = f x || any xs
