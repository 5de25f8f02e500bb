-- ===== src/Base/Words.antt =====
-- Two's complement words as bit patterns: a 32-bit `int` is below `2 ^ 32`, a 64-bit `long` below
-- `2 ^ 64`. A negative number is one whose top bit is set.
use Prim.Native.Nat.{ℕ, ◌+◌, ◌-◌, ◌%◌, ◌^◌}
use mathlib.Core.Bool.{Bool}
use ftf_interview.Base.Tests.{ltb, leb, if◌then◌else◌}

-- `x < 0` for an `int`
abbrev pub int_is_neg : ℕ → Bool
int_is_neg x = leb (2 ^ 31) x

-- `a > b` for two values of type `int`
abbrev pub int_gt : ℕ → ℕ → Bool
int_gt a b = ltb ((b + 2 ^ 31) % 2 ^ 32) ((a + 2 ^ 31) % 2 ^ 32)

-- An `int` converted to `long`.
abbrev pub sign_extend : ℕ → ℕ
sign_extend x = if ltb x (2 ^ 31) then x else x + (2 ^ 64 - 2 ^ 32)

abbrev pub long_add : ℕ → ℕ → ℕ
long_add a b = (a + b) % 2 ^ 64

abbrev pub long_sub : ℕ → ℕ → ℕ
long_sub a b = (a + 2 ^ 64 - b) % 2 ^ 64

-- `-e` for an error number `e`
abbrev pub long_neg : ℕ → ℕ
long_neg e = (2 ^ 64 - e) % 2 ^ 64
