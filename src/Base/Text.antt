-- ===== src/Base/Text.antt =====
-- C strings as lists of bytes, with the functions of <string.h> that the programs call.
use Prim.Native.Nat.{ℕ, zero, suc, ◌+◌, ◌-◌, ◌*◌, ◌/◌, ◌%◌}
use Prim.Native.Char.{code}
use Prim.Native.String.{String}
use mathlib.Core.Path.{◌≡◌}
use mathlib.Core.Bool.{Bool, true, false, ◌&&◌, ◌||◌}
use mathlib.Core.List.{List, [], ◌∷◌, ◌++◌}
use mathlib.Core.Option.{Option, none, some}
use ftf_interview.Base.Lists.{All, length, drop}
use ftf_interview.Base.Tests.{◌==◌, leb, ltb, if◌then◌else◌}

abbrev pub Bytes : Type 0
Bytes = List ℕ

abbrev pub bytes : String → Bytes
bytes String.[] = []
bytes (String.◌∷◌ c s) = code c ∷ bytes s

unfoldable pub starts_with : Bytes → Bytes → Bool
starts_with [] s = true
starts_with (p ∷ ps) [] = false
starts_with (p ∷ ps) (c ∷ s) = (p == c) && starts_with ps s

-- `strstr(s, needle) != NULL`
unfoldable pub contains : Bytes → Bytes → Bool
unfolding starts_with
contains needle [] = starts_with needle []
contains needle (c ∷ s) = starts_with needle (c ∷ s) || contains needle s

-- `index(s, c)`: the text before the first `c` and the text behind it.
unfoldable pub split_at : ℕ → Bytes → Option (Bytes × Bytes)
split_at c [] = none
split_at c (x ∷ s) =
    let rest = split_at c s in
    if x == c then some ([], s) else elim rest [ none ↦ none | some (a, b) ↦ some (x ∷ a, b) ]

-- `s[strlen(s) - 1]`, with the byte that stands before the buffer for the empty text.
unfoldable pub last_byte : (before : ℕ) → Bytes → ℕ
last_byte before [] = before
last_byte before (c ∷ s) = last_byte c s

unfoldable pub equal : Bytes → Bytes → Bool
equal [] [] = true
equal (a ∷ s) (b ∷ t) = (a == b) && equal s t
equal _ _ = false

-- `tolower`, in the C locale
abbrev pub to_lower : ℕ → ℕ
to_lower c = if leb b'A' c && leb c b'Z' then c + 32 else c

-- `strcasecmp(s, t) == 0`
unfoldable pub equal_nocase : Bytes → Bytes → Bool
equal_nocase [] [] = true
equal_nocase (a ∷ s) (b ∷ t) = (to_lower a == to_lower b) && equal_nocase s t
equal_nocase _ _ = false

-- `isspace`, in the C locale
abbrev pub is_space : ℕ → Bool
is_space c = c == 32 || (leb 9 c && leb c 13)

-- A word: it is not empty, and no character of it is white.
abbrev pub IsWord : Bytes → Type 0
IsWord [] = Path ℕ 0 1
IsWord (c ∷ w) = All (λ d. is_space d ≡ false) (c ∷ w)

unfoldable pub skip_spaces : Bytes → Bytes
skip_spaces [] = []
skip_spaces (c ∷ s) = if is_space c then skip_spaces s else c ∷ s

unfoldable pub take_word : Bytes → Bytes × Bytes
take_word [] = ([], [])
take_word (c ∷ s) = let (w, rest) = take_word s in if is_space c then ([], c ∷ s) else (c ∷ w, rest)

-- One `%s` of `sscanf`: none where the text has no further word, and the array stays as it was.
unfoldable pub scan_word : Bytes → Option (Bytes × Bytes)
unfolding skip_spaces take_word
scan_word s = elim (skip_spaces s) [ [] ↦ none | c ∷ rest ↦ some (take_word (c ∷ rest)) ]

-- `find(c) != npos`
unfoldable pub has_char : ℕ → Bytes → Bool
has_char c [] = false
has_char c (x ∷ s) = x == c || has_char c s

-- `find(needle)`: the text before and the text behind it.
unfoldable pub split_by : Bytes → Bytes → Option (Bytes × Bytes)
unfolding starts_with
split_by needle [] = none
split_by needle (c ∷ s) =
    let rest = split_by needle s in
    if starts_with needle (c ∷ s)
    then some ([], drop (length needle) (c ∷ s))
    else elim rest [ none ↦ none | some (a, b) ↦ some (c ∷ a, b) ]

-- `isdigit`, in the C locale
abbrev pub is_digit : ℕ → Bool
is_digit c = leb b'0' c && leb c b'9'

-- The value of the digits that a text begins with.
unfoldable pub digits_from : (value : ℕ) → Bytes → ℕ
digits_from value [] = value
digits_from value (c ∷ s) =
    let rest = digits_from (10 * value + (c - b'0')) s in if is_digit c then rest else value

-- The digits of a number, as `%lu` prints it; the number itself is enough fuel.
unfoldable pub digits_of : (fuel n : ℕ) → Bytes
digits_of zero n = (b'0' + n) ∷ []
digits_of (suc fuel) n = elim (ltb n 10) [
  | true ↦ (b'0' + n) ∷ []
  | false ↦ digits_of fuel (n / 10) ++ (b'0' + n % 10) ∷ []
]

unfoldable pub decimal : ℕ → Bytes
unfolding digits_of
decimal n = digits_of n n
