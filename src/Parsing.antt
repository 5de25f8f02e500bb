-- ===== src/Parsing.antt =====
-- Linux Shell/Commands.cpp: the functions that take a command line apart.
pub mod Words
pub mod Background
use ftf_interview.Base.{
  ℕ, suc, ◌%◌, ◌^◌, Bool, true, false, ◌&&◌, Option, none, some, List, [], ◌∷◌, ◌++◌, ◌==◌, leb,
  if◌then◌else◌, Bytes, is_space, split_at, take, set, get_elem?, map, is_digit,
}

unfoldable pub is_number : Bytes → Bool
is_number [] = true
is_number (c ∷ s) = is_digit c && is_number s

-- `find_last_not_of(" ")`; none is `npos`.
unfoldable pub find_last_not_of : Bytes → Option ℕ
find_last_not_of [] = none
find_last_not_of (c ∷ s) =
    let rest = find_last_not_of s in
    elim rest [ none ↦ if c == 32 then none else some 0 | some i ↦ some (suc i) ]

-- `find_first_not_of(" ")` and `substr`
unfoldable pub ltrim : Bytes → Bytes
ltrim [] = []
ltrim (c ∷ s) = let rest = ltrim s in if c == 32 then rest else c ∷ s

unfoldable pub rtrim : Bytes → Bytes
unfolding find_last_not_of
rtrim s = elim (find_last_not_of s) [ none ↦ [] | some end ↦ take (suc end) s ]

unfoldable pub trim : Bytes → Bytes
unfolding ltrim rtrim
trim s = rtrim (ltrim s)

-- The end of one word of `iss >> s`, if there is one.
abbrev pub push_word : Bytes → List Bytes → List Bytes
push_word [] ws = ws
push_word (c ∷ w) ws = (c ∷ w) ∷ ws

-- The loop of `iss >> s`, with the beginning of a word that was read.
unfoldable pub read_words : Bytes → Bytes → List Bytes
read_words word [] = push_word word []
read_words word (c ∷ s) =
    let ends = read_words [] s in
    let goes_on = read_words (word ++ c ∷ []) s in
    if is_space c then push_word word ends else goes_on

-- The words that are put into `args`.
unfoldable pub parse_command_line : Bytes → List Bytes
unfolding trim read_words
parse_command_line cmd_line = read_words [] (trim cmd_line)

-- None where every character is a space: `npos` is out of bounds.
unfoldable pub is_background_command : Bytes → Option Bool
unfolding find_last_not_of
is_background_command s = elim (find_last_not_of s) [
  | none ↦ none
  | some i ↦ elim (get_elem? s i) [ none ↦ none | some c ↦ some (c == b'&') ]
]

-- The sign is replaced in `cmd_line`; the second search is in the copy `str`, which still has it.
unfoldable pub cut_sign : (str : Bytes) → (idx : ℕ) → Bytes
unfolding find_last_not_of
cut_sign str idx = elim (find_last_not_of (take (suc idx) str)) [
  | none ↦ []
  | some end ↦ take (suc end) (set str idx 32)
]

-- None is an access out of bounds: `idx` is an `unsigned int`, which `npos` is never equal to.
unfoldable pub remove_background_sign : Bytes → Option Bytes
unfolding find_last_not_of cut_sign
remove_background_sign s = elim (find_last_not_of s) [
  | none ↦ none
  | some end ↦
      let idx = end % 2 ^ 32 in
      elim (get_elem? s idx) [
        | none ↦ none
        | some c ↦ if c == b'&' then some (cut_sign s idx) else some s
      ]
]

-- `remove` of all spaces
unfoldable pub without_spaces : Bytes → Bytes
without_spaces [] = []
without_spaces (c ∷ s) = let rest = without_spaces s in if c == 32 then rest else c ∷ rest

-- The loop of `_parseCat`, with the beginning of the token that `find` ends; the last one is kept
-- even where it is empty.
unfoldable pub cat_tokens : Bytes → Bytes → List Bytes
cat_tokens token [] = token ∷ []
cat_tokens token (c ∷ s) =
    let ends = cat_tokens [] s in
    let goes_on = cat_tokens (token ++ c ∷ []) s in
    if c == 32 then push_word token ends else goes_on

unfoldable pub parse_cat : Bytes → List Bytes
unfolding cat_tokens without_spaces
parse_cat cmd_line = map without_spaces (cat_tokens [] cmd_line)
