-- ===== src/Tests/ParsingTests.antt =====
-- Command lines.
use ftf_interview.Base.{◌≡◌, refl, true, false, some, List, [], ◌∷◌, ◌++◌, Bytes, bytes}
use ftf_interview.Parsing.{
  is_number, parse_command_line, remove_background_sign, parse_cat, cat_tokens, without_spaces,
  find_last_not_of, cut_sign,
}
use ftf_interview.Parsing.Background.{spaces}
use ftf_interview.Parsing.Words.{join, parse_command_line-join}

number : is_number (bytes "17") ≡ true
unfolding is_number
number = refl

no_number : is_number (bytes "1a") ≡ false
unfolding is_number
no_number = refl

-- The last token is kept though it is empty.
last_token : parse_cat (bytes "cat a ") ≡ bytes "cat" ∷ bytes "a" ∷ [] ∷ []
unfolding parse_cat cat_tokens without_spaces
last_token = refl

-- Two spaces are left of the sign and the space before it.
sign : remove_background_sign (bytes "ls & ") ≡ some (bytes "ls  ")
unfolding remove_background_sign find_last_not_of cut_sign
sign = refl

abbrev words : List Bytes
words = bytes "ls" ∷ bytes "-l" ∷ []

parse_command_line-join_example : parse_command_line (spaces 2 ++ (join words ++ spaces 1)) ≡ words
parse_command_line-join_example =
    parse_command_line-join words 2 1 ((refl, (refl, tt)), ((refl, (refl, tt)), tt))
