-- ===== src/Parsing/Words.antt =====
-- The words of a command line.
use ftf_interview.Base.{
  ℕ, zero, suc, ◌≡◌, refl, ap, sym, ◌∙◌, true, false, none, some, List, [], ◌∷◌, ◌++◌, ◌==◌, arith,
  Bytes, IsWord, All, is_space, append_assoc, append-nil, map, inl, inr, Bool-cases, take,
  Option-cases,
}
use ftf_interview.Parsing.Background.{spaces, find_last-spaces}
use ftf_interview.Parsing.{
  push_word, read_words, parse_command_line, trim, ltrim, rtrim, find_last_not_of, cat_tokens,
  parse_cat, without_spaces,
}

-- The words with one space between them.
unfoldable pub join : List Bytes → Bytes
join [] = []
join (w ∷ []) = w
join (w ∷ v ∷ ws) = w ++ 32 ∷ join (v ∷ ws)

-- A text without white characters is read into the word.
reads_on :
    (word w s : Bytes)
    → All (λ d. is_space d ≡ false) w
    → read_words word (w ++ s) ≡ read_words (word ++ w) s
unfolding read_words
reads_on word [] s h = ap (λ v. read_words v s) (sym (append-nil word))
reads_on word (c ∷ w) s h =
    rw (h.0, read_words)
      (reads_on (word ++ c ∷ []) w s h.1 ∙ ap (λ v. read_words v s) (append_assoc word (c ∷ []) w))

read_words-join : (ws : List Bytes) → All IsWord ws → read_words [] (join ws) ≡ ws
unfolding read_words join
read_words-join [] h = refl
read_words-join ([] ∷ ws) h = absurd (omega (arith, h.0))
read_words-join ((c ∷ w) ∷ []) h =
    ap (read_words []) (sym (append-nil (c ∷ w))) ∙ reads_on [] (c ∷ w) [] h.0
read_words-join ((c ∷ w) ∷ v ∷ ws) h =
    reads_on [] (c ∷ w) (32 ∷ join (v ∷ ws)) h.0
    ∙ ap (λ l. (c ∷ w) ∷ l) (read_words-join (v ∷ ws) h.1)

-- A space ends a word.
at_space :
    (word s : Bytes) (c : ℕ)
    → (c == 32) ≡ true
    → read_words word (c ∷ s) ≡ push_word word (read_words [] s)
unfolding read_words
at_space word s c y = let white : is_space c ≡ true = ground arith in rw (white, read_words) refl

-- Spaces around a line hold no word.
read_words-ltrim : (s : Bytes) → read_words [] (ltrim s) ≡ read_words [] s
unfolding ltrim
read_words-ltrim [] = refl
read_words-ltrim (c ∷ s) = elim (Bool-cases (c == 32)) [
  | inl y ↦
      let drops : ltrim (c ∷ s) ≡ ltrim s = rw (y, ltrim) refl in
      ap (read_words []) drops ∙ read_words-ltrim s ∙ sym (at_space [] s c y)
  | inr n ↦ let stays : ltrim (c ∷ s) ≡ c ∷ s = rw (n, ltrim) refl in ap (read_words []) stays
]

no_words : (word s : Bytes) → find_last_not_of s ≡ none → read_words word s ≡ push_word word []
unfolding read_words find_last_not_of
no_words word [] e = refl
no_words word (c ∷ s) e = elim (Option-cases (find_last_not_of s)) [
  | inl f ↦ elim (Bool-cases (c == 32)) [
    | inl y ↦ at_space word s c y ∙ ap (push_word word) (no_words [] s f)
    | inr n ↦ ground (arith, f, n, e)
  ]
  | inr (i, f) ↦ ground (arith, f, e)
]

-- Texts with the same words have the same words behind one more character.
cons_same :
    (c : ℕ) (s t word : Bytes)
    → ((w : Bytes) → read_words w s ≡ read_words w t)
    → read_words word (c ∷ s) ≡ read_words word (c ∷ t)
unfolding read_words
cons_same c s t word h = elim (Bool-cases (is_space c)) [
  | inl y ↦ rw (y, read_words) (ap (push_word word) (h []))
  | inr n ↦ rw (n, read_words) (h (word ++ c ∷ []))
]

read_words-rtrim : (s word : Bytes) → read_words word (rtrim s) ≡ read_words word s
unfolding rtrim find_last_not_of read_words
read_words-rtrim [] word = refl
read_words-rtrim (c ∷ s) word = elim (Option-cases (find_last_not_of s)) [
  | inl f ↦ elim (Bool-cases (c == 32)) [
    | inl y ↦
        let nothing : find_last_not_of (c ∷ s) ≡ none = ground (arith, f, y) in
        let cut : rtrim (c ∷ s) ≡ [] = rw (nothing, rtrim) refl in
        ap (read_words word) cut ∙ sym (no_words word (c ∷ s) nothing)
    | inr n ↦
        let first : find_last_not_of (c ∷ s) ≡ some 0 = ground (arith, f, n) in
        let cut : rtrim (c ∷ s) ≡ c ∷ [] = rw (first, rtrim) refl in
        ap (read_words word) cut ∙ cons_same c [] s word (λ w. sym (no_words w s f))
  ]
  | inr (i, f) ↦
      let last : find_last_not_of (c ∷ s) ≡ some (suc i) = ground (arith, f) in
      let cut : rtrim (c ∷ s) ≡ c ∷ take (suc i) s = rw (last, rtrim) refl in
      let rest : rtrim s ≡ take (suc i) s = rw (f, rtrim) refl in
      ap (read_words word) (cut ∙ ap (λ l. c ∷ l) (sym rest))
      ∙ cons_same c (rtrim s) s word (λ w. read_words-rtrim s w)
]

leading : (m : ℕ) (s : Bytes) → read_words [] (spaces m ++ s) ≡ read_words [] s
leading zero s = refl
leading (suc m) s = at_space [] (spaces m ++ s) 32 refl ∙ leading m s

trailing : (s word : Bytes) (n : ℕ) → read_words word (s ++ spaces n) ≡ read_words word s
unfolding read_words
trailing [] word n = no_words word (spaces n) (find_last-spaces n)
trailing (c ∷ s) word n = cons_same c (s ++ spaces n) s word (λ w. trailing s w n)

-- Words without white characters, none of them empty, joined by single spaces and with any number
-- of spaces around them, are what _parseCommandLine finds.
pub parse_command_line-join :
    (ws : List Bytes) (m n : ℕ)
    → All IsWord ws
    → parse_command_line (spaces m ++ (join ws ++ spaces n)) ≡ ws
unfolding parse_command_line trim
parse_command_line-join ws m n h =
    read_words-rtrim (ltrim (spaces m ++ (join ws ++ spaces n))) []
    ∙ read_words-ltrim (spaces m ++ (join ws ++ spaces n))
    ∙ leading m (join ws ++ spaces n)
    ∙ trailing (join ws) [] n
    ∙ read_words-join ws h

keeps_word : (w : Bytes) → All (λ d. is_space d ≡ false) w → without_spaces w ≡ w
unfolding without_spaces
keeps_word [] h = refl
keeps_word (c ∷ w) h =
    let other : (c == 32) ≡ false = ground (arith, h.0) in
    rw (other, without_spaces) (ap (λ l. c ∷ l) (keeps_word w h.1))

keeps_words : (ws : List Bytes) → All IsWord ws → map without_spaces ws ≡ ws
keeps_words [] h = refl
keeps_words ([] ∷ ws) h = absurd (omega (arith, h.0))
keeps_words ((c ∷ w) ∷ ws) h =
    ap (λ v. v ∷ map without_spaces ws) (keeps_word (c ∷ w) h.0)
    ∙ ap (λ l. (c ∷ w) ∷ l) (keeps_words ws h.1)

tokens_on :
    (token w s : Bytes)
    → All (λ d. is_space d ≡ false) w
    → cat_tokens token (w ++ s) ≡ cat_tokens (token ++ w) s
unfolding cat_tokens
tokens_on token [] s h = ap (λ v. cat_tokens v s) (sym (append-nil token))
tokens_on token (c ∷ w) s h =
    let other : (c == 32) ≡ false = ground (arith, h.0) in
    rw (other, cat_tokens)
      (tokens_on (token ++ c ∷ []) w s h.1
        ∙ ap (λ v. cat_tokens v s) (append_assoc token (c ∷ []) w))

cat_tokens-join :
    (w : Bytes) (ws : List Bytes) → All IsWord (w ∷ ws) → cat_tokens [] (join (w ∷ ws)) ≡ w ∷ ws
unfolding cat_tokens join
cat_tokens-join [] ws h = absurd (omega (arith, h.0))
cat_tokens-join (c ∷ w) [] h =
    ap (cat_tokens []) (sym (append-nil (c ∷ w))) ∙ tokens_on [] (c ∷ w) [] h.0
cat_tokens-join (c ∷ w) (v ∷ ws) h =
    tokens_on [] (c ∷ w) (32 ∷ join (v ∷ ws)) h.0 ∙ ap (λ l. (c ∷ w) ∷ l) (cat_tokens-join v ws h.1)

-- At least one word, none of them empty or with a white character, joined by single spaces, are
-- what _parseCat finds.
parse_cat-join :
    (w : Bytes) (ws : List Bytes) → All IsWord (w ∷ ws) → parse_cat (join (w ∷ ws)) ≡ w ∷ ws
unfolding parse_cat
parse_cat-join w ws h = ap (map without_spaces) (cat_tokens-join w ws h) ∙ keeps_words (w ∷ ws) h
