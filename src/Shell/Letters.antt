-- ===== src/Shell/Letters.antt =====
-- A character of a word that CreateCommand sees stands in the line.
use ftf_interview.Base.{
  ℕ, zero, suc, ◌≡◌, refl, inl, inr, false, List, [], ◌∷◌, ◌++◌, ◌==◌, if_ind, Option-cases, arith,
  take, Bytes, bytes, equal, contains, starts_with, is_space, has_char,
}
use ftf_interview.Parsing.{
  ltrim, rtrim, trim, push_word, read_words, parse_command_line, find_last_not_of,
}
use ftf_interview.Shell.Numbers.{any}
use ftf_interview.Shell.Create.{is_arrow}

module _ (c : ℕ) where
  has_char-append :
      (s t : Bytes) → has_char c s ≡ false → has_char c t ≡ false → has_char c (s ++ t) ≡ false
  unfolding has_char
  has_char-append [] t h k = k
  has_char-append (x ∷ s) t h k = ground (arith, has_char-append s t)

  has_char-take : (n : ℕ) (s : Bytes) → has_char c s ≡ false → has_char c (take n s) ≡ false
  unfolding has_char
  has_char-take zero s h = refl
  has_char-take (suc n) [] h = refl
  has_char-take (suc n) (x ∷ s) h = ground (arith, has_char-take n s)

  has_char-ltrim : (s : Bytes) → has_char c s ≡ false → has_char c (ltrim s) ≡ false
  unfolding has_char ltrim
  has_char-ltrim [] h = refl
  has_char-ltrim (x ∷ s) h =
      if_ind (λ (r : Bytes). has_char c r ≡ false) (x == 32) _ _
        (λ _. has_char-ltrim s (ground arith)) (λ _. h)

  has_char-rtrim : (s : Bytes) → has_char c s ≡ false → has_char c (rtrim s) ≡ false
  unfolding has_char rtrim
  has_char-rtrim s h = elim (Option-cases (find_last_not_of s)) [
    | inl n ↦ rw (n, rtrim) refl
    | inr (i, e) ↦ rw (e, rtrim) (has_char-take (suc i) s h)
  ]

  pub has_char-strip : (s : Bytes) → has_char c s ≡ false → has_char c (trim s) ≡ false
  unfolding trim
  has_char-strip s h = has_char-rtrim (ltrim s) (has_char-ltrim s h)

  any-push_word :
      (w : Bytes) (ws : List Bytes)
      → has_char c w ≡ false
      → any (has_char c) ws ≡ false
      → any (has_char c) (push_word w ws) ≡ false
  unfolding any
  any-push_word [] ws h k = k
  any-push_word (x ∷ w) ws h k = ground (arith, h, k)

  any-read_words :
      (w s : Bytes)
      → has_char c w ≡ false
      → has_char c s ≡ false
      → any (has_char c) (read_words w s) ≡ false
  unfolding read_words has_char any
  any-read_words w [] h k = any-push_word w [] h refl
  any-read_words w (x ∷ s) h k =
      let first : has_char c (x ∷ []) ≡ false = ground arith in
      let others : has_char c s ≡ false = ground arith in
      if_ind (λ (ws : List Bytes). any (has_char c) ws ≡ false) (is_space x) _ _
        (λ _. any-push_word w (read_words [] s) h (any-read_words [] s refl others))
        (λ _. any-read_words (w ++ x ∷ []) s (has_char-append w (x ∷ []) h first) others)

  pub any-parse_command_line :
      (s : Bytes) → has_char c s ≡ false → any (has_char c) (parse_command_line s) ≡ false
  unfolding parse_command_line has_char
  any-parse_command_line s h = any-read_words [] (trim s) refl (has_char-strip s h)

contains-has_char : (c : ℕ) (s : Bytes) → contains (c ∷ []) s ≡ false → has_char c s ≡ false
unfolding contains starts_with has_char
contains-has_char c [] h = refl
contains-has_char c (x ∷ s) h = ground (arith, contains-has_char c s)

is_arrow-has_char : (w : Bytes) → has_char 62 w ≡ false → is_arrow w ≡ false
unfolding has_char equal
is_arrow-has_char [] h = refl
is_arrow-has_char (x ∷ w) h = ground arith

any_arrow : (ws : List Bytes) → any (has_char 62) ws ≡ false → any is_arrow ws ≡ false
unfolding any
any_arrow [] h = refl
any_arrow (w ∷ ws) h = ground (arith, is_arrow-has_char w, any_arrow ws)

-- A line without the character `>` has no word of it.
pub no_arrow_word :
    (s : Bytes) → contains (bytes ">") s ≡ false → any is_arrow (parse_command_line s) ≡ false
no_arrow_word s h =
    any_arrow (parse_command_line s) (any-parse_command_line 62 s (contains-has_char 62 s h))
