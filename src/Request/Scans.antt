-- ===== src/Request/Scans.antt =====
-- `sscanf` of a word in a line.
use ftf_interview.Base.{
  ◌≡◌, refl, ap, false, some, [], ◌∷◌, ◌++◌, All, Bytes, IsWord, is_space, skip_spaces, take_word,
  scan_word, arith,
}

take_word-word :
    (w s : Bytes) → All (λ d. is_space d ≡ false) w → take_word (w ++ b' ' ∷ s) ≡ (w, b' ' ∷ s)
unfolding take_word
take_word-word [] s h = refl
take_word-word (c ∷ w) s h = rw (h.0, take_word) (rw (take_word-word w s h.1) refl)

-- A line that begins with a word and a space.
pub scan_word-word : (w s : Bytes) → IsWord w → scan_word (w ++ b' ' ∷ s) ≡ some (w, b' ' ∷ s)
unfolding scan_word skip_spaces
scan_word-word [] s h = absurd (omega (arith, h))
scan_word-word (c ∷ w) s h =
    let stays : skip_spaces (c ∷ (w ++ b' ' ∷ s)) ≡ c ∷ (w ++ b' ' ∷ s) =
      rw (h.0, skip_spaces) refl in
    rw (scan_word, stays) (ap some (take_word-word (c ∷ w) s h))

-- One that has a space before them.
pub scan_word-space :
    (w s : Bytes) → IsWord w → scan_word (b' ' ∷ (w ++ b' ' ∷ s)) ≡ some (w, b' ' ∷ s)
unfolding scan_word skip_spaces
scan_word-space w s h = scan_word-word w s h
