-- ===== src/Parsing/Background.antt =====
-- The background sign.
use ftf_interview.Base.{
  ℕ, zero, suc, ◌%◌, ◌^◌, ◌≡◌, ◌<◌, ◌≢◌, refl, ap, ◌∙◌, true, false, none, some, [], ◌∷◌, ◌++◌,
  ◌==◌, arith, Bytes, take, set, get_elem?, length, replicate,
}
use ftf_interview.Parsing.{
  find_last_not_of, cut_sign, remove_background_sign, is_background_command,
}

-- A text of spaces.
abbrev pub spaces : ℕ → Bytes
spaces n = replicate n 32

pub find_last-spaces : (n : ℕ) → find_last_not_of (spaces n) ≡ none
unfolding find_last_not_of
find_last-spaces zero = refl
find_last-spaces (suc n) = rw (find_last-spaces n, find_last_not_of) refl

-- The last character that is no space.
find_last-append :
    (body : Bytes) (c n : ℕ) → c ≢ 32 → find_last_not_of (body ++ c ∷ spaces n) ≡ some (length body)
unfolding find_last_not_of
find_last-append [] c n h = rw (find_last-spaces n, find_last_not_of) (ground arith)
find_last-append (b ∷ body) c n h = rw (find_last-append body c n h, find_last_not_of) refl

get-append : (body : Bytes) (c : ℕ) (s : Bytes) → get_elem? (body ++ c ∷ s) (length body) ≡ some c
get-append [] c s = refl
get-append (b ∷ body) c s = get-append body c s

take-set :
    (body : Bytes) (c d : ℕ) (s : Bytes)
    → take (suc (length body)) (set (body ++ c ∷ s) (length body) d) ≡ body ++ d ∷ []
take-set [] c d s = refl
take-set (b ∷ body) c d s = ap (λ l. b ∷ l) (take-set body c d s)

take-append-one :
    (body : Bytes) (c : ℕ) (s : Bytes) → take (suc (length body)) (body ++ c ∷ s) ≡ body ++ c ∷ []
take-append-one [] c s = refl
take-append-one (b ∷ body) c s = ap (λ l. b ∷ l) (take-append-one body c s)

cut_sign-append : (body s : Bytes) → cut_sign (body ++ b'&' ∷ s) (length body) ≡ body ++ 32 ∷ []
unfolding cut_sign
cut_sign-append body s =
    rw (take-append-one body b'&' s, cut_sign)
      (rw (find_last-append body b'&' 0 (omega arith)) (take-set body b'&' 32 s))

cut_at :
    (body : Bytes) (n i : ℕ)
    → i ≡ length body
    → some (cut_sign (body ++ b'&' ∷ spaces n) i) ≡ some (body ++ 32 ∷ [])
cut_at body n i e =
    ap (λ k. some (cut_sign (body ++ b'&' ∷ spaces n) k)) e
    ∙ ap some (cut_sign-append body (spaces n))

-- A line of fewer than 2^32 characters before a sign & that only spaces follow is one of the
-- background, and _removeBackgroundSign leaves those characters and one space in place of the
-- sign.
remove_background_sign-append :
    (body : Bytes) (n : ℕ)
    → length body < 2 ^ 32
    → (is_background_command (body ++ b'&' ∷ spaces n) ≡ some true)
      × (remove_background_sign (body ++ b'&' ∷ spaces n) ≡ some (body ++ 32 ∷ []))
unfolding is_background_command remove_background_sign
remove_background_sign-append body n h =
    let found = find_last-append body b'&' n (omega arith) in
    let got = get-append body b'&' (spaces n) in
    let same : length body % 2 ^ 32 ≡ length body = omega arith in
    (
      rw (found, is_background_command) (rw got refl),
      rw (found, remove_background_sign)
          (rw same (rw got (cut_at body n (length body % 2 ^ 32) same))),
    )

-- A line that ends in another character and spaces stays.
remove_background_sign_same :
    (body : Bytes) (c n : ℕ)
    → c ≢ 32
    → c ≢ b'&'
    → length body < 2 ^ 32
    → (is_background_command (body ++ c ∷ spaces n) ≡ some false)
      × (remove_background_sign (body ++ c ∷ spaces n) ≡ some (body ++ c ∷ spaces n))
unfolding is_background_command remove_background_sign
remove_background_sign_same body c n h k lt =
    let found = find_last-append body c n h in
    let got = get-append body c (spaces n) in
    let same : length body % 2 ^ 32 ≡ length body = omega arith in
    let other : (c == b'&') ≡ false = ground arith in
    (
      rw (found, is_background_command) (rw got (ap some other)),
      rw (found, remove_background_sign) (rw same (rw got (rw other refl))),
    )
