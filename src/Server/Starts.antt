-- ===== src/Server/Starts.antt =====
-- server.c from its arguments to the loop: what `main` starts with.
use ftf_interview.Base.{
  ℕ, zero, suc, ◌+◌, ◌-◌, ◌/◌, ◌%◌, ◌^◌, ◌≤◌, ◌<◌, ◌≡◌, refl, sym, ap, ◌∙◌, inl, inr, min, true,
  false, [], ◌∷◌, ◌++◌, ltb, length, Bytes, is_digit, skip_spaces, digits_of, digits_from,
  digits_from-digits_of, decimal, Bool-cases, append-nil, arith,
}
use ftf_interview.Server.Startup.{int_of, signed, atoi, pool_from, Startup}

-- A printed number begins with a digit.
begins_with_digit :
    (fuel n : ℕ)
    → n ≤ fuel
    → (c : ℕ) × ((s : Bytes) × ((digits_of fuel n ≡ c ∷ s) × (is_digit c ≡ true)))
unfolding digits_of
begins_with_digit zero n h = (b'0' + n, ([], (refl, ground (arith, h))))
begins_with_digit (suc fuel) n h = elim (Bool-cases (ltb n 10)) [
  | inl y ↦ (b'0' + n, ([], (rw (digits_of, y) refl, ground (arith, y))))
  | inr above ↦
      let big : 10 ≤ n = ground (arith, above) in
      let (c, (s, (e, d))) = begins_with_digit fuel (n / 10) (omega (arith, big, h)) in
      (c, (s ++ (b'0' + n % 10) ∷ [], (rw (digits_of, above, e) refl, d)))
]

atoi-digit : (c : ℕ) (s : Bytes) → is_digit c ≡ true → atoi (c ∷ s) ≡ int_of false (c ∷ s)
unfolding atoi signed skip_spaces
atoi-digit c s h = ground (arith, h)

digits_from-decimal : (n : ℕ) → digits_from 0 (decimal n) ≡ n
unfolding decimal digits_from
digits_from-decimal n =
    ap (digits_from 0) (sym (append-nil (digits_of n n)))
    ∙ digits_from-digits_of n n [] (omega arith)

pub atoi-decimal : (n : ℕ) → n < 2 ^ 31 → atoi (decimal n) ≡ n
unfolding decimal int_of
atoi-decimal n h =
    let (c, (s, (e, d))) = begins_with_digit n n (omega arith) in
    let read : digits_from 0 (decimal n) ≡ n = digits_from-decimal n in
    let word : min (digits_from 0 (decimal n)) (2 ^ 63 - 1) % 2 ^ 32 ≡ n =
      ap (λ x. min x (2 ^ 63 - 1) % 2 ^ 32) read ∙ omega (arith, h) in
    ap atoi e ∙ atoi-digit c s d ∙ ap (int_of false) (sym e) ∙ word

pub length-pool_from : (i k : ℕ) → length (pool_from i k) ≡ k
unfolding pool_from
length-pool_from i zero = refl
length-pool_from i (suc k) = ap suc (length-pool_from (i + 1) k)
