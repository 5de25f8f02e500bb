-- ===== src/Request/Lengths.antt =====
-- The Content-Length of an answer, as a client reads it.
use ftf_interview.Base.{
  ℕ, zero, suc, ◌+◌, ◌/◌, ◌%◌, ◌^◌, ◌≤◌, ◌<◌, ◌≡◌, refl, ap, ◌∙◌, inl, inr, Bool, true, false, not,
  ◌&&◌, Option, none, some, [], ◌∷◌, ◌++◌, ◌==◌, ltb, Bytes, bytes, decimal, digits_of, digits_from,
  is_digit, split_by, starts_with, has_char, length, arith, Bool-cases, length-append,
  digits_from-digits_of,
}
use ftf_interview.Request.{FileType, Stats, Refusal}
use ftf_interview.Request.Texts.{
  error_head, error_body, request_error, static_head, serve_static_text, stat_lines, type_name,
  print_int, crlf,
}

-- A client splits an answer at the first empty line, and reads the number behind the first
-- Content-Length of the head.
unfoldable pub declared : Bytes → Option (ℕ × Bytes)
unfolding split_by digits_from
declared answer = elim (split_by (bytes "\r\n\r\n") answer) [
  | none ↦ none
  | some (head, body) ↦ elim (split_by (bytes "Content-Length: ") head) [
    | none ↦ none
    | some (_, rest) ↦ some (digits_from 0 rest, body)
  ]
]

-- Reading what was printed
digits_from-decimal : (n : ℕ) (s : Bytes) → digits_from 0 (decimal n ++ (b'\r' ∷ s)) ≡ n
unfolding decimal digits_from
digits_from-decimal n s = digits_from-digits_of n n (b'\r' ∷ s) (omega arith)

-- Digits are no other characters.
has_char-append :
    (c : ℕ) (s t : Bytes)
    → has_char c s ≡ false
    → has_char c t ≡ false
    → has_char c (s ++ t) ≡ false
unfolding has_char
has_char-append c [] t h k = k
has_char-append c (x ∷ s) t h k = ground (arith, has_char-append c s t)

digit_other : (c d : ℕ) → d < 10 → is_digit c ≡ false → has_char c ((b'0' + d) ∷ []) ≡ false
unfolding has_char
digit_other c d l h = ground arith

has_char-digits_of :
    (c fuel n : ℕ) → is_digit c ≡ false → n ≤ fuel → has_char c (digits_of fuel n) ≡ false
unfolding digits_of
has_char-digits_of c zero n h l = digit_other c n (omega (arith, l)) h
has_char-digits_of c (suc fuel) n h l = elim (Bool-cases (ltb n 10)) [
  | inl y ↦ rw (digits_of, y) (digit_other c n (ground (arith, y)) h)
  | inr above ↦
      let big : 10 ≤ n = ground (arith, above) in
      rw (digits_of, above)
        (has_char-append c (digits_of fuel (n / 10)) ((b'0' + n % 10) ∷ [])
          (has_char-digits_of c fuel (n / 10) h (omega (arith, big, l)))
          (digit_other c (n % 10) (omega arith) h))
]

-- A text that a needle's first character does not occur in is passed over.
split_by-skip :
    (c : ℕ) (needle a s : Bytes) (r : Bytes × Bytes)
    → has_char c a ≡ false
    → split_by (c ∷ needle) s ≡ some r
    → split_by (c ∷ needle) (a ++ s) ≡ some (a ++ r.0, r.1)
unfolding split_by starts_with has_char
split_by-skip c needle [] s r h e = e
split_by-skip c needle (x ∷ a) s r h e =
    let first : (c == x) ≡ false = ground arith in
    rw (split_by, first, split_by-skip c needle a s r (ground arith) e) refl

-- So is a text at none of whose places the needle starts.
unfoldable skips : Bytes → Bytes → Bytes → Bool
unfolding starts_with
skips needle [] s = true
skips needle (x ∷ a) s = not (starts_with needle (x ∷ (a ++ s))) && skips needle a s

split_by-skips :
    (needle a s : Bytes) (r : Bytes × Bytes)
    → skips needle a s ≡ true
    → split_by needle s ≡ some r
    → split_by needle (a ++ s) ≡ some (a ++ r.0, r.1)
unfolding split_by skips
split_by-skips needle [] s r h e = e
split_by-skips needle (x ∷ a) s r h e =
    let first : starts_with needle (x ∷ (a ++ s)) ≡ false = ground arith in
    rw (split_by, first, split_by-skips needle a s r (ground arith) e) refl

-- A head that ends with the words Content-Length, the number, and the rest of the head
declared-head :
    (head pre : Bytes) (n : ℕ) (rest rest' body : Bytes)
    → skips (bytes "\r\n\r\n") head (decimal n ++ (b'\r' ∷ rest)) ≡ true
    → ((x : Bytes) → split_by (bytes "Content-Length: ") (head ++ x) ≡ some (pre, x))
    → split_by (bytes "\r\n\r\n") (b'\r' ∷ rest) ≡ some (rest', body)
    → digits_from 0 (decimal n ++ rest') ≡ n
    → declared (head ++ (decimal n ++ (b'\r' ∷ rest))) ≡ some (n, body)
unfolding declared decimal
declared-head head pre n rest rest' body h found e d =
    let no_cr = has_char-digits_of b'\r' n n refl (omega arith) in
    let behind = split_by-skip b'\r' (bytes "\n\r\n") (decimal n) (b'\r' ∷ rest) _ no_cr e in
    let whole = split_by-skips (bytes "\r\n\r\n") head (decimal n ++ (b'\r' ∷ rest)) _ h behind in
    rw (declared, whole, found (decimal n ++ rest')) (ap (λ v. some (v, body)) d)

-- A client that splits an answer of requestError at the first empty line and reads the number
-- behind Content-Length finds the length of what is behind that line, which is the error page.
pub request_error-declared :
    (r : Refusal) (cause : Bytes)
    → declared (request_error r cause) ≡ some (length (error_body r cause), error_body r cause)
unfolding request_error declared split_by starts_with skips decimal digits_from
request_error-declared r cause = by_refusal r
  where
    reads : (n : ℕ) → digits_from 0 (decimal n ++ []) ≡ n
    reads n = digits_from-digits_of n n [] (omega arith)

    by_refusal :
        (r : Refusal)
        → declared (request_error r cause) ≡ some (length (error_body r cause), error_body r cause)
    by_refusal Refusal.not_implemented =
        declared-head (error_head Refusal.not_implemented) _ _ _ [] _ refl (λ x. refl) refl
          (reads _)
    by_refusal Refusal.not_found =
        declared-head (error_head Refusal.not_found) _ _ _ [] _ refl (λ x. refl) refl (reads _)
    by_refusal Refusal.not_readable =
        declared-head (error_head Refusal.not_readable) _ _ _ [] _ refl (λ x. refl) refl (reads _)
    by_refusal Refusal.not_runnable =
        declared-head (error_head Refusal.not_runnable) _ _ _ [] _ refl (λ x. refl) refl (reads _)

print_int_small : (x : ℕ) → x < 2 ^ 31 → print_int (x % 2 ^ 32) ≡ decimal x
unfolding print_int
print_int_small x h =
    let same : x % 2 ^ 32 ≡ x = omega (arith, h) in
    let small : ltb x (2 ^ 31) ≡ true = ground (arith, h) in
    ap print_int same ∙ rw (print_int, small) refl

static_rest : FileType → Bytes
static_rest kind = crlf ++ (bytes "Content-Type: " ++ type_name kind)

-- The head of a static answer ends behind its type.
static_head_ends :
    (kind : FileType) (s : Bytes)
    → split_by
        (bytes "\r\n\r\n")
        (crlf ++ (bytes "Content-Type: " ++ (type_name kind ++ (crlf ++ (crlf ++ s)))))
      ≡ some (static_rest kind, s)
unfolding split_by starts_with static_rest
static_head_ends FileType.text_html s = refl
static_head_ends FileType.image_gif s = refl
static_head_ends FileType.image_jpeg s = refl
static_head_ends FileType.text_plain s = refl

stat_lines-some : (st : Stats) → 0 < length (stat_lines st)
unfolding stat_lines
stat_lines-some st = omega arith

-- For a file of fewer than 2^31 bytes the Content-Length of a static answer is the file's size,
-- but behind the first empty line come the lines of the statistics and then the file, which are
-- longer.
pub serve_static_text-declared :
    (filesize : ℕ) (kind : FileType) (st : Stats) (file : Bytes)
    → filesize < 2 ^ 31
    → length file ≡ filesize
    → (body : Bytes) × (declared (serve_static_text filesize kind st file) ≡ some (filesize, body))
      × (body ≡ stat_lines st ++ file)
      × (filesize < length body)
unfolding serve_static_text split_by starts_with skips static_rest
serve_static_text-declared filesize kind st file small l = (
  stat_lines st ++ file,
  rw (serve_static_text, print_int_small filesize small)
      (declared-head static_head _ filesize _ (static_rest kind) (stat_lines st ++ file) refl
        (λ x. refl) (static_head_ends kind (stat_lines st ++ file))
        (digits_from-decimal filesize _)),
  refl,
  omega (arith, stat_lines-some st, l, length-append (stat_lines st) file),
)
