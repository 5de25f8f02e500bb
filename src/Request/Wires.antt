-- ===== src/Request/Wires.antt =====
-- A request as it comes over the connection, and as lines.
use ftf_interview.Base.{
  ℕ, zero, suc, ◌+◌, ◌-◌, ◌≡◌, ◌≢◌, ◌<◌, ◌⊎◌, refl, ap, sym, ◌∙◌, inl, inr, false, not, Option,
  none, some, List, [], ◌∷◌, ◌++◌, ◌==◌, Bytes, bytes, equal, equal_nocase, has_char, length, map,
  All, arith, Bool-cases,
}
use ftf_interview.Queue.{Timeval}
use ftf_interview.Rio.{Rio, Read, rio_readinitb}
use ftf_interview.Rio.Streams.{stream, ahead, Ends}
use ftf_interview.Rio.Lines.{first_line, after_line, rio_readlineb-IsFirst}
use ftf_interview.Request.{
  StatThread, Parsed, Status, Answer, Garbage, parse_uri, scan_line, serve, serve_rest, answer,
  handle, read_hdrs, read_hdrs_from,
}
use ftf_interview.Request.Connections.{
  maxline, Next, next_line, next_of, Hdrs, hdrs_loop, request_readhdrs, Handled, after_hdrs,
  handle_words, request_handle,
}

-- A text that fits the buffer with its newline, and the line that it makes.
abbrev pub IsText : Bytes → Type 0
IsText t = (has_char b'\n' t ≡ false) × (length t < maxline - 1)

abbrev pub line_of : Bytes → Bytes
line_of t = t ++ b'\n' ∷ []

-- The header lines, the empty line, and what follows.
abbrev pub wire : List Bytes → Bytes → Bytes
wire [] rest = bytes "\r\n" ++ rest
wire (t ∷ ts) rest = t ++ (b'\n' ∷ wire ts rest)

abbrev pub lines_of : List Bytes → List Bytes → List Bytes
lines_of ts more = map line_of ts ++ (bytes "\r\n" ∷ more)

first_line-text :
    (k : ℕ) (t s : Bytes)
    → has_char b'\n' t ≡ false
    → length t < k
    → (first_line k (t ++ (b'\n' ∷ s)) ≡ line_of t) × (after_line k (t ++ (b'\n' ∷ s)) ≡ s)
unfolding first_line after_line has_char
first_line-text zero t s h l = absurd (omega arith)
first_line-text (suc k) [] s h l = (refl, refl)
first_line-text (suc k) (c ∷ t) s h l =
    let other : (c == b'\n') ≡ false = ground arith in
    let (f, a) = first_line-text k t s (ground arith) (omega (arith, l)) in
    (rw (first_line, other) (ap (λ x. c ∷ x) f), rw (after_line, other) a)

append_some : (t s : Bytes) (c : ℕ) → t ++ (c ∷ s) ≢ []
append_some [] s c e = ground arith
append_some (x ∷ t) s c e = ground arith

wire_some : (ts : List Bytes) (rest : Bytes) → wire ts rest ≢ []
wire_some [] rest e = append_some (b'\r' ∷ []) rest b'\n' e
wire_some (t ∷ ts) rest e = append_some t (wire ts rest) b'\n' e

-- What is read next, where the stream goes on with a line.
record IsNext (s : Bytes) (text : Bytes) (n : Next) : Type 0 where
  pub left : Rio
  pub result : n ≡ Next.next text left
  pub behind : (s ≡ []) ⊎ ((stream left ≡ s) × Ends left.reads)

next_line-IsNext :
    (buf : Bytes) (r : Rio) (t s : Bytes)
    → stream r ≡ t ++ (b'\n' ∷ s)
    → IsText t
    → Ends r.reads
    → IsNext s (line_of t) (next_line buf r)
unfolding next_line
next_line-IsNext buf r t s e h ends = elim (rio_readlineb-IsFirst maxline r ends (omega arith)) [
  | inl (none_left, _, _) ↦ absurd (append_some t s b'\n' (sym e ∙ none_left))
  | inr (_, f) ↦
      let (is_first, is_after) = first_line-text (maxline - 1) t s h.0 h.1 in
      let after = ap (after_line (maxline - 1)) e ∙ is_after in
      record {
        left = f.left;
        result =
            ap (next_of buf) f.result
            ∙ ap (λ x. Next.next x f.left) (ap (first_line (maxline - 1)) e ∙ is_first);
        behind = elim f.behind [
          | inl b ↦ inl (sym after ∙ b)
          | inr (st, en) ↦ inr (st ∙ after, en)
        ];
      }
]

abbrev to_hdrs : Option (List Bytes) → Hdrs
to_hdrs none = Hdrs.endless
to_hdrs (some rest) = Hdrs.ended

blank_ends :
    (fuel : ℕ) (r : Rio) (more : List Bytes)
    → hdrs_loop fuel (bytes "\r\n") r ≡ to_hdrs (read_hdrs_from fuel (bytes "\r\n") more)
unfolding hdrs_loop read_hdrs_from equal
blank_ends zero r more = refl
blank_ends (suc fuel) r more = refl

hdrs_loop-lines :
    (fuel : ℕ) (b : Bytes) (ts : List Bytes) (rest : Bytes) (more : List Bytes) (r : Rio)
    → stream r ≡ wire ts rest
    → All IsText ts
    → Ends r.reads
    → hdrs_loop fuel b r ≡ to_hdrs (read_hdrs_from fuel b (lines_of ts more))
unfolding hdrs_loop read_hdrs_from has_char
hdrs_loop-lines zero b ts rest more r e h ends = refl
hdrs_loop-lines (suc fuel) b [] rest more r e h ends = elim (Bool-cases (equal b (bytes "\r\n"))) [
  | inl y ↦ rw (hdrs_loop, read_hdrs_from, y) refl
  | inr n ↦
      let f = next_line-IsNext b r (b'\r' ∷ []) rest e (refl, omega arith) ends in
      rw (hdrs_loop, read_hdrs_from, n, f.result) (blank_ends fuel f.left more)
]
hdrs_loop-lines (suc fuel) b (t ∷ ts) rest more r e h ends =
    elim (Bool-cases (equal b (bytes "\r\n"))) [
      | inl y ↦ rw (hdrs_loop, read_hdrs_from, y) refl
      | inr n ↦
          let f = next_line-IsNext b r t (wire ts rest) e h.0 ends in
          elim f.behind [
            | inl b' ↦ absurd (wire_some ts rest b')
            | inr (st, en) ↦
                rw (hdrs_loop, read_hdrs_from, n, f.result)
                  (hdrs_loop-lines fuel (line_of t) ts rest more f.left st h.1 en)
          ]
    ]

request_readhdrs-lines :
    (fuel : ℕ) (b : Bytes) (ts : List Bytes) (rest : Bytes) (more : List Bytes) (r : Rio)
    → stream r ≡ wire ts rest
    → All IsText ts
    → Ends r.reads
    → request_readhdrs fuel b r ≡ to_hdrs (read_hdrs fuel b (lines_of ts more))
unfolding request_readhdrs read_hdrs has_char
request_readhdrs-lines fuel b [] rest more r e h ends =
    let f = next_line-IsNext b r (b'\r' ∷ []) rest e (refl, omega arith) ends in
    rw (request_readhdrs, f.result) (blank_ends fuel f.left more)
request_readhdrs-lines fuel b (t ∷ ts) rest more r e h ends =
    let f = next_line-IsNext b r t (wire ts rest) e h.0 ends in
    elim f.behind [
      | inl b' ↦ absurd (wire_some ts rest b')
      | inr (st, en) ↦
          rw (request_readhdrs, f.result)
            (hdrs_loop-lines fuel (line_of t) ts rest more f.left st h.1 en)
    ]

-- What the lines alone lead to
abbrev pub to_handled : Option (Answer × StatThread) → Handled
to_handled none = Handled.handled_endless
to_handled (some a) = Handled.answered a

module _ (stat : Bytes → Option Status) (time now : Timeval) (g : Garbage) (fuel : ℕ) where
  after_rest :
      (p : Parsed) (t : StatThread) (o : Option (List Bytes))
      → after_hdrs (to_hdrs o) (serve time now p (stat p.filename) t)
        ≡ to_handled (serve_rest stat time now p t o)
  unfolding serve_rest
  after_rest p t none = refl
  after_rest p t (some rest) = refl

  handle_words-answer :
      (words : Bytes × Bytes) (ts : List Bytes) (rest : Bytes) (more : List Bytes) (r : Rio)
      (t : StatThread)
      → stream r ≡ wire ts rest
      → All IsText ts
      → Ends r.reads
      → handle_words stat time now g fuel words r t
        ≡ to_handled (answer stat time now g fuel (lines_of ts more) words t)
  unfolding handle_words answer
  handle_words-answer words ts rest more r t e h ends =
      elim (Bool-cases (not (equal_nocase words.0 (bytes "GET")))) [
        | inl y ↦ rw (handle_words, answer, y) refl
        | inr n ↦
            rw (handle_words, answer, n, request_readhdrs-lines fuel g.hdrs ts rest more r e h ends)
              (after_rest (parse_uri words.1 g.cgiargs g.before) t
                (read_hdrs fuel g.hdrs (lines_of ts more)))
      ]

  -- For a connection whose reads, in whatever pieces and with whatever signals between them, bring
  -- a request line, header lines of fewer than MAXLINE - 1 bytes each and the blank line,
  -- requestHandle over the Rio package comes to what it comes to on these lines, whatever the
  -- fuel.
  pub request_handle-handle :
      (reads : List Read) (first : Bytes) (ts : List Bytes) (rest : Bytes) (more : List Bytes)
      (t : StatThread)
      → ahead reads ≡ first ++ (b'\n' ∷ wire ts rest)
      → IsText first
      → All IsText ts
      → Ends reads
      → request_handle stat time now g fuel reads t
        ≡ to_handled (handle stat time now g fuel (line_of first ∷ lines_of ts more) t)
  unfolding request_handle rio_readinitb handle
  request_handle-handle reads first ts rest more t e h k ends =
      let f = next_line-IsNext g.buf (rio_readinitb reads) first (wire ts rest) e h ends in
      elim f.behind [
        | inl b ↦ absurd (wire_some ts rest b)
        | inr (st, en) ↦
            rw (request_handle, f.result)
              (handle_words-answer (scan_line g (line_of first)) ts rest more f.left
                (record t { tot_req_count = t.tot_req_count + 1 }) st k en)
      ]
