-- ===== src/Request/Answers.antt =====
-- What a worker serves, and what it counts.
use ftf_interview.Base.{
  ℕ, ◌+◌, ◌^◌, ◌<◌, ◌≡◌, refl, Bool, true, false, ◌||◌, not, Option, none, some, List, ◌∷◌, ◌++◌,
  arith, All, length, Bytes, IsWord, ap, ◌∙◌, bytes, if_ind, equal_nocase,
}
use ftf_interview.Queue.{Timeval}
use ftf_interview.Request.Scans.{scan_word-word, scan_word-space}
use ftf_interview.Request.{
  StatThread, Refusal, Parsed, Status, Answer, Garbage, get_filetype, parse_uri, scan_line, serve,
  serve_rest, serve_static, serve_dynamic, stats, answer, handle, dispatch_time,
}
use ftf_interview.Request.Paths.{IsInside, parse_uri-IsInside}
use ftf_interview.Request.Headers.{is_blank, read_hdrs-append, read_hdrs_endless}

-- Why a request is refused
abbrev pub IsRefused : (Bytes → Option Status) → Refusal → (cause : Bytes) → Type 0
IsRefused stat Refusal.not_implemented method = equal_nocase method (bytes "GET") ≡ false
IsRefused stat Refusal.not_found f = stat f ≡ none
IsRefused stat Refusal.not_readable f =
    (s : Status) × (stat f ≡ some s) × ((not s.is_reg || not s.can_read) ≡ true)
IsRefused stat Refusal.not_runnable f =
    (s : Status) × (stat f ≡ some s) × ((not s.is_reg || not s.can_execute) ≡ true)

-- An answer that a client may get: what is served lies in the public directory, is a regular file,
-- and is readable or executable.
unfoldable pub IsAllowed : (Bytes → Option Status) → Answer → Type 0
IsAllowed stat (Answer.error r cause) = IsRefused stat r cause
IsAllowed stat (Answer.serves_static f size kind st) =
    IsInside f
    × (kind ≡ get_filetype f)
    × (s : Status) × (stat f ≡ some s)
    × (s.is_reg ≡ true)
    × (s.can_read ≡ true)
    × (s.size ≡ size)
IsAllowed stat (Answer.serves_dynamic f args st) =
    IsInside f × (s : Status) × (stat f ≡ some s) × (s.is_reg ≡ true) × (s.can_execute ≡ true)

-- What an answer says of the method and of the uri, p, of the request.
unfoldable pub IsAnswerTo : (method : Bytes) → (p : Parsed) → Answer → Type 0
IsAnswerTo method p (Answer.error Refusal.not_implemented cause) = cause ≡ method
IsAnswerTo method p (Answer.error Refusal.not_found cause) =
    (equal_nocase method (bytes "GET") ≡ true) × (cause ≡ p.filename)
IsAnswerTo method p (Answer.error Refusal.not_readable cause) =
    (equal_nocase method (bytes "GET") ≡ true) × (cause ≡ p.filename) × (p.is_static ≡ true)
IsAnswerTo method p (Answer.error Refusal.not_runnable cause) =
    (equal_nocase method (bytes "GET") ≡ true) × (cause ≡ p.filename) × (p.is_static ≡ false)
IsAnswerTo method p (Answer.serves_static f size kind st) =
    (equal_nocase method (bytes "GET") ≡ true) × (f ≡ p.filename) × (p.is_static ≡ true)
IsAnswerTo method p (Answer.serves_dynamic f args st) =
    (equal_nocase method (bytes "GET") ≡ true)
    × (f ≡ p.filename)
    × (args ≡ p.cgiargs)
    × (p.is_static ≡ false)

-- The counters before and after, by the answer.
unfoldable pub IsCounted : StatThread → Answer → StatThread → Type 0
IsCounted t (Answer.error n cause) t' =
    (t'.static_count ≡ t.static_count) × (t'.dynam_count ≡ t.dynam_count)
IsCounted t (Answer.serves_static f size kind st) t' =
    (t'.static_count ≡ t.static_count + 1) × (t'.dynam_count ≡ t.dynam_count) × (st.thread ≡ t')
IsCounted t (Answer.serves_dynamic f args st) t' =
    (t'.static_count ≡ t.static_count) × (t'.dynam_count ≡ t.dynam_count + 1) × (st.thread ≡ t')

-- An answer and the thread's new counters.
unfoldable pub IsRight :
    (Bytes → Option Status) → (method : Bytes) → Parsed → StatThread → Answer × StatThread → Type 0
IsRight stat method p t r =
    IsAllowed stat r.0
    × IsAnswerTo method p r.0
    × IsCounted t r.0 r.1
    × (r.1.tot_req_count ≡ t.tot_req_count)
    × (r.1.thread_id ≡ t.thread_id)

either_false : (a b : Bool) → (not a || not b) ≡ false → (a ≡ true) × (b ≡ true)
either_false true true h = (refl, refl)
either_false true false h = ground arith
either_false false b h = ground arith

serve-IsRight :
    (stat : Bytes → Option Status) (time now : Timeval) (method : Bytes) (p : Parsed)
    (o : Option Status) (t : StatThread)
    → equal_nocase method (bytes "GET") ≡ true
    → stat p.filename ≡ o
    → IsInside p.filename
    → IsRight stat method p t (serve time now p o t)
unfolding serve serve_static serve_dynamic stats IsRight IsAllowed IsAnswerTo IsCounted
serve-IsRight stat time now method p none t g e i = (e, (g, refl), (refl, refl), refl, refl)
serve-IsRight stat time now method p (some st) t g e i =
    if_ind (IsRight stat method p t) p.is_static _ _
      (λ is_static.
        if_ind (IsRight stat method p t) (not st.is_reg || not st.can_read) _ _
          (λ y. ((st, e, y), (g, refl, is_static), (refl, refl), refl, refl))
          (λ h.
            let (r, k) = either_false st.is_reg st.can_read h in
            ((i, refl, st, e, r, k, refl), (g, refl, is_static), (refl, refl, refl), refl, refl)))
      (λ is_dynamic.
        if_ind (IsRight stat method p t) (not st.is_reg || not st.can_execute) _ _
          (λ y. ((st, e, y), (g, refl, is_dynamic), (refl, refl), refl, refl))
          (λ h.
            let (r, k) = either_false st.is_reg st.can_execute h in
            ((i, st, e, r, k), (g, refl, refl, is_dynamic), (refl, refl, refl), refl, refl)))

-- The rest of `requestHandle` for a request whose headers end.
answer-IsRight :
    (stat : Bytes → Option Status) (time now : Timeval) (g : Garbage) (fuel : ℕ)
    (hdrs rest : List Bytes) (end : Bytes) (words : Bytes × Bytes) (t : StatThread)
    → All (λ l. is_blank l ≡ false) hdrs
    → is_blank end ≡ true
    → length hdrs < fuel
    → (r : Answer × StatThread) × (answer stat time now g fuel (hdrs ++ end ∷ rest) words t
        ≡ some r)
      × IsRight stat words.0 (parse_uri words.1 g.cgiargs g.before) t r
unfolding answer serve_rest IsRight IsAllowed IsAnswerTo IsCounted
answer-IsRight stat time now g fuel hdrs rest end (method, uri) t all e h =
    if_ind
      (λ o.
        (r : Answer × StatThread) × (o ≡ some r)
        × IsRight stat method (parse_uri uri g.cgiargs g.before) t r)
      (not (equal_nocase method (bytes "GET"))) _ _
      (λ y. (
        (Answer.error Refusal.not_implemented method, t),
        refl,
        (ground (arith, y), refl, (refl, refl), refl, refl),
      ))
      (λ n.
        let p = parse_uri uri g.cgiargs g.before in
        (
          serve time now p (stat p.filename) t,
          rw (read_hdrs-append fuel g.hdrs hdrs rest end all e h) refl,
          serve-IsRight stat time now method p (stat p.filename) t (ground (arith, n)) refl
              (parse_uri-IsInside uri g.cgiargs g.before),
        ))

IsCounted-tot :
    (t : StatThread) (a : Answer) (t' : StatThread)
    → IsCounted (record t { tot_req_count = t.tot_req_count + 1 }) a t'
    → IsCounted t a t'
unfolding IsCounted
IsCounted-tot t (Answer.error n cause) t' h = h
IsCounted-tot t (Answer.serves_static f size kind st) t' h = h
IsCounted-tot t (Answer.serves_dynamic f args st) t' h = h

-- The first line of a request: the method, the uri and the version with single spaces between.
abbrev pub request_line : (method uri version : Bytes) → Bytes
request_line method uri version = method ++ b' ' ∷ (uri ++ b' ' ∷ version)

-- The two words that `requestHandle` takes from the line.
scan_line-request_line :
    (g : Garbage) (method uri version : Bytes)
    → IsWord method
    → IsWord uri
    → scan_line g (request_line method uri version) ≡ (method, uri)
unfolding scan_line
scan_line-request_line g method uri version m u =
    rw (scan_line, scan_word-word method (uri ++ b' ' ∷ version) m, scan_word-space uri version u)
      refl

-- For a request line of a method, a uri and a version with single spaces between, followed by
-- header lines that end with a blank one, and more fuel than there are header lines, the request
-- is answered. A method other than GET is refused by its name. For GET, the file is the one that
-- requestParseURI makes of that uri: what is served statically lies in ./public/ without ".." in
-- its name, is a regular readable file of the size that stat gave, with the type of its name; what
-- is run lies there too, is a regular executable file and gets the arguments of the uri; a refusal
-- has its reason: a file that is not found, or one that is not regular or may not be read or run.
-- The total grows by one, and exactly the counter of what was served by one.
pub handle-IsRight :
    (stat : Bytes → Option Status) (time now : Timeval) (g : Garbage) (fuel : ℕ)
    (method uri version : Bytes) (hdrs rest : List Bytes) (end : Bytes) (t : StatThread)
    → IsWord method
    → IsWord uri
    → All (λ l. is_blank l ≡ false) hdrs
    → is_blank end ≡ true
    → length hdrs < fuel
    → (r : Answer × StatThread) × (handle stat time now g fuel
          (request_line method uri version ∷ hdrs ++ end ∷ rest)
          t
        ≡ some r)
      × IsAllowed stat r.0
      × IsAnswerTo method (parse_uri uri g.cgiargs g.before) r.0
      × IsCounted t r.0 r.1
      × (r.1.tot_req_count ≡ t.tot_req_count + 1)
      × (r.1.thread_id ≡ t.thread_id)
unfolding handle IsRight IsCounted
handle-IsRight stat time now g fuel method uri version hdrs rest end t m u all e h =
    let counted_in : StatThread = record t { tot_req_count = t.tot_req_count + 1 } in
    let (r, runs, (allowed, answers, counted, tot, id)) =
      answer-IsRight stat time now g fuel hdrs rest end (method, uri) counted_in all e h in
    (
      r,
      ap (λ w. answer stat time now g fuel (hdrs ++ end ∷ rest) w counted_in)
            (scan_line-request_line g method uri version m u)
          ∙ runs,
      allowed,
      answers,
      IsCounted-tot t r.0 r.1 counted,
      tot,
      id,
    )

-- A GET request gets no answer, whatever the fuel, where neither the header lines nor the old
-- contents of their buffer are the blank line: at the end of the connection the loop goes on.
pub handle_endless :
    (stat : Bytes → Option Status) (time now : Timeval) (g : Garbage) (fuel : ℕ) (line : Bytes)
    (hdrs : List Bytes) (t : StatThread)
    → equal_nocase (scan_line g line).0 (bytes "GET") ≡ true
    → is_blank g.hdrs ≡ false
    → All (λ l. is_blank l ≡ false) hdrs
    → handle stat time now g fuel (line ∷ hdrs) t ≡ none
unfolding handle answer serve_rest
handle_endless stat time now g fuel line hdrs t m b all =
    rw m (rw (read_hdrs_endless fuel g.hdrs hdrs b all) refl)

-- Where the microseconds of now are below those of the arrival, which are below 10^6, the
-- microseconds of the dispatch time are the difference plus 2^64, since no second is borrowed.
dispatch_time_wraps :
    (now time : Timeval)
    → now.tv_usec < time.tv_usec
    → time.tv_usec < 10 ^ 6
    → (dispatch_time now time).tv_usec + time.tv_usec ≡ 2 ^ 64 + now.tv_usec
unfolding dispatch_time
dispatch_time_wraps now time u b = omega arith
