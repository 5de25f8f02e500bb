-- ===== src/Request/Paths.antt =====
-- The file names that `requestParseURI` makes of a request.
use ftf_interview.Base.{
  ℕ, ◌+◌, ◌≤◌, ◌≡◌, refl, ap, Bool, true, false, Option, none, some, [], ◌∷◌, ◌++◌, arith, length,
  Bytes, bytes, contains, starts_with, split_at, last_byte, Bool-cases, if_ind, inl, inr, ◌==◌,
  if◌then◌else◌, length-append, append-nil, not, Option-cases,
}
use ftf_interview.Request.{parse_uri, parse_dynamic, Parsed}

split_at-append : (c : ℕ) (s a b : Bytes) → split_at c s ≡ some (a, b) → s ≡ a ++ c ∷ b
unfolding split_at
split_at-append c [] a b e = ground arith
split_at-append c (x ∷ s) a b e = elim (Option-cases (split_at c s)) [
  | inl n ↦ ground (arith, n)
  | inr ((a', b'), k) ↦ ground (arith, k, split_at-append c s a' b' k)
]

starts_with-append : (p a t : Bytes) → starts_with p a ≡ true → starts_with p (a ++ t) ≡ true
unfolding starts_with
starts_with-append [] a t h = refl
starts_with-append (q ∷ p) [] t h = ground arith
starts_with-append (q ∷ p) (x ∷ a) t h = ground (arith, starts_with-append p a t)

contains-append : (p a t : Bytes) → contains p a ≡ true → contains p (a ++ t) ≡ true
unfolding contains
contains-append p [] [] h = h
contains-append p [] (y ∷ t) h = ground (arith, starts_with-append p [] (y ∷ t) h)
contains-append p (x ∷ a) t h =
    ground (arith, contains-append p a t, starts_with-append p (x ∷ a) t)

no_dots_append :
    (s : Bytes)
    → contains (bytes "..") s ≡ false
    → contains (bytes "..") (s ++ bytes "home.html") ≡ false
unfolding contains starts_with
no_dots_append [] h = refl
no_dots_append (x ∷ []) h = ground arith
no_dots_append (x ∷ y ∷ s) h = ground (arith, no_dots_append (y ∷ s))

-- What a client may make the server open.
abbrev pub IsInside : Bytes → Type 0
IsInside f = (contains (bytes "..") f ≡ false) × (starts_with (bytes "./public/") f ≡ true)

in_public : (f : Bytes) → contains (bytes "..") f ≡ false → IsInside (bytes "./public/" ++ f)
unfolding contains starts_with
in_public f h = (h, refl)

home_or_not :
    (test : Bool) (uri : Bytes)
    → contains (bytes "..") uri ≡ false
    → contains (bytes "..") (uri ++ (if test then bytes "home.html" else [])) ≡ false
home_or_not true uri h = no_dots_append uri h
home_or_not false uri h = rw (append-nil uri) h

parse_dynamic-IsInside :
    (uri : Bytes) (o : Option (Bytes × Bytes))
    → split_at b'?' uri ≡ o
    → contains (bytes "..") uri ≡ false
    → IsInside (parse_dynamic uri o).filename
unfolding parse_dynamic
parse_dynamic-IsInside uri none e h = in_public uri h
parse_dynamic-IsInside uri (some (path, args)) e h =
    in_public path (elim (Bool-cases (contains (bytes "..") path)) [
      | inr n ↦ n
      | inl y ↦ ground (
        arith,
        contains-append (bytes "..") path (b'?' ∷ args) y,
        h,
        split_at-append b'?' uri path args e,
      )
    ])

-- For every uri the file name that requestParseURI makes begins with ./public/ and has no ".." in
-- it.
pub parse_uri-IsInside :
    (uri cgiargs : Bytes) (before : ℕ) → IsInside (parse_uri uri cgiargs before).filename
unfolding parse_uri contains starts_with
parse_uri-IsInside uri cgiargs before =
    if_ind (λ (p : Parsed). IsInside p.filename) (contains (bytes "..") uri) _ _ (λ _. (refl, refl))
      (λ h.
        if_ind (λ (p : Parsed). IsInside p.filename) (not (contains (bytes "cgi") uri)) _ _
          (λ _.
            in_public (uri ++ (if last_byte before uri == b'/' then bytes "home.html" else []))
              (home_or_not (last_byte before uri == b'/') uri h))
          (λ _. parse_dynamic-IsInside uri (split_at b'?' uri) refl h))

home-length :
    (test : Bool) (uri : Bytes)
    → length (bytes "./public/" ++ uri ++ (if test then bytes "home.html" else []))
      ≤ length uri + 18
home-length true uri = omega (arith, length-append uri (bytes "home.html"))
home-length false uri = omega (arith, length-append uri [])

parse_dynamic-length :
    (uri : Bytes) (o : Option (Bytes × Bytes))
    → split_at b'?' uri ≡ o
    → length (parse_dynamic uri o).filename ≤ length uri + 18
unfolding parse_dynamic
parse_dynamic-length uri none e = omega arith
parse_dynamic-length uri (some (path, args)) e =
    omega
      (arith, length-append path (b'?' ∷ args), ap length (split_at-append b'?' uri path args e))

-- For every uri the file name that requestParseURI makes is at most 18 bytes longer than the uri.
parse_uri-length :
    (uri cgiargs : Bytes) (before : ℕ)
    → length (parse_uri uri cgiargs before).filename ≤ length uri + 18
unfolding parse_uri
parse_uri-length uri cgiargs before =
    if_ind (λ (p : Parsed). length p.filename ≤ length uri + 18) (contains (bytes "..") uri) _ _
      (λ _. omega arith)
      (λ h.
        if_ind (λ (p : Parsed). length p.filename ≤ length uri + 18)
          (not (contains (bytes "cgi") uri)) _ _
          (λ _. home-length (last_byte before uri == b'/') uri)
          (λ _. parse_dynamic-length uri (split_at b'?' uri) refl))
