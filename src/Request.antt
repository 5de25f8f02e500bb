-- ===== src/Request.antt =====
-- Threads and synchronization/request.c: how a worker answers one request.
pub mod Paths
pub mod Headers
pub mod Scans
pub mod Answers
pub mod Texts
pub mod Lengths
pub mod Connections
pub mod Wires
use ftf_interview.Base.{
  ℕ, zero, suc, ◌+◌, ◌-◌, ◌%◌, ◌^◌, Bool, true, false, ◌&&◌, ◌||◌, not, Option, none, some, List,
  [], ◌∷◌, ◌++◌, ◌==◌, if◌then◌else◌, Bytes, bytes, contains, split_at, last_byte, equal,
  equal_nocase, scan_word,
}
use ftf_interview.Queue.{Timeval}

-- The counters of `stat_thread`.
pub record StatThread : Type 0 where
  pub thread_id : ℕ
  pub dynam_count : ℕ
  pub static_count : ℕ
  pub tot_req_count : ℕ

-- What `requestParseURI` returns and writes.
pub record Parsed : Type 0 where
  pub is_static : Bool
  pub filename : Bytes
  pub cgiargs : Bytes

-- Dynamic content, from what `index(uri, '?')` finds.
parse_dynamic : Bytes → Option (Bytes × Bytes) → Parsed
parse_dynamic uri (some (path, args)) = record {
  is_static = false;
  filename = bytes "./public/" ++ path;
  cgiargs = args;
}
parse_dynamic uri none = record {
  is_static = false;
  filename = bytes "./public/" ++ uri;
  cgiargs = [];
}

-- `cgiargs` holds what the array holds before; `before` is the byte in front of `uri`.
unfoldable pub parse_uri : (uri cgiargs : Bytes) → (before : ℕ) → Parsed
unfolding parse_dynamic
parse_uri uri cgiargs before =
    if contains (bytes "..") uri
    then record { is_static = true; filename = bytes "./public/home.html"; cgiargs = cgiargs }
    else if not (contains (bytes "cgi") uri)
    then record {
      is_static = true;
      filename =
          (bytes "./public/" ++ uri)
          ++ (if last_byte before uri == b'/' then bytes "home.html" else []);
      cgiargs = [];
    }
    else parse_dynamic uri (split_at b'?' uri)

pub data FileType : Type 0 where
  text_html image_gif image_jpeg text_plain : FileType

unfoldable pub get_filetype : Bytes → FileType
get_filetype filename =
    if contains (bytes ".html") filename
    then text_html
    else if contains (bytes ".gif") filename
    then image_gif
    else if contains (bytes ".jpg") filename
    then image_jpeg
    else text_plain

-- The loop of `requestReadhdrs`: `lines` are those that the connection still has, and at its end
-- `Rio_readlineb` leaves the buffer as it is. None where `fuel` reads do not end the loop.
read_hdrs_from : ℕ → (buf : Bytes) → List Bytes → Option (List Bytes)
read_hdrs_from zero buf lines = none
read_hdrs_from (suc fuel) buf lines = elim (equal buf (bytes "\r\n")) [
  | true ↦ some lines
  | false ↦ elim lines [ [] ↦ read_hdrs_from fuel buf [] | l ∷ rest ↦ read_hdrs_from fuel l rest ]
]

-- The first read and the loop; `buf` is what the array holds before.
unfoldable pub read_hdrs : ℕ → (buf : Bytes) → List Bytes → Option (List Bytes)
unfolding read_hdrs_from
read_hdrs fuel buf [] = read_hdrs_from fuel buf []
read_hdrs fuel buf (l ∷ rest) = read_hdrs_from fuel l rest

-- What `stat` says of a file: a regular one, S_IRUSR, S_IXUSR, and the size.
pub record Status : Type 0 where
  pub is_reg : Bool
  pub can_read : Bool
  pub can_execute : Bool
  pub size : ℕ

-- The lines that tell of the request and the thread.
pub record Stats : Type 0 where
  pub arrival : Timeval
  pub dispatch : Timeval
  pub thread : StatThread

-- The calls of `requestError`
pub data Refusal : Type 0 where
  not_implemented not_found not_readable not_runnable : Refusal

pub data Answer : Type 0 where
  error : Refusal → (cause : Bytes) → Answer
  serves_static : (filename : Bytes) → (filesize : ℕ) → FileType → Stats → Answer
  serves_dynamic : (filename : Bytes) → (cgiargs : Bytes) → Stats → Answer

-- The difference is taken in seconds and in microseconds, each printed as unsigned.
unfoldable pub dispatch_time : (now time : Timeval) → Timeval
dispatch_time now time = record {
  tv_sec = (now.tv_sec + 2 ^ 64 - time.tv_sec) % 2 ^ 64;
  tv_usec = (now.tv_usec + 2 ^ 64 - time.tv_usec) % 2 ^ 64;
}

stats : StatThread → (time now : Timeval) → Stats
unfolding dispatch_time
stats t time now = record { arrival = time; dispatch = dispatch_time now time; thread = t }

serve_static : (time now : Timeval) → Parsed → Status → StatThread → Answer × StatThread
unfolding stats get_filetype
serve_static time now p st t =
    (serves_static p.filename st.size (get_filetype p.filename) (stats t time now), t)

serve_dynamic : (time now : Timeval) → Parsed → StatThread → Answer × StatThread
unfolding stats
serve_dynamic time now p t = (serves_dynamic p.filename p.cgiargs (stats t time now), t)

-- The end of `requestHandle`, with what `stat` says of the file.
serve : (time now : Timeval) → Parsed → Option Status → StatThread → Answer × StatThread
unfolding serve_static serve_dynamic
serve time now p none t = (error not_found p.filename, t)
serve time now p (some st) t =
    if p.is_static
    then if not st.is_reg || not st.can_read
      then (error not_readable p.filename, t)
      else serve_static time now p st (record t { static_count = t.static_count + 1 })
    else if not st.is_reg || not st.can_execute
    then (error not_runnable p.filename, t)
    else serve_dynamic time now p (record t { dynam_count = t.dynam_count + 1 })

-- What the arrays of `requestHandle` and the one of `requestReadhdrs` hold before they are written,
-- and the byte in front of `uri`.
pub record Garbage : Type 0 where
  pub buf : Bytes
  pub method : Bytes
  pub uri : Bytes
  pub cgiargs : Bytes
  pub hdrs : Bytes
  pub before : ℕ

-- `sscanf(buf, "%s %s %s", method, uri, version)`: an array that no word is left for is not written.
unfoldable pub scan_line : Garbage → Bytes → Bytes × Bytes
scan_line g buf = elim (scan_word buf) [
  | none ↦ (g.method, g.uri)
  | some (method, rest) ↦ elim (scan_word rest) [
    | none ↦ (method, g.uri)
    | some (uri, rest') ↦ (method, uri)
  ]
]

-- What follows on the headers, or on their want of an end.
serve_rest :
    (Bytes → Option Status)
    → (time now : Timeval) → Parsed
    → StatThread
    → Option (List Bytes)
    → Option (Answer × StatThread)
unfolding serve
serve_rest stat time now p t none = none
serve_rest stat time now p t (some rest) = some (serve time now p (stat p.filename) t)

answer :
    (Bytes → Option Status)
    → (time now : Timeval) → Garbage
    → (fuel : ℕ) → (lines : List Bytes) → Bytes × Bytes
    → StatThread
    → Option (Answer × StatThread)
unfolding serve_rest
answer stat time now g fuel lines (method, uri) t =
    if not (equal_nocase method (bytes "GET"))
    then some (error not_implemented method, t)
    else serve_rest stat time now (parse_uri uri g.cgiargs g.before) t (read_hdrs fuel g.hdrs lines)

-- None where the headers do not end within the fuel.
unfoldable pub handle :
    (Bytes → Option Status)
    → (time now : Timeval) → Garbage
    → (fuel : ℕ) → (lines : List Bytes) → StatThread
    → Option (Answer × StatThread)
unfolding answer
handle stat time now g fuel [] t =
    answer stat time now g fuel [] (scan_line g g.buf)
      (record t { tot_req_count = t.tot_req_count + 1 })
handle stat time now g fuel (line ∷ lines) t =
    answer stat time now g fuel lines (scan_line g line)
      (record t { tot_req_count = t.tot_req_count + 1 })
