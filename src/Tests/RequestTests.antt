-- ===== src/Tests/RequestTests.antt =====
-- request.c on concrete requests.
use ftf_interview.Base.{
  ◌≡◌, refl, true, false, Option, none, some, [], ◌∷◌, ◌++◌, arith, Bytes, bytes, contains,
  last_byte, split_at, equal, List, length, has_char, ◌<◌, IsWord, equal_nocase, scan_word,
}
use ftf_interview.Queue.{Timeval}
use ftf_interview.Request.{
  StatThread, Status, Answer, FileType, Garbage, parse_uri, handle, get_filetype, Refusal, Stats,
  scan_line,
}
use ftf_interview.Rio.{Read}
use ftf_interview.Rio.Streams.{ahead, Ends, at_end, after_bytes}
use ftf_interview.Request.Texts.{request_error, error_body, serve_static_text, stat_lines}
use ftf_interview.Request.Lengths.{declared, request_error-declared, serve_static_text-declared}
use ftf_interview.Request.Connections.{request_handle}
use ftf_interview.Request.Wires.{line_of, lines_of, to_handled, request_handle-handle}
use ftf_interview.Request.Paths.{IsInside, parse_uri-IsInside}
use ftf_interview.Request.Answers.{IsAllowed, IsAnswerTo, IsCounted, handle-IsRight, handle_endless}

abbrev early : Timeval
early = record { tv_sec = 100; tv_usec = 900000 }

abbrev late : Timeval
late = record { tv_sec = 101; tv_usec = 100000 }

abbrev worker : StatThread
worker = record { thread_id = 2; dynam_count = 4; static_count = 5; tot_req_count = 11 }

abbrev garbage : Garbage
garbage = record { buf = []; method = []; uri = []; cgiargs = []; hdrs = []; before = 0 }

-- Every file is a readable one of 7 bytes.
abbrev readable : Bytes → Option Status
readable f = some (record { is_reg = true; can_read = true; can_execute = false; size = 7 })

abbrev host : Bytes
host = bytes "Host: here\r\n"

home : (parse_uri (bytes "/") [] 0).filename ≡ bytes "./public//home.html"
unfolding parse_uri contains last_byte split_at
home = refl

escape : (parse_uri (bytes "/../passwd") [] 0).filename ≡ bytes "./public/home.html"
unfolding parse_uri contains last_byte split_at
escape = refl

script :
    parse_uri (bytes "/output.cgi?1.0") [] 0
    ≡ record { is_static = false; filename = bytes "./public//output.cgi"; cgiargs = bytes "1.0" }
unfolding parse_uri contains last_byte split_at
script = refl

picture : get_filetype (bytes "./public/a.gif") ≡ FileType.image_gif
unfolding get_filetype contains
picture = refl

parse_uri-IsInside_example : IsInside (parse_uri (bytes "/output.cgi?1.0") [] 0).filename
parse_uri-IsInside_example = parse_uri-IsInside (bytes "/output.cgi?1.0") [] 0

get-IsWord : IsWord (bytes "GET")
get-IsWord = (refl, (refl, (refl, tt)))

picture-IsWord : IsWord (bytes "/a.gif")
picture-IsWord = (refl, (refl, (refl, (refl, (refl, (refl, tt))))))

handle-IsRight_example :
    (r : Answer × StatThread) × (handle readable early late garbage 9
        (bytes "GET /a.gif HTTP/1.0\r\n" ∷ (host ∷ []) ++ bytes "\r\n" ∷ [])
        worker
      ≡ some r)
    × IsAllowed readable r.0
    × IsAnswerTo (bytes "GET") (parse_uri (bytes "/a.gif") [] 0) r.0
    × IsCounted worker r.0 r.1
    × (r.1.tot_req_count ≡ 12)
    × (r.1.thread_id ≡ 2)
unfolding equal
handle-IsRight_example =
    handle-IsRight readable early late garbage 9 (bytes "GET") (bytes "/a.gif")
      (bytes "HTTP/1.0\r\n") (host ∷ []) [] (bytes "\r\n") worker get-IsWord picture-IsWord
      (refl, tt) refl (omega arith)

handle_endless_example :
    handle readable early late garbage 9 (bytes "GET / HTTP/1.0\r\n" ∷ host ∷ []) worker ≡ none
unfolding equal equal_nocase scan_line scan_word
handle_endless_example =
    handle_endless readable early late garbage 9 (bytes "GET / HTTP/1.0\r\n") (host ∷ []) worker
      refl refl (refl, tt)

request_error-declared_example :
    declared (request_error Refusal.not_found (bytes "./public/x"))
    ≡ some (
      length (error_body Refusal.not_found (bytes "./public/x")),
      error_body Refusal.not_found (bytes "./public/x"),
    )
request_error-declared_example = request_error-declared Refusal.not_found (bytes "./public/x")

abbrev some_stats : Stats
some_stats = record {
  arrival = record { tv_sec = 1; tv_usec = 2 };
  dispatch = record { tv_sec = 0; tv_usec = 3 };
  thread = record { thread_id = 0; dynam_count = 0; static_count = 1; tot_req_count = 1 };
}

serve_static_text-declared_example :
    (body : Bytes) × (declared (serve_static_text 2 FileType.text_html some_stats (bytes "hi"))
      ≡ some (2, body))
    × (body ≡ stat_lines some_stats ++ bytes "hi")
    × (2 < length body)
serve_static_text-declared_example =
    serve_static_text-declared 2 FileType.text_html some_stats (bytes "hi") (omega arith) refl

-- A request that comes in two pieces
abbrev two_reads : List Read
two_reads = Read.got (bytes "GET /a.html H") ∷ Read.got (bytes "TTP/1.0\r\n\r\n") ∷ Read.got [] ∷ []

abbrev request_line : Bytes
request_line = bytes "GET /a.html HTTP/1.0\r"

two_reads-Ends : Ends two_reads
two_reads-Ends = after_bytes _ _ _ (after_bytes _ _ _ (at_end []))

request_handle-handle_example :
    request_handle (λ f. none) early early garbage 5 two_reads worker
    ≡ to_handled
        (handle (λ f. none) early early garbage 5 (line_of request_line ∷ lines_of [] []) worker)
unfolding ahead has_char
request_handle-handle_example =
    request_handle-handle (λ f. none) early early garbage 5 two_reads request_line [] [] [] worker
      refl (refl, omega arith) tt two_reads-Ends
