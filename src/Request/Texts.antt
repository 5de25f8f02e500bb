-- ===== src/Request/Texts.antt =====
-- Threads and synchronization/request.c: the texts of the answers. `sprintf` of a buffer into
-- itself appends, as the C library does it; the arrays have no bound.
use ftf_interview.Base.{
  ℕ, ◌-◌, ◌%◌, ◌^◌, ◌∷◌, ◌++◌, ltb, if◌then◌else◌, Bytes, bytes, decimal, length, replicate,
}
use ftf_interview.Queue.{Timeval}
use ftf_interview.Request.{FileType, Stats, Refusal, Answer}

abbrev pub errnum : Refusal → Bytes
errnum Refusal.not_implemented = bytes "501"
errnum Refusal.not_found = bytes "404"
errnum Refusal.not_readable = bytes "403"
errnum Refusal.not_runnable = bytes "403"

abbrev pub shortmsg : Refusal → Bytes
shortmsg Refusal.not_implemented = bytes "Not Implemented"
shortmsg Refusal.not_found = bytes "Not found"
shortmsg Refusal.not_readable = bytes "Forbidden"
shortmsg Refusal.not_runnable = bytes "Forbidden"

abbrev pub longmsg : Refusal → Bytes
longmsg Refusal.not_implemented = bytes "OS-HW3 Server does not implement this method"
longmsg Refusal.not_found = bytes "OS-HW3 Server could not find this file"
longmsg Refusal.not_readable = bytes "OS-HW3 Server could not read this file"
longmsg Refusal.not_runnable = bytes "OS-HW3 Server could not run this CGI program"

abbrev pub crlf : Bytes
crlf = bytes "\r\n"

unfoldable pub error_body : Refusal → (cause : Bytes) → Bytes
error_body r cause =
    bytes "<html><title>OS-HW3 Error</title><body bgcolor=fffff>\r\n"
    ++ errnum r
    ++ bytes ": "
    ++ shortmsg r
    ++ bytes "\r\n<p>"
    ++ longmsg r
    ++ bytes ": "
    ++ cause
    ++ bytes "\r\n<hr>OS-HW3 Web Server\r\n"

abbrev pub error_head : Refusal → Bytes
error_head r =
    bytes "HTTP/1.0 "
    ++ errnum r
    ++ bytes " "
    ++ shortmsg r
    ++ bytes "\r\nContent-Type: text/html\r\nContent-Length: "

-- `requestError`: what is written, one after the other.
unfoldable pub request_error : Refusal → (cause : Bytes) → Bytes
unfolding decimal error_body
request_error r cause =
    let body = error_body r cause in
    error_head r ++ (decimal (length body) ++ (crlf ++ (crlf ++ body)))

-- `%d` of an `int`
unfoldable pub print_int : ℕ → Bytes
unfolding decimal
print_int x = if ltb x (2 ^ 31) then decimal x else b'-' ∷ decimal (2 ^ 32 - x)

-- `%06lu`
unfoldable pub print_usec : ℕ → Bytes
unfolding decimal
print_usec n = let ds = decimal n in replicate (6 - length ds) b'0' ++ ds

unfoldable pub print_time : Timeval → Bytes
unfolding decimal print_usec
print_time t = decimal t.tv_sec ++ (bytes "." ++ print_usec t.tv_usec)

-- The lines with the statistics, and the empty one.
unfoldable pub stat_lines : Stats → Bytes
unfolding print_time print_int
stat_lines st =
    bytes "Stat-Req-Arrival:: "
    ++ print_time st.arrival
    ++ bytes "\r\nStat-Req-Dispatch:: "
    ++ print_time st.dispatch
    ++ bytes "\r\nStat-Thread-Id:: "
    ++ print_int st.thread.thread_id
    ++ bytes "\r\nStat-Thread-Count:: "
    ++ print_int st.thread.tot_req_count
    ++ bytes "\r\nStat-Thread-Static:: "
    ++ print_int st.thread.static_count
    ++ bytes "\r\nStat-Thread-Dynamic:: "
    ++ print_int st.thread.dynam_count
    ++ bytes "\r\n\r\n"

abbrev pub type_name : FileType → Bytes
type_name FileType.text_html = bytes "text/html"
type_name FileType.image_gif = bytes "image/gif"
type_name FileType.image_jpeg = bytes "image/jpeg"
type_name FileType.text_plain = bytes "text/plain"

abbrev pub static_head : Bytes
static_head = bytes "HTTP/1.0 200 OK\r\nServer: OS-HW3 Web Server\r\nContent-Length: "

-- What `requestServeStatic` writes, with the bytes of the mapped file; the size is an `int`.
unfoldable pub serve_static_text : (filesize : ℕ) → FileType → Stats → (file : Bytes) → Bytes
unfolding print_int stat_lines
serve_static_text filesize kind st file =
    static_head
    ++ (print_int (filesize % 2 ^ 32)
        ++ (crlf
            ++ (bytes "Content-Type: "
                ++ (type_name kind ++ (crlf ++ (crlf ++ (stat_lines st ++ file)))))))

-- What `requestServeDynamic` writes, before the child process takes over.
unfoldable pub serve_dynamic_text : Stats → Bytes
unfolding stat_lines
serve_dynamic_text st = bytes "HTTP/1.0 200 OK\r\nServer: OS-HW3 Web Server\r\n" ++ stat_lines st

-- All bytes of an answer; `contents` gives those of a file.
unfoldable pub answer_text : (contents : Bytes → Bytes) → Answer → Bytes
unfolding request_error serve_static_text serve_dynamic_text
answer_text contents (Answer.error r cause) = request_error r cause
answer_text contents (Answer.serves_static name size kind st) =
    serve_static_text size kind st (contents name)
answer_text contents (Answer.serves_dynamic name args st) = serve_dynamic_text st
