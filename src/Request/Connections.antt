-- ===== src/Request/Connections.antt =====
-- Threads and synchronization/request.c over helper.c: `requestHandle` with the lines that the Rio
-- package reads from its connection. A text ends where its bytes end, not at a NUL among them.
use ftf_interview.Base.{
  ℕ, zero, suc, ◌+◌, true, false, not, Option, List, if◌then◌else◌, Bytes, bytes, equal,
  equal_nocase,
}
use ftf_interview.Queue.{Timeval}
use ftf_interview.Rio.{Rio, Line, Read, rio_readinitb, rio_readlineb}
use ftf_interview.Request.{
  StatThread, Status, Answer, Refusal, Garbage, parse_uri, scan_line, serve,
}

abbrev pub maxline : ℕ
maxline = 8192

-- `Rio_readlineb` into a buffer: an error ends the program, the end of the file leaves the buffer.
pub data Next : Type 0 where
  next : Bytes → Rio → Next
  exits next_waits : Next

abbrev pub next_of : (buf : Bytes) → Line → Next
next_of buf (Line.line n text r) = Next.next text r
next_of buf (Line.no_line r) = Next.next buf r
next_of buf (Line.failed r) = Next.exits
next_of buf Line.line_waits = Next.next_waits

unfoldable pub next_line : (buf : Bytes) → Rio → Next
unfolding rio_readlineb
next_line buf r = next_of buf (rio_readlineb maxline r)

-- How `requestReadhdrs` ends; endless where `fuel` reads do not end the loop.
pub data Hdrs : Type 0 where
  ended hdrs_exit hdrs_wait endless : Hdrs

abbrev pub with_next : Next → (Bytes → Rio → Hdrs) → Hdrs
with_next (Next.next buf r) f = f buf r
with_next Next.exits f = Hdrs.hdrs_exit
with_next Next.next_waits f = Hdrs.hdrs_wait

unfoldable pub hdrs_loop : (fuel : ℕ) → (buf : Bytes) → Rio → Hdrs
unfolding next_line equal
hdrs_loop zero buf r = Hdrs.endless
hdrs_loop (suc fuel) buf r = elim (equal buf (bytes "\r\n")) [
  | true ↦ Hdrs.ended
  | false ↦ with_next (next_line buf r) (hdrs_loop fuel)
]

unfoldable pub request_readhdrs : (fuel : ℕ) → (buf : Bytes) → Rio → Hdrs
unfolding next_line hdrs_loop
request_readhdrs fuel buf r = with_next (next_line buf r) (hdrs_loop fuel)

-- What a worker comes to with a request; an exit is that of the whole server.
pub data Handled : Type 0 where
  answered : Answer × StatThread → Handled
  server_exits handled_waits handled_endless : Handled

abbrev pub after_hdrs : Hdrs → Answer × StatThread → Handled
after_hdrs Hdrs.ended a = Handled.answered a
after_hdrs Hdrs.hdrs_exit a = Handled.server_exits
after_hdrs Hdrs.hdrs_wait a = Handled.handled_waits
after_hdrs Hdrs.endless a = Handled.handled_endless

module _ (stat : Bytes → Option Status) (time now : Timeval) (g : Garbage) (fuel : ℕ) where
  -- `requestHandle` behind its first line
  unfoldable pub handle_words : Bytes × Bytes → Rio → StatThread → Handled
  unfolding request_readhdrs parse_uri serve equal_nocase
  handle_words words r t =
      let p = parse_uri words.1 g.cgiargs g.before in
      if not (equal_nocase words.0 (bytes "GET"))
      then Handled.answered (Answer.error Refusal.not_implemented words.0, t)
      else after_hdrs (request_readhdrs fuel g.hdrs r) (serve time now p (stat p.filename) t)

  abbrev pub handle_next : Next → StatThread → Handled
  handle_next (Next.next buf r) t = handle_words (scan_line g buf) r t
  handle_next Next.exits t = Handled.server_exits
  handle_next Next.next_waits t = Handled.handled_waits

  unfoldable pub request_handle : (reads : List Read) → StatThread → Handled
  unfolding rio_readinitb next_line handle_words scan_line
  request_handle reads t =
      handle_next (next_line g.buf (rio_readinitb reads))
        (record t { tot_req_count = t.tot_req_count + 1 })
