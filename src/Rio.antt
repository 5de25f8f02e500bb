-- ===== src/Rio.antt =====
-- The Rio package of Threads and synchronization/helper.c. The system calls enter as the results that
-- they return, in order; `waits` is a call whose result is not among them.
pub mod Streams
pub mod Lines
pub mod Blocks
pub mod Writes
use ftf_interview.Base.{
  ℕ, zero, suc, ◌+◌, ◌-◌, Bool, true, false, List, [], ◌∷◌, ◌++◌, ◌==◌, if◌then◌else◌, Bytes,
  length, take, drop,
}

-- What one call of `read` returns: the bytes, none of them at the end of the file, or -1 with errno.
pub data Read : Type 0 where
  got : Bytes → Read
  fails : (errno : ℕ) → Read

abbrev pub eintr : ℕ
eintr = 4

-- `rio_t`: the unread bytes of the internal buffer, and what the descriptor's next reads return.
pub record Rio : Type 0 where
  pub unread : Bytes
  pub reads : List Read

-- What a function of the package returns: bytes, 0 at the end of the file, -1.
pub data Outcome : Type 0 where
  bytes_read : Bytes → Rio → Outcome
  eof : Rio → Outcome
  error : (errno : ℕ) → Rio → Outcome
  waits out_of_fuel : Outcome

-- `rio_readinitb`
unfoldable pub rio_readinitb : List Read → Rio
rio_readinitb reads = record { unread = []; reads = reads }

-- The loop of `rio_read` that fills the empty buffer.
unfoldable pub refill : Bytes → List Read → Outcome
refill (c ∷ s) rs = Outcome.bytes_read (c ∷ s) (record { unread = c ∷ s; reads = rs })
refill [] [] = Outcome.waits
refill [] (Read.fails e ∷ rs) =
    let rest = refill [] rs in
    if e == eintr then rest else Outcome.error e (record { unread = []; reads = rs })
refill [] (Read.got [] ∷ rs) = Outcome.eof (record { unread = []; reads = rs })
refill [] (Read.got (c ∷ s) ∷ rs) =
    Outcome.bytes_read (c ∷ s) (record { unread = c ∷ s; reads = rs })

-- The copy of min(n, rio_cnt) bytes.
abbrev pub deliver : ℕ → Outcome → Outcome
deliver n (Outcome.bytes_read s r) = Outcome.bytes_read (take n s) (record r { unread = drop n s })
deliver n o = o

unfoldable pub rio_read : ℕ → Rio → Outcome
unfolding refill
rio_read n r = deliver n (refill r.unread r.reads)

-- What `rio_readlineb` returns: n with the line, 0, -1.
pub data Line : Type 0 where
  line : (n : ℕ) → (text : Bytes) → Rio → Line
  no_line failed : Rio → Line
  line_waits : Line

abbrev pub add_char : ℕ → Line → Line
add_char c (Line.line n text r) = Line.line n (c ∷ text) r
add_char c (Line.no_line r) = Line.no_line r
add_char c (Line.failed r) = Line.failed r
add_char c Line.line_waits = Line.line_waits

-- The end of the file: 0 where it comes before any byte.
abbrev pub end_of_line : ℕ → Rio → Line
end_of_line n r = if n == 1 then Line.no_line r else Line.line n [] r

-- The loop, with `k = maxlen - n` rounds left.
unfoldable pub line_loop : (k n : ℕ) → Rio → Line
unfolding rio_read
line_loop zero n r = Line.line n [] r
line_loop (suc k) n r = elim (rio_read 1 r) [
  | bytes_read [] r' ↦ end_of_line n r'
  | bytes_read (c ∷ s) r' ↦
      let rest = line_loop k (n + 1) r' in
      if c == b'\n' then Line.line n (c ∷ []) r' else add_char c rest
  | eof r' ↦ end_of_line n r'
  | error e r' ↦ Line.failed r'
  | _ ↦ Line.line_waits
]

unfoldable pub rio_readlineb : (maxlen : ℕ) → Rio → Line
unfolding line_loop
rio_readlineb maxlen r = line_loop (maxlen - 1) 1 r

abbrev pub add_bytes : Bytes → Outcome → Outcome
add_bytes s (Outcome.bytes_read t r) = Outcome.bytes_read (s ++ t) r
add_bytes s o = o

-- The loop of `rio_readnb`.
unfoldable pub block_loop : (fuel nleft : ℕ) → Rio → Outcome
unfolding rio_read
block_loop fuel zero r = Outcome.bytes_read [] r
block_loop zero (suc nleft) r = Outcome.out_of_fuel
block_loop (suc fuel) (suc nleft) r = elim (rio_read (suc nleft) r) [
  | bytes_read [] r' ↦ Outcome.bytes_read [] r'
  | bytes_read (c ∷ s) r' ↦ add_bytes (c ∷ s) (block_loop fuel (nleft - length s) r')
  | eof r' ↦ Outcome.bytes_read [] r'
  | error e r' ↦
      let again = block_loop fuel (suc nleft) r' in if e == eintr then again else Outcome.error e r'
  | waits ↦ Outcome.waits
  | out_of_fuel ↦ Outcome.out_of_fuel
]

unfoldable pub rio_readnb : (n : ℕ) → Rio → Outcome
unfolding block_loop
rio_readnb n r = block_loop n n r

-- `rio_readn`, which has no buffer; `nread` is at most the `nleft` that was asked for.
unfoldable pub rio_readn : (nleft : ℕ) → List Read → Outcome
rio_readn zero rs = Outcome.bytes_read [] (record { unread = []; reads = rs })
rio_readn (suc nleft) [] = Outcome.waits
rio_readn (suc nleft) (Read.fails e ∷ rs) =
    let again = rio_readn (suc nleft) rs in
    if e == eintr then again else Outcome.error e (record { unread = []; reads = rs })
rio_readn (suc nleft) (Read.got [] ∷ rs) =
    Outcome.bytes_read [] (record { unread = []; reads = rs })
rio_readn (suc nleft) (Read.got (c ∷ s) ∷ rs) = add_bytes (c ∷ s) (rio_readn (nleft - length s) rs)

-- What one call of `write` returns: the number of bytes written, or -1 with errno.
pub data Write : Type 0 where
  wrote : ℕ → Write
  refuses : (errno : ℕ) → Write

-- What `rio_writen` leaves: the bytes that went out, and its result.
pub data Written : Type 0 where
  all_written write_error write_waits : (sent : Bytes) → Written

-- The loop of `rio_writen`: `buf` is the text at `bufp`. A write of 0 bytes leaves `errno`.
unfoldable pub write_loop : (sent buf : Bytes) → (errno : ℕ) → List Write → Written
write_loop sent [] errno ws = Written.all_written sent
write_loop sent (c ∷ s) errno [] = Written.write_waits sent
write_loop sent (c ∷ s) errno (Write.refuses e ∷ ws) =
    let again = write_loop sent (c ∷ s) e ws in
    if e == eintr then again else Written.write_error sent
write_loop sent (c ∷ s) errno (Write.wrote zero ∷ ws) =
    let again = write_loop sent (c ∷ s) errno ws in
    if errno == eintr then again else Written.write_error sent
write_loop sent (c ∷ s) errno (Write.wrote (suc k) ∷ ws) =
    write_loop (sent ++ c ∷ take k s) (drop k s) errno ws

unfoldable pub rio_writen : Bytes → (errno : ℕ) → List Write → Written
unfolding write_loop
rio_writen buf errno ws = write_loop [] buf errno ws
