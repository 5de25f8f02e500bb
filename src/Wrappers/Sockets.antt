-- ===== src/Wrappers/Sockets.antt =====
-- Threads and synchronization/helper.c: `open_clientfd` and `open_listenfd`. What the calls return are
-- arguments; the calls made are recorded, and no socket is closed by these functions.
use ftf_interview.Base.{ℕ, ◌%◌, ◌^◌, List, [], ◌∷◌, ◌++◌, Bytes, bytes}
use ftf_interview.Wrappers.{Rc, Ended, unix_error, dns_error}

-- The calls, with what they are passed beside constants.
pub data Call : Type 0 where
  socket : Call
  resolve : (hostname : Bytes) → Call
  reuse_address : (fd : ℕ) → Call
  bind_any : (fd port : ℕ) → Call
  listen : (fd backlog : ℕ) → Call
  connect : (fd host port : ℕ) → Call

-- A descriptor, -1 with errno, or -2 with h_errno.
pub data Socket : Type 0 where
  descriptor : (fd : ℕ) → Socket
  unix_failure dns_failure : (errno : ℕ) → Socket

pub record Opened : Type 0 where
  pub result : Socket
  pub stderr : Bytes
  pub calls : List Call

abbrev pub listenq : ℕ
listenq = 1024

-- `htons((unsigned short)port)`, as the number of the port
abbrev pub port_of : ℕ → ℕ
port_of port = port % 2 ^ 16

-- A call that is made, and what is behind it where it returns.
unfoldable pub on_success : Call → (message : Bytes) → Rc → (ℕ → Opened) → Opened
on_success c message (Rc.returns x) next = let o = next x in record o { calls = c ∷ o.calls }
on_success c message (Rc.fails e) next = record {
  result = Socket.unix_failure e;
  stderr = message;
  calls = c ∷ [];
}

abbrev pub opened : ℕ → Opened
opened fd = record { result = Socket.descriptor fd; stderr = []; calls = [] }

pub record ListenAnswers : Type 0 where
  pub socket : Rc
  pub setsockopt : Rc
  pub bind : Rc
  pub listen : Rc

unfoldable pub open_listenfd : ListenAnswers → (port : ℕ) → Opened
unfolding on_success
open_listenfd a port = on_success Call.socket (bytes "socket failed\n") a.socket (λ fd.
    on_success (Call.reuse_address fd) (bytes "setsockopt failed\n") a.setsockopt (λ _.
      on_success (Call.bind_any fd (port_of port)) (bytes "bind failed\n") a.bind (λ _.
        on_success (Call.listen fd listenq) (bytes "listen failed\n") a.listen (λ _. opened fd))))

-- `gethostbyname` gives the number of the host's address.
pub record ConnectAnswers : Type 0 where
  pub socket : Rc
  pub gethostbyname : Rc
  pub connect : Rc

unfoldable pub connect_to : (fd port : ℕ) → (hostname : Bytes) → (host rc : Rc) → Opened
unfolding on_success
connect_to fd port hostname (Rc.fails h) rc = record {
  result = Socket.dns_failure h;
  stderr = [];
  calls = Call.resolve hostname ∷ [];
}
connect_to fd port hostname (Rc.returns host) rc =
    let o = on_success (Call.connect fd host (port_of port)) [] rc (λ _. opened fd) in
    record o { calls = Call.resolve hostname ∷ o.calls }

unfoldable pub open_clientfd : ConnectAnswers → (hostname : Bytes) → (port : ℕ) → Opened
unfolding on_success connect_to
open_clientfd a hostname port =
    on_success Call.socket [] a.socket (λ fd. connect_to fd port hostname a.gethostbyname a.connect)

module _ (strerror : ℕ → Bytes) where
  -- `Open_listenfd`; what it writes stands behind what `open_listenfd` has written.
  abbrev pub listening_or_exit : (stderr : Bytes) → Socket → Ended ℕ
  listening_or_exit stderr (Socket.descriptor fd) = Ended.gives fd
  listening_or_exit stderr (Socket.unix_failure e) =
      Ended.exits (stderr ++ unix_error strerror (bytes "Open_listenfd error") e)
  listening_or_exit stderr (Socket.dns_failure e) =
      Ended.exits (stderr ++ unix_error strerror (bytes "Open_listenfd error") e)

  unfoldable pub open_listenfd_or_exit : ListenAnswers → (port : ℕ) → Ended ℕ
  unfolding unix_error open_listenfd
  open_listenfd_or_exit a port = let o = open_listenfd a port in listening_or_exit o.stderr o.result

  -- `Open_clientfd`
  abbrev pub connected_or_exit : (stderr : Bytes) → Socket → Ended ℕ
  connected_or_exit stderr (Socket.descriptor fd) = Ended.gives fd
  connected_or_exit stderr (Socket.unix_failure e) =
      Ended.exits (stderr ++ unix_error strerror (bytes "Open_clientfd Unix error") e)
  connected_or_exit stderr (Socket.dns_failure h) =
      Ended.exits (stderr ++ dns_error (bytes "Open_clientfd DNS error") h)

  unfoldable pub open_clientfd_or_exit : ConnectAnswers → (hostname : Bytes) → (port : ℕ) → Ended ℕ
  unfolding unix_error dns_error open_clientfd
  open_clientfd_or_exit a hostname port =
      let o = open_clientfd a hostname port in connected_or_exit o.stderr o.result
