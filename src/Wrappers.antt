-- ===== src/Wrappers.antt =====
-- Threads and synchronization/helper.c: the functions that end the program where a call fails. What
-- a call of the system returns is an argument, and so are the texts of `strerror`.
pub mod Sockets
pub mod Opens
pub mod Robust
use ftf_interview.Base.{ℕ, [], ◌++◌, Bytes, bytes, decimal}
use ftf_interview.Rio.{Outcome, Line, Written, Rio}

-- What a call returns: a number, address or null, or the sign of a failure, with errno or h_errno.
pub data Rc : Type 0 where
  returns : ℕ → Rc
  fails : (errno : ℕ) → Rc

-- What a function comes to: its result, or the end of the program, with what stderr then shows.
pub data Ended {ℓ} (A : Type ℓ) : Type ℓ where
  gives : A → Ended A
  exits : (stderr : Bytes) → Ended A
  never_ends : Ended A

-- `dns_error`; `exit` has the status 0, as in the other three.
unfoldable pub dns_error : (msg : Bytes) → (h_errno : ℕ) → Bytes
unfolding decimal
dns_error msg h_errno = msg ++ (bytes ": DNS error " ++ (decimal h_errno ++ bytes "\n"))

abbrev pub app_error : (msg : Bytes) → Bytes
app_error msg = msg ++ bytes "\n"

module _ (strerror : ℕ → Bytes) where
  -- `unix_error`
  unfoldable pub unix_error : (msg : Bytes) → (errno : ℕ) → Bytes
  unix_error msg errno = msg ++ (bytes ": " ++ (strerror errno ++ bytes "\n"))

  -- `posix_error`
  unfoldable pub posix_error : (code : ℕ) → (msg : Bytes) → Bytes
  posix_error code msg = msg ++ (bytes ": " ++ (strerror code ++ bytes "\n"))

  abbrev pub or_unix_error : (msg : Bytes) → Rc → Ended ℕ
  or_unix_error msg (Rc.returns rc) = Ended.gives rc
  or_unix_error msg (Rc.fails e) = Ended.exits (unix_error msg e)

  abbrev pub done_or_unix_error : (msg : Bytes) → Rc → Ended {0} Unit
  done_or_unix_error msg (Rc.returns rc) = Ended.gives tt
  done_or_unix_error msg (Rc.fails e) = Ended.exits (unix_error msg e)

  -- The wrappers that return what the call returns.
  abbrev pub gethostname_or_exit : Rc → Ended ℕ
  gethostname_or_exit rc = or_unix_error (bytes "Setenv error") rc

  abbrev pub setenv_or_exit : Rc → Ended ℕ
  setenv_or_exit rc = or_unix_error (bytes "Setenv error") rc

  abbrev pub fork_or_exit : Rc → Ended ℕ
  fork_or_exit rc = or_unix_error (bytes "Fork error") rc

  abbrev pub wait_or_exit : Rc → Ended ℕ
  wait_or_exit rc = or_unix_error (bytes "Wait error") rc

  abbrev pub open_or_exit : Rc → Ended ℕ
  open_or_exit rc = or_unix_error (bytes "Open error") rc

  abbrev pub read_or_exit : Rc → Ended ℕ
  read_or_exit rc = or_unix_error (bytes "Read error") rc

  abbrev pub write_or_exit : Rc → Ended ℕ
  write_or_exit rc = or_unix_error (bytes "Write error") rc

  abbrev pub lseek_or_exit : Rc → Ended ℕ
  lseek_or_exit rc = or_unix_error (bytes "Lseek error") rc

  abbrev pub select_or_exit : Rc → Ended ℕ
  select_or_exit rc = or_unix_error (bytes "Select error") rc

  abbrev pub dup2_or_exit : Rc → Ended ℕ
  dup2_or_exit rc = or_unix_error (bytes "Dup2 error") rc

  abbrev pub mmap_or_exit : Rc → Ended ℕ
  mmap_or_exit rc = or_unix_error (bytes "mmap error") rc

  abbrev pub socket_or_exit : Rc → Ended ℕ
  socket_or_exit rc = or_unix_error (bytes "Socket error") rc

  abbrev pub accept_or_exit : Rc → Ended ℕ
  accept_or_exit rc = or_unix_error (bytes "Accept error") rc

  -- Those that return nothing; `execve` returns only where it fails.
  abbrev pub execve_or_exit : Rc → Ended {0} Unit
  execve_or_exit rc = done_or_unix_error (bytes "Execve error") rc

  abbrev pub close_or_exit : Rc → Ended {0} Unit
  close_or_exit rc = done_or_unix_error (bytes "Close error") rc

  abbrev pub stat_or_exit : Rc → Ended {0} Unit
  stat_or_exit rc = done_or_unix_error (bytes "Stat error") rc

  abbrev pub fstat_or_exit : Rc → Ended {0} Unit
  fstat_or_exit rc = done_or_unix_error (bytes "Fstat error") rc

  abbrev pub munmap_or_exit : Rc → Ended {0} Unit
  munmap_or_exit rc = done_or_unix_error (bytes "munmap error") rc

  abbrev pub setsockopt_or_exit : Rc → Ended {0} Unit
  setsockopt_or_exit rc = done_or_unix_error (bytes "Setsockopt error") rc

  abbrev pub bind_or_exit : Rc → Ended {0} Unit
  bind_or_exit rc = done_or_unix_error (bytes "Bind error") rc

  abbrev pub listen_or_exit : Rc → Ended {0} Unit
  listen_or_exit rc = done_or_unix_error (bytes "Listen error") rc

  abbrev pub connect_or_exit : Rc → Ended {0} Unit
  connect_or_exit rc = done_or_unix_error (bytes "Connect error") rc

  -- Those of the Rio package
  unfoldable pub readnb_or_exit : Outcome → Ended (Bytes × Rio)
  unfolding unix_error
  readnb_or_exit (Outcome.bytes_read s r) = Ended.gives (s, r)
  readnb_or_exit (Outcome.eof r) = Ended.gives ([], r)
  readnb_or_exit (Outcome.error e r) = Ended.exits (unix_error (bytes "Rio_readnb error") e)
  readnb_or_exit Outcome.waits = Ended.never_ends
  readnb_or_exit Outcome.out_of_fuel = Ended.never_ends

  -- `Rio_writen`, with the bytes that are sent; errno is that of the last call.
  unfoldable pub writen_or_exit : (errno : ℕ) → Written → Ended Bytes
  unfolding unix_error
  writen_or_exit errno (Written.all_written sent) = Ended.gives sent
  writen_or_exit errno (Written.write_error sent) =
      Ended.exits (unix_error (bytes "Rio_writen error") errno)
  writen_or_exit errno (Written.write_waits sent) = Ended.never_ends

unfoldable pub or_dns_error : (msg : Bytes) → Rc → Ended ℕ
unfolding dns_error
or_dns_error msg (Rc.returns p) = Ended.gives p
or_dns_error msg (Rc.fails h) = Ended.exits (dns_error msg h)

abbrev pub gethostbyname_or_exit : Rc → Ended ℕ
gethostbyname_or_exit p = or_dns_error (bytes "Gethostbyname error") p

abbrev pub gethostbyaddr_or_exit : Rc → Ended ℕ
gethostbyaddr_or_exit p = or_dns_error (bytes "Gethostbyaddr error") p
