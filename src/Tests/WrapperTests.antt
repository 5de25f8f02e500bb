-- ===== src/Tests/WrapperTests.antt =====
-- helper.c and the start of server.c on concrete calls and arguments.
use ftf_interview.Base.{◌≡◌, refl, [], ◌∷◌, ◌^◌, ◌-◌, bytes}
use ftf_interview.Wrappers.{Rc}
use ftf_interview.Wrappers.Sockets.{
  Call, ListenAnswers, Socket, on_success, connect_to, open_listenfd, open_clientfd,
}
use ftf_interview.Server.Startup.{Startup, atoi, int_of, signed}

-- The port is in use.
abbrev in_use : ListenAnswers
in_use = record {
  socket = Rc.returns 3;
  setsockopt = Rc.returns 0;
  bind = Rc.fails 98;
  listen = Rc.returns 0;
}

-- The socket 3 has been opened, and is not closed.
in_use_calls :
    (open_listenfd in_use 8080).calls
    ≡ Call.socket ∷ Call.reuse_address 3 ∷ Call.bind_any 3 8080 ∷ []
unfolding open_listenfd on_success
in_use_calls = refl

unknown_host :
    (open_clientfd
      (record { socket = Rc.returns 3; gethostbyname = Rc.fails 1; connect = Rc.returns 0 })
      (bytes "nowhere")
      80).result
    ≡ Socket.dns_failure 1
unfolding open_clientfd on_success connect_to
unknown_host = refl

minus_one : atoi (bytes " -1") ≡ 2 ^ 32 - 1
unfolding atoi signed int_of
minus_one = refl

abbrev free_port : ListenAnswers
free_port = record {
  socket = Rc.returns 3;
  setsockopt = Rc.returns 0;
  bind = Rc.returns 0;
  listen = Rc.returns 0;
}
