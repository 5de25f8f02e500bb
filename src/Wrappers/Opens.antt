-- ===== src/Wrappers/Opens.antt =====
-- `open_listenfd` where its calls succeed.
use ftf_interview.Base.{ℕ, ◌≡◌, refl, Bytes}
use ftf_interview.Wrappers.{Rc, Ended}
use ftf_interview.Wrappers.Sockets.{ListenAnswers, on_success, open_listenfd, open_listenfd_or_exit}

abbrev pub Succeeds : Rc → Type 0
Succeeds rc = (x : ℕ) × (rc ≡ Rc.returns x)

-- All calls succeed, and the socket is d.
abbrev pub Listens : ListenAnswers → (d : ℕ) → Type 0
Listens a d =
    (a.socket ≡ Rc.returns d) × (Succeeds a.setsockopt × (Succeeds a.bind × Succeeds a.listen))

listens_cases :
    (strerror : ℕ → Bytes) (d port : ℕ) (s o b l : Rc)
    → s ≡ Rc.returns d
    → Succeeds o
    → Succeeds b
    → Succeeds l
    → open_listenfd_or_exit strerror
        (record { socket = s; setsockopt = o; bind = b; listen = l })
        port
      ≡ Ended.gives d
unfolding open_listenfd_or_exit open_listenfd on_success
listens_cases strerror d port s o b l p q r t = rw (p, q.1, r.1, t.1) refl

pub Listens-gives :
    (strerror : ℕ → Bytes) (a : ListenAnswers) (d port : ℕ)
    → Listens a d
    → open_listenfd_or_exit strerror a port ≡ Ended.gives d
Listens-gives strerror a d port h =
    listens_cases strerror d port a.socket a.setsockopt a.bind a.listen h.0 h.1.0 h.1.1.0 h.1.1.1
