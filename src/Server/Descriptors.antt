-- ===== src/Server/Descriptors.antt =====
-- Where the accepted descriptors go.
use ftf_interview.Base.{
  ℕ, ◌+◌, ◌≡◌, ◌≢◌, refl, ap, sym, ◌∙◌, List, [], ◌∷◌, some, arith, total, total-set, total-map,
  total-append, total-replicate, count, count-append, get_elem?, set, ◌==◌, if◌then◌else◌,
}
use ftf_interview.Server.{
  Policy, block, dt, dh, random, unknown, Conn, Worker, ready, asleep, handling, Master, accepting,
  overloaded, waiting, rechecking, unguarded, crashed, Server, wake, wake_master, broadcast, start,
  take, take_from, finish, append, refuse, accept, block_until_room, drop_oldest, overload_by,
  handle_overload,
}
use ftf_interview.Server.Steps.{
  Step, accepts, overloads, rechecks, appends, takes, finishes, wakes, wakes_master, Reach, begin,
  next, Reach-settings,
}

abbrev pub is_fd : ℕ → Conn → ℕ
is_fd d c = if c.fd == d then 1 else 0

abbrev pub holds : ℕ → Worker → ℕ
holds d ready = 0
holds d asleep = 0
holds d (handling c) = is_fd d c

abbrev pub in_hand : ℕ → Master → ℕ
in_hand d accepting = 0
in_hand d (overloaded c) = is_fd d c
in_hand d (waiting c) = is_fd d c
in_hand d (rechecking c) = is_fd d c
in_hand d (unguarded c) = is_fd d c
in_hand d (crashed c) = is_fd d c

-- How often a descriptor is closed, queued or held by a worker.
abbrev pub settled : ℕ → Server → ℕ
settled d s = count d s.closed + total (is_fd d) s.queue + total (holds d) s.workers

-- The same, with the connection that `main` has in hand.
abbrev pub traced : ℕ → Server → ℕ
traced d s = settled d s + in_hand d s.master

holds-wake : (d : ℕ) (w : Worker) → holds d (wake w) ≡ holds d w
unfolding wake
holds-wake d ready = refl
holds-wake d asleep = refl
holds-wake d (handling c) = refl

in_hand-wake : (d : ℕ) (m : Master) → in_hand d (wake_master m) ≡ in_hand d m
unfolding wake_master
in_hand-wake d accepting = refl
in_hand-wake d (overloaded c) = refl
in_hand-wake d (waiting c) = refl
in_hand-wake d (rechecking c) = refl
in_hand-wake d (unguarded c) = refl
in_hand-wake d (crashed c) = refl

module _ (d : ℕ) where
  broadcast-traced : (s : Server) → traced d (broadcast s) ≡ traced d s
  unfolding broadcast
  broadcast-traced s =
      omega (arith, total-map (holds d) wake (holds-wake d) s.workers, in_hand-wake d s.master)

  append-traced : (c : Conn) (s : Server) → traced d (append c s) ≡ settled d s + is_fd d c
  unfolding append wake_master total
  append-traced c s = ground (
    arith,
    total-append (is_fd d) s.queue (c ∷ []),
    total-map (holds d) wake (holds-wake d) s.workers,
  )

  refuse-traced : (c : Conn) (s : Server) → traced d (refuse c s) ≡ settled d s + is_fd d c
  unfolding refuse
  refuse-traced c s = ground (arith, count-append d s.closed (c.fd ∷ []))

  accept-traced : (c : Conn) (s : Server) → traced d (accept c s) ≡ settled d s + is_fd d c
  unfolding accept
  accept-traced c s = ground (arith, refuse-traced c s, append-traced c s)

  take_from-traced :
      (i : ℕ) (s : Server) (q : List Conn)
      → q ≡ s.queue
      → get_elem? s.workers i ≡ some ready
      → traced d (take_from s i q) ≡ traced d s
  unfolding take_from total
  take_from-traced i s [] e at = omega (arith, total-set (holds d) s.workers i ready asleep at)
  take_from-traced i s (c ∷ rest) e at =
      omega (arith, total-set (holds d) s.workers i ready (handling c) at, ap (total (is_fd d)) e)

  finish-traced :
      (i : ℕ) (c : Conn) (s : Server)
      → get_elem? s.workers i ≡ some (handling c)
      → traced d (finish i c s) ≡ traced d s
  unfolding finish
  finish-traced i c s at = ground (
    arith,
    count-append d s.closed (c.fd ∷ []),
    total-set (holds d) s.workers i (handling c) ready,
    total-map (holds d) wake (holds-wake d) (set s.workers i ready),
    in_hand-wake d s.master,
  )

  drop_oldest-traced :
      (c : Conn) (s : Server) (q : List Conn)
      → q ≡ s.queue
      → traced d (drop_oldest c s q) ≡ settled d s + is_fd d c
  unfolding drop_oldest total
  drop_oldest-traced c s [] e = refl
  drop_oldest-traced c s (b ∷ rest) e =
      ground (arith, count-append d s.closed (b.fd ∷ []), ap (total (is_fd d)) e)

  block_until_room-traced :
      (c : Conn) (s : Server) → traced d (block_until_room c s) ≡ settled d s + is_fd d c
  unfolding block_until_room
  block_until_room-traced c s = ground arith

  overload_by-traced :
      (p : Policy) (rand : ℕ → ℕ) (c : Conn) (s : Server)
      → p ≢ random
      → traced d (overload_by p rand c s) ≡ settled d s + is_fd d c
  unfolding overload_by
  overload_by-traced block rand c s ne = block_until_room-traced c s
  overload_by-traced dt rand c s ne = refl
  overload_by-traced dh rand c s ne = drop_oldest-traced c s s.queue refl
  overload_by-traced random rand c s ne = absurd (ne refl)
  overload_by-traced unknown rand c s ne = refl

  -- What `main` has in hand when it stands somewhere.
  hand : (m : Master) (s : Server) → s.master ≡ m → traced d s ≡ settled d s + in_hand d m
  hand m s e = ap (λ n. settled d s + in_hand d n) e

  Step-traced :
      {s t : Server} {new : List ℕ}
      → Step s new t
      → s.policy ≢ random
      → traced d t ≡ traced d s + count d new
  unfolding take handle_overload
  Step-traced (accepts {s} c at) ne = ground (arith, accept-traced c s, hand accepting s at)
  Step-traced (overloads {s} rand c at) ne =
      omega (arith, overload_by-traced s.policy rand c s ne, hand (overloaded c) s at)
  Step-traced (rechecks {s} c at) ne =
      omega (arith, block_until_room-traced c s, hand (rechecking c) s at)
  Step-traced (appends {s} c at) ne = omega (arith, append-traced c s, hand (unguarded c) s at)
  Step-traced (takes {s} i at) ne = omega (arith, take_from-traced i s s.queue refl at)
  Step-traced (finishes {s} i c at) ne = omega (arith, finish-traced i c s at)
  Step-traced (wakes {s} i at) ne = omega (arith, total-set (holds d) s.workers i asleep ready at)
  Step-traced (wakes_master {s} c at) ne = omega (arith, hand (waiting c) s at)

-- In every reachable state under every policy but random, each descriptor is closed, queued, held
-- by a worker in requestHandle or in the hand of main, in all as often as Accept returned it.
pub Reach-traced :
    {p : Policy} {q n : ℕ} {fds : List ℕ} {s : Server} (d : ℕ)
    → Reach p q n fds s
    → p ≢ random
    → traced d s ≡ count d fds
unfolding start total
Reach-traced {n} d begin ne = omega (arith, total-replicate (holds d) n ready refl)
Reach-traced d (next {fds} {new} r st) ne = omega (
  arith,
  Step-traced d st (λ e. ne (sym (Reach-settings r).0 ∙ e)),
  Reach-traced d r ne,
  count-append d fds new,
)
