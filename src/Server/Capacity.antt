-- ===== src/Server/Capacity.antt =====
-- The bound on accepted connections that QmaxSize sets.
use ftf_interview.Base.{
  ℕ, ◌+◌, ◌-◌, ◌≤◌, ◌<◌, ◌≡◌, ◌≢◌, refl, ap, sym, ◌∙◌, List, [], ◌∷◌, arith, length, total, subst,
  ◌==◌, if_ind, ◌||◌, false,
}
use ftf_interview.Server.{
  Policy, block, dt, dh, random, unknown, Conn, Master, accepting, overloaded, waiting, rechecking,
  unguarded, crashed, Server, wake_master, start, load_of, take, take_from, finish, append, accept,
  block_until_room, drop_oldest, overload_by, handle_overload,
}
use ftf_interview.Server.Steps.{
  Step, accepts, overloads, rechecks, appends, takes, finishes, wakes, wakes_master, Reach, begin,
  next, Reach-settings,
}
use ftf_interview.Server.Counters.{is_handling, IsCounted, handling-pos, Reach-IsCounted}

-- How many connections there may be, by where `main` stands: room for one more behind
-- `handle_overload`, none at all in its wait.
abbrev pub Fits : Master → ℕ → ℕ → Type 0
Fits accepting n q = n ≤ q
Fits (overloaded c) n q = n ≤ q
Fits (waiting c) n q = n ≡ q
Fits (rechecking c) n q = n ≤ q
Fits (unguarded c) n q = n < q
Fits (crashed c) n q = n ≤ q

-- Under "dt" `main` never comes to `handle_overload`.
abbrev pub Direct : Policy → Master → Type 0
Direct dt (overloaded c) = ⊥
Direct dt m = Unit
Direct block m = Unit
Direct dh m = Unit
Direct random m = Unit
Direct unknown m = Unit

pub record IsBounded (s : Server) : Type 0 where
  pub fits : Fits s.master (load_of s) s.q_max_size
  pub direct : Direct s.policy s.master

Fits-le : (m : Master) (n q : ℕ) → Fits m n q → n ≤ q
Fits-le accepting n q f = f
Fits-le (overloaded c) n q f = f
Fits-le (waiting c) n q f = omega arith
Fits-le (rechecking c) n q f = f
Fits-le (unguarded c) n q f = omega arith
Fits-le (crashed c) n q f = f

wake_master-Fits : (m : Master) (n q : ℕ) → Fits m n q → Fits (wake_master m) n q
unfolding wake_master
wake_master-Fits (waiting c) n q f = omega arith
wake_master-Fits accepting n q f = f
wake_master-Fits (overloaded c) n q f = f
wake_master-Fits (rechecking c) n q f = f
wake_master-Fits (unguarded c) n q f = f
wake_master-Fits (crashed c) n q f = f

-- Only a new overload can break the second part.
Direct-of : (p : Policy) (m : Master) → ((c : Conn) → m ≢ overloaded c) → Direct p m
Direct-of dt (overloaded c) ne = absurd (ne c refl)
Direct-of dt accepting ne = tt
Direct-of dt (waiting c) ne = tt
Direct-of dt (rechecking c) ne = tt
Direct-of dt (unguarded c) ne = tt
Direct-of dt (crashed c) ne = tt
Direct-of block m ne = tt
Direct-of dh m ne = tt
Direct-of random m ne = tt
Direct-of unknown m ne = tt

wake_master-Direct : (p : Policy) (m : Master) → Direct p m → Direct p (wake_master m)
unfolding wake_master
wake_master-Direct p (waiting c) d = Direct-of p (rechecking c) (λ e. cc)
wake_master-Direct p accepting d = d
wake_master-Direct p (overloaded c) d = d
wake_master-Direct p (rechecking c) d = d
wake_master-Direct p (unguarded c) d = d
wake_master-Direct p (crashed c) d = d

append-IsBounded : (c : Conn) (s : Server) → load_of s < s.q_max_size → IsBounded (append c s)
unfolding append wake_master
append-IsBounded c s room = let d = Direct-of s.policy accepting (λ e. cc) in ground (arith, d)

accept-IsBounded :
    (p : Policy) (c : Conn) (s : Server)
    → s.policy ≡ p
    → load_of s ≤ s.q_max_size
    → IsBounded (accept c s)
unfolding accept
accept-IsBounded dt c s e le = ground (arith, append-IsBounded c s)
accept-IsBounded block c s e le = ground (arith, append-IsBounded c s)
accept-IsBounded dh c s e le = ground (arith, append-IsBounded c s)
accept-IsBounded random c s e le = ground (arith, append-IsBounded c s)
accept-IsBounded unknown c s e le = ground (arith, append-IsBounded c s)

take_from-IsBounded :
    (i : ℕ) (s : Server) (q : List Conn)
    → q ≡ s.queue
    → IsCounted s
    → IsBounded s
    → IsBounded (take_from s i q)
unfolding take_from
take_from-IsBounded i s [] e v b = record { fits = b.fits; direct = b.direct }
take_from-IsBounded i s (c ∷ rest) e v b =
    let same : (s.queue_size - 1) + (s.currently_handled + 1) ≡ load_of s =
      omega (arith, v.queued, ap length e) in
    record { fits = rw same b.fits; direct = b.direct }

-- One connection less: a `main` that waits is woken, for it waited at the bound.
fewer-wake-Fits : (m : Master) (n n' q : ℕ) → n' + 1 ≡ n → Fits m n q → Fits (wake_master m) n' q
unfolding wake_master
fewer-wake-Fits (waiting c) n n' q e f = omega arith
fewer-wake-Fits accepting n n' q e f = omega arith
fewer-wake-Fits (overloaded c) n n' q e f = omega arith
fewer-wake-Fits (rechecking c) n n' q e f = omega arith
fewer-wake-Fits (unguarded c) n n' q e f = omega arith
fewer-wake-Fits (crashed c) n n' q e f = omega arith

fewer-Fits :
    (m : Master) (n n' q : ℕ)
    → n' + 1 ≡ n
    → (n' == q || n' + 1 == q) ≡ false
    → Fits m n q
    → Fits m n' q
fewer-Fits (waiting c) n n' q e miss f = absurd (ground arith)
fewer-Fits accepting n n' q e miss f = omega arith
fewer-Fits (overloaded c) n n' q e miss f = omega arith
fewer-Fits (rechecking c) n n' q e miss f = omega arith
fewer-Fits (unguarded c) n n' q e miss f = omega arith
fewer-Fits (crashed c) n n' q e miss f = omega arith

finish-IsBounded :
    (i : ℕ) (c : Conn) (s : Server)
    → 1 ≤ s.currently_handled
    → IsBounded s
    → IsBounded (finish i c s)
unfolding finish
finish-IsBounded i c s pos b =
    let n' = s.queue_size + (s.currently_handled - 1) in
    if_ind IsBounded (n' == s.q_max_size || n' + 1 == s.q_max_size) _ _
      (λ hit. record {
        fits = fewer-wake-Fits s.master (load_of s) n' s.q_max_size (omega arith) b.fits;
        direct = wake_master-Direct s.policy s.master b.direct;
      })
      (λ miss. record {
        fits = fewer-Fits s.master (load_of s) n' s.q_max_size (omega arith) miss b.fits;
        direct = b.direct;
      })

drop_oldest-IsBounded :
    (c : Conn) (s : Server) (q : List Conn)
    → q ≡ s.queue
    → IsCounted s
    → load_of s ≤ s.q_max_size
    → IsBounded (drop_oldest c s q)
unfolding drop_oldest
drop_oldest-IsBounded c s [] e v le = record {
  fits = le;
  direct = Direct-of s.policy (crashed c) (λ e. cc);
}
drop_oldest-IsBounded c s (d ∷ rest) e v le = record {
  fits = omega (arith, v.queued, ap length e);
  direct = Direct-of s.policy (unguarded c) (λ e. cc);
}

block_until_room-IsBounded :
    (c : Conn) (s : Server) → load_of s ≤ s.q_max_size → IsBounded (block_until_room c s)
unfolding block_until_room
block_until_room-IsBounded c s le =
    if_ind IsBounded (load_of s == s.q_max_size) _ _
      (λ hit. record { fits = ground arith; direct = Direct-of s.policy (waiting c) (λ e. cc) })
      (λ miss. record { fits = ground arith; direct = Direct-of s.policy (unguarded c) (λ e. cc) })

overload_by-IsBounded :
    (p : Policy) (rand : ℕ → ℕ) (c : Conn) (s : Server)
    → p ≢ random
    → p ≢ unknown
    → Direct p (overloaded c)
    → IsCounted s
    → load_of s ≤ s.q_max_size
    → IsBounded (overload_by p rand c s)
unfolding overload_by
overload_by-IsBounded block rand c s ne nu d v le = block_until_room-IsBounded c s le
overload_by-IsBounded dt rand c s ne nu d v le = absurd d
overload_by-IsBounded dh rand c s ne nu d v le = drop_oldest-IsBounded c s s.queue refl v le
overload_by-IsBounded random rand c s ne nu d v le = absurd (ne refl)
overload_by-IsBounded unknown rand c s ne nu d v le = absurd (nu refl)

Step-IsBounded :
    {s t : Server} {new : List ℕ}
    → Step s new t
    → s.policy ≢ random
    → s.policy ≢ unknown
    → IsCounted s
    → IsBounded s
    → IsBounded t
unfolding take handle_overload
Step-IsBounded (accepts {s} c at) nr nu v b =
    accept-IsBounded s.policy c s refl (Fits-le s.master _ _ b.fits)
Step-IsBounded (overloads {s} rand c at) nr nu v b =
    overload_by-IsBounded s.policy rand c s nr nu (subst (Direct s.policy) at b.direct) v
      (Fits-le s.master _ _ b.fits)
Step-IsBounded (rechecks {s} c at) nr nu v b =
    block_until_room-IsBounded c s (Fits-le s.master _ _ b.fits)
Step-IsBounded (appends {s} c at) nr nu v b =
    append-IsBounded c s (subst (λ m. Fits m (load_of s) s.q_max_size) at b.fits)
Step-IsBounded (takes {s} i at) nr nu v b = take_from-IsBounded i s s.queue refl v b
Step-IsBounded (finishes {s} i c at) nr nu v b = finish-IsBounded i c s (handling-pos i c v at) b
Step-IsBounded (wakes i at) nr nu v b = record { fits = b.fits; direct = b.direct }
Step-IsBounded (wakes_master {s} c at) nr nu v b =
    let f : load_of s ≡ s.q_max_size = subst (λ m. Fits m (load_of s) s.q_max_size) at b.fits in
    record { fits = omega arith; direct = Direct-of s.policy (rechecking c) (λ e. cc) }

-- Under block, dt and dh the counters add up to at most QmaxSize in every reachable state, to less
-- where main goes on to enqueue, and to exactly QmaxSize where it waits; under dt main never comes
-- to handle_overload.
pub Reach-IsBounded :
    {p : Policy} {q n : ℕ} {fds : List ℕ} {s : Server}
    → Reach p q n fds s
    → p ≢ random
    → p ≢ unknown
    → IsBounded s
unfolding start
Reach-IsBounded {p} begin nr nu = record {
  fits = omega arith;
  direct = Direct-of p accepting (λ e. cc);
}
Reach-IsBounded (next r st) nr nu =
    let e = (Reach-settings r).0 in
    Step-IsBounded st (λ k. nr (sym e ∙ k)) (λ k. nu (sym e ∙ k)) (Reach-IsCounted r)
      (Reach-IsBounded r nr nu)

-- In every reachable state under the policies block, dt and dh, the connections queued and those
-- being handled, counted one by one, are together at most QmaxSize.
pub Reach-capacity :
    {p : Policy} {q n : ℕ} {fds : List ℕ} {s : Server}
    → Reach p q n fds s
    → p ≢ random
    → p ≢ unknown
    → length s.queue + total is_handling s.workers ≤ q
Reach-capacity {s} r nr nu =
    let v = Reach-IsCounted r in
    omega (
      arith,
      v.queued,
      v.handled,
      (Reach-settings r).1,
      Fits-le s.master (load_of s) s.q_max_size (Reach-IsBounded r nr nu).fits,
    )
