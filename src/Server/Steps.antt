-- ===== src/Server/Steps.antt =====
-- The interleavings of server.c: which thread may step where, and what is accepted on the way.
use ftf_interview.Base.{refl, arith, ℕ, ◌≡◌, some, List, [], ◌∷◌, ◌++◌, get_elem?, set}
use ftf_interview.Server.{
  Policy, block, dt, dh, random, unknown, take_from, drop_oldest, drop_random, overload_by, Conn,
  ready, asleep, handling, accepting, overloaded, waiting, rechecking, unguarded, Server, start,
  take, finish, append, accept, block_until_room, handle_overload,
}

-- One step, with the descriptors that `Accept` returned in it. A wait may also end by itself.
pub data Step : Server → List ℕ → Server → Type 0 where
  accepts : {s : Server} (c : Conn) → s.master ≡ accepting → Step s (c.fd ∷ []) (accept c s)
  overloads :
      {s : Server} (rand : ℕ → ℕ) (c : Conn)
      → s.master ≡ overloaded c
      → Step s [] (handle_overload rand c s)
  rechecks : {s : Server} (c : Conn) → s.master ≡ rechecking c → Step s [] (block_until_room c s)
  appends : {s : Server} (c : Conn) → s.master ≡ unguarded c → Step s [] (append c s)
  takes : {s : Server} (i : ℕ) → get_elem? s.workers i ≡ some ready → Step s [] (take i s)
  finishes :
      {s : Server} (i : ℕ) (c : Conn)
      → get_elem? s.workers i ≡ some (handling c)
      → Step s [] (finish i c s)
  wakes :
      {s : Server} (i : ℕ)
      → get_elem? s.workers i ≡ some asleep
      → Step s [] (record s { workers = set s.workers i ready })
  wakes_master :
      {s : Server} (c : Conn)
      → s.master ≡ waiting c
      → Step s [] (record s { master = rechecking c })

-- What can be reached from the start of the program, and what was accepted on the way.
pub data Reach (policy : Policy) (q_max_size pool_size : ℕ) : List ℕ → Server → Type 0 where
  begin : Reach policy q_max_size pool_size [] (start policy q_max_size pool_size)
  next :
      {s t : Server} {fds new : List ℕ}
      → Reach policy q_max_size pool_size fds s
      → Step s new t
      → Reach policy q_max_size pool_size (fds ++ new) t

-- The settings stay as they are.
abbrev SameSettings : Server → Server → Type 0
SameSettings s t = (t.policy ≡ s.policy) × (t.q_max_size ≡ s.q_max_size)

take_from-SameSettings : (s : Server) (i : ℕ) (q : List Conn) → SameSettings s (take_from s i q)
unfolding take_from
take_from-SameSettings s i [] = (refl, refl)
take_from-SameSettings s i (c ∷ rest) = (refl, refl)

drop_oldest-SameSettings :
    (c : Conn) (s : Server) (q : List Conn) → SameSettings s (drop_oldest c s q)
unfolding drop_oldest
drop_oldest-SameSettings c s [] = (refl, refl)
drop_oldest-SameSettings c s (d ∷ rest) = (refl, refl)

overload_by-SameSettings :
    (p : Policy) (rand : ℕ → ℕ) (c : Conn) (s : Server) → SameSettings s (overload_by p rand c s)
unfolding overload_by block_until_room drop_random
overload_by-SameSettings block rand c s = ground arith
overload_by-SameSettings dt rand c s = (refl, refl)
overload_by-SameSettings dh rand c s = drop_oldest-SameSettings c s s.queue
overload_by-SameSettings random rand c s = ground arith
overload_by-SameSettings unknown rand c s = (refl, refl)

pub Step-SameSettings : {s t : Server} {new : List ℕ} → Step s new t → SameSettings s t
unfolding accept append finish take handle_overload block_until_room
Step-SameSettings (accepts c at) = ground arith
Step-SameSettings (overloads {s} rand c at) = overload_by-SameSettings s.policy rand c s
Step-SameSettings (rechecks c at) = ground arith
Step-SameSettings (appends c at) = ground arith
Step-SameSettings (takes {s} i at) = take_from-SameSettings s i s.queue
Step-SameSettings (finishes i c at) = ground arith
Step-SameSettings (wakes i at) = (refl, refl)
Step-SameSettings (wakes_master c at) = (refl, refl)

pub Reach-settings :
    {p : Policy} {q n : ℕ} {fds : List ℕ} {s : Server}
    → Reach p q n fds s
    → (s.policy ≡ p) × (s.q_max_size ≡ q)
unfolding start
Reach-settings begin = (refl, refl)
Reach-settings (next r st) = ground (arith, Step-SameSettings st, Reach-settings r)
