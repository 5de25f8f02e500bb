-- ===== src/Server/Startup.antt =====
-- Threads and synchronization/server.c: `main` up to its loop, with its arguments as texts. The
-- calls of malloc and pthread_create succeed.
use ftf_interview.Base.{
  ℕ, zero, suc, ◌+◌, ◌-◌, ◌%◌, ◌^◌, min, Bool, true, false, List, [], ◌∷◌, ◌++◌, ◌==◌, ltb, length,
  if◌then◌else◌, Bytes, bytes, equal, skip_spaces, digits_from,
}
use ftf_interview.Request.{StatThread}
use ftf_interview.Wrappers.{Ended}
use ftf_interview.Wrappers.Sockets.{ListenAnswers, open_listenfd_or_exit}
use ftf_interview.Server.{Policy, Server, start, block, dt, dh, random, unknown}

-- `strtol` of what stands behind the spaces and the sign, converted to `int`
unfoldable pub int_of : (is_negative : Bool) → (digits : Bytes) → ℕ
unfolding digits_from
int_of true s = (2 ^ 64 - min (digits_from 0 s) (2 ^ 63)) % 2 ^ 32
int_of false s = min (digits_from 0 s) (2 ^ 63 - 1) % 2 ^ 32

unfoldable pub signed : Bytes → ℕ
unfolding int_of
signed [] = int_of false []
signed (c ∷ s) =
    if c == b'-' then int_of true s else if c == b'+' then int_of false s else int_of false (c ∷ s)

-- `atoi`; a negative number as its word of 32 bits
unfoldable pub atoi : Bytes → ℕ
unfolding signed skip_spaces
atoi s = signed (skip_spaces s)

-- How often a loop runs that counts an `int` from 0 up to a bound.
abbrev pub count_of : ℕ → ℕ
count_of n = if ltb n (2 ^ 31) then n else 0

abbrev pub new_thread : ℕ → StatThread
new_thread i = record { thread_id = i; dynam_count = 0; static_count = 0; tot_req_count = 0 }

-- The loop of `Create_thread_pool`, with `k` rounds to go.
unfoldable pub pool_from : (i k : ℕ) → List StatThread
pool_from i zero = []
pool_from i (suc k) = new_thread i ∷ pool_from (i + 1) k

unfoldable pub create_thread_pool : (pool_size : ℕ) → List StatThread
unfolding pool_from
create_thread_pool pool_size = pool_from 0 (count_of pool_size)

unfoldable pub policy_of : Bytes → Policy
unfolding equal
policy_of s =
    if equal s (bytes "block")
    then block
    else if equal s (bytes "dt")
    then dt
    else if equal s (bytes "dh")
    then dh
    else if equal s (bytes "random")
    then random
    else unknown

-- What `main` comes to: the end of the program with its status, a null argument that is followed,
-- or its loop. Without a fifth argument the loop follows a null pointer at its first overload.
pub data Startup : Type 0 where
  ends : (status : ℕ) → (stderr : Bytes) → Startup
  null_argument waits_for_ever : Startup
  unnamed_policy : (listenfd : ℕ) → Startup
  serves : (listenfd : ℕ) → List StatThread → Server → Startup

abbrev pub usage : (name : Bytes) → Startup
usage name = Startup.ends 1 (bytes "Usage: " ++ (name ++ bytes " <port>\n"))

abbrev pub then_listen : Ended ℕ → (ℕ → Startup) → Startup
then_listen (Ended.gives fd) next = next fd
then_listen (Ended.exits stderr) next = Startup.ends 0 stderr
then_listen Ended.never_ends next = Startup.waits_for_ever

module _ (strerror : ℕ → Bytes) (answers : ListenAnswers) where
  unfoldable pub server_main : (argv : List Bytes) → Startup
  unfolding atoi open_listenfd_or_exit create_thread_pool policy_of start
  server_main [] = usage (bytes "(null)")
  server_main (name ∷ []) = usage name
  server_main (name ∷ port ∷ []) = Startup.null_argument
  server_main (name ∷ port ∷ pool_size ∷ []) = Startup.null_argument
  server_main (name ∷ port ∷ pool_size ∷ q_max_size ∷ []) =
      then_listen (open_listenfd_or_exit strerror answers (atoi port)) Startup.unnamed_policy
  server_main (name ∷ port ∷ pool_size ∷ q_max_size ∷ policy ∷ _) =
      then_listen (open_listenfd_or_exit strerror answers (atoi port)) (λ fd.
        let pool = create_thread_pool (atoi pool_size) in
        Startup.serves fd pool (start (policy_of policy) (atoi q_max_size) (length pool)))
