-- ===== src/Tests/ServerTests.antt =====
-- Runs of the server with one worker and room for one connection.
use ftf_interview.Base.{ℕ, ◌+◌, ◌≤◌, ◌<◌, ◌≡◌, ◌≢◌, refl, [], ◌∷◌, arith, length, total}
use ftf_interview.Server.{
  block, dh, random, Conn, asleep, overloaded, rechecking, unguarded, crashed, Server, load_of,
  start, accept, take, finish, append, wake, wake_master, block_until_room, handle_overload,
}
use ftf_interview.Server.Steps.{accepts, overloads, takes, Reach, begin, next}
use ftf_interview.Server.Counters.{is_handling}
use ftf_interview.Server.Capacity.{IsBounded, Reach-IsBounded, Reach-capacity}
use ftf_interview.Server.Descriptors.{traced, Reach-traced}
use ftf_interview.Server.Wakeups.{is_awake, Reach-awake, Reach-main-wakes}
use ftf_interview.Server.Faults.{dh_crash, random_miscounts}

abbrev conn : ℕ → Conn
conn n = record { fd = n; arrival = record { tv_sec = n; tv_usec = 0 } }

-- One connection is queued.
abbrev queued : Server
queued = accept (conn 5) (start block 1 1)

-- The worker handles it, a second one has come, and `main` waits for room.
abbrev full : Server
full = handle_overload (λ i. 0) (conn 6) (accept (conn 6) (take 0 queued))

queued-Reach : Reach block 1 1 (5 ∷ []) queued
unfolding start
queued-Reach = next begin (accepts (conn 5) refl)

full-Reach : Reach block 1 1 (5 ∷ 6 ∷ []) full
unfolding start accept take append handle_overload wake wake_master
full-Reach =
    next (next (next queued-Reach (takes 0 refl)) (accepts (conn 6) refl))
      (overloads (λ i. 0) (conn 6) refl)

Reach-IsBounded_example : IsBounded full
Reach-IsBounded_example = Reach-IsBounded full-Reach (λ e. cc) (λ e. cc)

Reach-capacity_example : length full.queue + total is_handling full.workers ≤ 1
Reach-capacity_example = Reach-capacity full-Reach (λ e. cc) (λ e. cc)

Reach-traced_example : traced 6 full ≡ 1
Reach-traced_example = Reach-traced 6 full-Reach (λ e. cc)

queued_some : queued.queue ≢ []
unfolding accept start append wake wake_master
queued_some e = ground arith

Reach-awake_example : 1 ≤ total is_awake queued.workers
Reach-awake_example = Reach-awake queued-Reach (λ e. cc) queued_some

Reach-main-wakes_example :
    (load_of full ≡ 1)
    × ((finish 0 (conn 5) full).master ≡ rechecking (conn 6))
    × ((block_until_room (conn 6) (finish 0 (conn 5) full)).master ≡ unguarded (conn 6))
unfolding accept start append take handle_overload wake wake_master
Reach-main-wakes_example = Reach-main-wakes (conn 6) 0 (conn 5) full-Reach refl refl

dh_crash_example : (s : Server) × Reach dh 1 1 (5 ∷ 6 ∷ []) s × (s.master ≡ crashed (conn 6))
dh_crash_example = dh_crash 0 (conn 5) (conn 6)

-- One connection is queued and the bound is 1.
abbrev at_bound : Server
at_bound = record {
  policy = random;
  q_max_size = 1;
  queue = conn 5 ∷ [];
  queue_size = 1;
  currently_handled = 0;
  workers = asleep ∷ [];
  master = overloaded (conn 6);
  closed = [];
}

random_miscounts_example :
    let t = handle_overload (λ i. 0) (conn 6) at_bound in
    (length t.queue < t.queue_size) × (load_of t + 0 ≡ 2)
random_miscounts_example =
    random_miscounts (λ i. 0) (conn 6) at_bound (record { queued = refl }) refl refl (omega arith)
