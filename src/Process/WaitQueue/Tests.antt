-- ===== src/Process/WaitQueue/Tests.antt =====
-- Runs of waitqueue.c, and the theorems at such runs.
use chaff.Prelude.{ℕ, ◌≡◌, refl, true, [], ◌∷◌, ◌==◌, if◌then◌else◌}
use chaff.Process.Scheduler.{Thread, ThreadState, running, intr, unintr, yield_block, do_schedule}
use chaff.Process.WaitQueue.{Waits, wait_start, wait_end, unwait}

abbrev thread : ThreadState → Thread
thread state = record {
  state = state;
  interrupted = 0;
  parent = 70;
  kstack_base = 0x8000;
  tls_descriptor = 5;
  sig_pending = 0;
  sig_blocked = 0;
}

abbrev threads : ℕ → Thread
threads t = if t == 4 then thread intr else if t == 5 then thread unintr else thread running

-- Threads 4 and 5 wait while 1 runs.
abbrev two_waiters : Waits
two_waiters = record {
  sched = record {
    threads = threads;
    process_pending = λ _. 0;
    queue = 2 ∷ [];
    current = 1;
    current_process = 70;
    idle = 9;
    quantum = 4;
    esp0 = 0x9000;
    tls = 5;
    address_space = 70;
  };
  waiters = 4 ∷ 5 ∷ [];
}

-- Thread 1 waits too; nobody wakes it, and when it goes on it is no longer on the queue.
wait_one :
    ((wait_start two_waiters true).0.waiters ≡ 4 ∷ 5 ∷ 1 ∷ [])
    × ((wait_start two_waiters true).0.sched.current ≡ 2)
    × ((wait_end (wait_start two_waiters true).0 1).0.waiters ≡ 4 ∷ 5 ∷ [])
unfolding wait_start wait_end yield_block do_schedule unwait
wait_one = (refl, refl, refl)
