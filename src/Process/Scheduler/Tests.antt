-- ===== src/Process/Scheduler/Tests.antt =====
-- Runs of scheduler.c, and the theorems at such runs.
use chaff.Prelude.{ℕ, ◌≡◌, refl, inr, true, false, [], ◌∷◌, ◌==◌, if◌then◌else◌, arith}
use chaff.Process.Scheduler.{
  Thread, ThreadState, running, intr, unintr, Sched, yield_thread, yield_block, wake_up_sig,
  do_schedule,
}
use chaff.Process.Scheduler.Invariant.{IsSound}
use chaff.Process.Scheduler.Steps.{yields, blocks, wakes, here, next, Reach-IsSound}
use chaff.Process.Scheduler.Order.{order, yields_reach}
use chaff.Process.Scheduler.Order as Order

abbrev thread : ThreadState → ℕ → Thread
thread state parent = record {
  state = state;
  interrupted = 0;
  parent = parent;
  kstack_base = 0x8000;
  tls_descriptor = 5;
  sig_pending = 0;
  sig_blocked = 0;
}

-- Thread 9 is the idle thread; 4 waits for a signal; the others are ready, 1 runs.
abbrev threads : ℕ → Thread
threads t =
    if t == 9
    then thread unintr 0
    else if t == 4
    then thread intr 70
    else if t == 1
    then thread running 70
    else thread running 80

abbrev three : Sched
three = record {
  threads = threads;
  process_pending = λ _. 0;
  queue = 2 ∷ 3 ∷ [];
  current = 1;
  current_process = 70;
  idle = 9;
  quantum = 4;
  esp0 = 0x9000;
  tls = 5;
  address_space = 70;
}

three-IsSound : IsSound three
three-IsSound = record {
  queued = record { ready = (refl, (refl, tt)); once = (refl, (refl, tt)); parked = λ e. cc };
  out = refl;
  current_ready = inr refl;
}

-- The next thread is of another process: its memory is mapped and the quantum is full again.
yield_three :
    ((yield_thread three).queue ≡ 3 ∷ 1 ∷ [])
    × ((yield_thread three).current ≡ 2)
    × ((yield_thread three).address_space ≡ 80)
    × ((yield_thread three).quantum ≡ 20)
    × ((yield_thread three).esp0 ≡ 0x9000)
unfolding yield_thread do_schedule
yield_three = (refl, refl, refl, refl, refl)

Reach-IsSound_example : IsSound (wake_up_sig 4 true (yield_block (yield_thread three) false).0)
unfolding yield_thread yield_block do_schedule
Reach-IsSound_example = Reach-IsSound {s = three} three-IsSound (
    next (next (next here (yields (λ e. absurd (omega (arith, e))))) (blocks false))
      (wakes 4 true (λ e. absurd (omega (arith, e)))))

yields_reach_example : order (Order.yields 2 three) ≡ 3 ∷ 1 ∷ 2 ∷ []
yields_reach_example = yields_reach three (2 ∷ []) [] 3 refl
