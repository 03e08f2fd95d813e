-- ===== src/Process/Life/Wait/Branches.antt =====
-- What a parent gets from `ProcWaitProcess`, in the case that a child has ended and in the case that none has.
use chaff.Prelude.{
  ℕ, zero, ◌≡◌, ◌≢◌, refl, ap, ◌∙◌, inl, inr, ◌⊎◌, Bool, true, false, none, some, List, [], ◌∷◌,
  ◌++◌, All, ◌==◌, if◌then◌else◌, Bool-cases, update, arith,
}
use chaff.Prelude.Int.{pos, negsuc}
use chaff.Process.Scheduler.{intr, Sched, set_thread, do_schedule, yield_block, signal_is_pending}
use chaff.Process.Scheduler.Invariant.{threads-do_schedule}
use chaff.Process.Life.{not_waiting, wait_process, World, sched, set_sched, set_details}
use chaff.Process.Life.Reap.Effect.{
  IsReapable, reap_process-IsReapable, test_differ, delete_item-append,
}
use chaff.Process.Life.Exit.Woken.{IsWaiting}
use chaff.Process.Life.Wait.{
  has_nohang, any, returns, waits, is_empty, find_first, is_zombie_process, choose_process,
  finish_process, no_one, process_turn, start_wait, wait_for_process, eintr,
}

-- No zombie process in a list.
abbrev pub AreAlive : World → List ℕ → Type 0
AreAlive w cs = All (λ c. (w.processes c).zombie ≡ false) cs

find_first-AreAlive :
    (cs : List ℕ) (w : World) → AreAlive w cs → find_first (is_zombie_process w) cs ≡ none
unfolding find_first
find_first-AreAlive [] w h = refl
find_first-AreAlive (c ∷ cs) w (h, hs) = rw (h, find_first) (find_first-AreAlive cs w hs)

find_first-append :
    (before after : List ℕ) (c : ℕ) (w : World)
    → AreAlive w before
    → (w.processes c).zombie ≡ true
    → find_first (is_zombie_process w) (before ++ c ∷ after) ≡ some c
unfolding find_first
find_first-append [] after c w h z = rw (z, find_first) refl
find_first-append (b ∷ bs) after c w (h, hs) z =
    rw (h, find_first) (find_first-append bs after c w hs z)

is_empty-append : (before after : List ℕ) (c : ℕ) → is_empty (before ++ c ∷ after) ≡ false
is_empty-append [] after c = refl
is_empty-append (b ∷ bs) after c = refl

-- The thread that waits is of a process other than the kernel's.
abbrev IsUser : World → Type 0
IsUser w = (sched w).current_process ≢ 0

choose_process-any :
    (w : World)
    → IsUser w
    → is_empty (w.processes (sched w).current_process).children ≡ false
    → choose_process (negsuc zero) w ≡ any
unfolding choose_process
choose_process-any w u e = rw (user u, choose_process) (rw e refl)
  where
    user : IsUser w → ((sched w).current_process == 0) ≡ false
    user u = ground (arith, u)

-- `ProcWaitProcess(-1)` in a process with children of which `c` is the first zombie, and where the threads of
-- `c` can be reaped, returns the id and the exit code of `c` at once. Its id is of no process
-- any more, the other children are as before, and no thread's or signal's state changes.
pub wait_for_process-reaps :
    (options c : ℕ) (before after : List ℕ) (w : World)
    → IsUser w
    → (w.processes (sched w).current_process).zombie ≡ false
    → (w.processes (sched w).current_process).children ≡ before ++ c ∷ after
    → AreAlive w before
    → c ≢ 0
    → (w.processes c).zombie ≡ true
    → All (IsReapable w) (w.processes c).threads
    → (v : World) × (wait_for_process (negsuc zero) options w
        ≡ returns (pos (w.processes c).pid) (some (w.signals.exit_code c)) v)
      × (v.process_table ≡ update w.process_table (w.processes c).pid none)
      × ((v.processes (sched w).current_process).children ≡ before ++ after)
      × (v.signals ≡ w.signals)
unfolding wait_for_process process_turn finish_process start_wait
wait_for_process-reaps options c before after w u live e alive n z h =
    let p = (sched w).current_process in
    let (v, r, signals, table, children) = reap_process-IsReapable c w n z h in
    (
      v,
      rw
          (
            choose_process-any w u (ap (λ cs. is_empty cs) e ∙ is_empty-append before after c),
            wait_for_process,
          )
          (rw (e, process_turn)
            (rw (find_first-append before after c w alive z) (rw (r, finish_process) refl))),
      table,
      children p
          ∙ rw (user u, differ c z)
              (rw e (delete_item-append before after c (is_zombie_process w) alive z)),
      signals,
    )
  where
    user : IsUser w → (0 == (sched w).current_process) ≡ false
    user u = ground (arith, u)

    differ : (c : ℕ) → (w.processes c).zombie ≡ true → (c == (sched w).current_process) ≡ false
    differ c z = test_differ (is_zombie_process w) c (sched w).current_process z live

no_one-start :
    (w : World)
    → IsUser w
    → is_empty (w.processes (sched w).current_process).children ≡ false
    → AreAlive w (w.processes (sched w).current_process).children
    → (options : ℕ) → wait_for_process (negsuc zero) options w ≡ no_one wait_process options false w
unfolding wait_for_process process_turn start_wait
no_one-start w u e alive options =
    rw (choose_process-any w u e, wait_for_process)
      (rw
        (find_first-AreAlive (w.processes (sched w).current_process).children w alive, process_turn)
        refl)

-- The wait of a thread without a pending signal.
abbrev asleep : Sched → Sched
asleep s = set_thread s.current (record (s.threads s.current) { interrupted = 0; state = intr }) s

yield_block-waits :
    (s : Sched)
    → signal_is_pending s s.current ≡ false
    → yield_block s true ≡ (do_schedule (asleep s), false)
unfolding yield_block
yield_block-waits s e = rw (e, yield_block) refl

state-asleep : (s : Sched) → ((do_schedule (asleep s)).threads s.current).state ≡ intr
state-asleep s =
    ap (λ f. (f s.current).state) (threads-do_schedule (asleep s))
    ∙ itself (s.current == s.current) (same s.current)
  where
    same : (n : ℕ) → (n == n) ≡ true
    same n = ground arith

    itself :
        (b : Bool)
        → b ≡ true
        → (if b
            then record (s.threads s.current) { interrupted = 0; state = intr }
            else s.threads s.current).state
          ≡ intr
    itself b e = rw e refl

-- Where the thread goes to sleep in `ProcWaitProcess`.
abbrev waiting : World → World
waiting w = set_sched (do_schedule (asleep (sched w))) (
    set_details (sched w).current
      (record (w.details (sched w).current) { wait_mode = wait_process }) w)

wait_mode-waiting : (w : World) → ((waiting w).details (sched w).current).wait_mode ≡ wait_process
wait_mode-waiting w = rw (same (sched w).current) refl
  where
    same : (n : ℕ) → (n == n) ≡ true
    same n = ground arith

no_one-waits :
    (options : ℕ) (w : World)
    → has_nohang options ≡ false
    → signal_is_pending (sched w) (sched w).current ≡ false
    → no_one wait_process options false w ≡ waits (waiting w)
unfolding no_one
no_one-waits options w h s = rw (h, no_one) (rw (yield_block-waits (sched w) s) refl)

no_one-interrupted :
    (options : ℕ) (w : World)
    → has_nohang options ≡ false
    → signal_is_pending (sched w) (sched w).current ≡ true
    → no_one wait_process options false w
      ≡ returns eintr none (
          set_details
            (sched w).current
            (record (w.details (sched w).current) { wait_mode = not_waiting })
            w)
unfolding no_one yield_block
no_one-interrupted options w h s = rw (h, no_one) (rw s refl)

-- `ProcWaitProcess(-1)` in a process with children, none of them a zombie: with WNOHANG it returns 0 and
-- changes nothing; with a signal pending it returns -EINTR, and no process, thread's or signal's state
-- changes; else the thread is blocked in it.
pub wait_for_process-alive :
    (options : ℕ) (w : World)
    → IsUser w
    → is_empty (w.processes (sched w).current_process).children ≡ false
    → AreAlive w (w.processes (sched w).current_process).children
    → ((has_nohang options ≡ true)
        × (wait_for_process (negsuc zero) options w ≡ returns (pos 0) none w))
      ⊎ ((has_nohang options ≡ false)
          × (signal_is_pending (sched w) (sched w).current ≡ true)
          × ((v : World) × (wait_for_process (negsuc zero) options w ≡ returns eintr none v)
              × (v.processes ≡ w.processes)
              × (v.signals ≡ w.signals)))
      ⊎ ((has_nohang options ≡ false)
          × (signal_is_pending (sched w) (sched w).current ≡ false)
          × ((v : World) × (wait_for_process (negsuc zero) options w ≡ waits v)
              × (v.processes ≡ w.processes)
              × IsWaiting (sched w).current v))
unfolding no_one
wait_for_process-alive options w u e alive = elim (Bool-cases (has_nohang options)) [
  | inl h ↦ inl (h, no_one-start w u e alive options ∙ rw (h, no_one) refl)
  | inr h ↦ inr (elim (Bool-cases (signal_is_pending (sched w) (sched w).current)) [
    | inl s ↦
        inl (
          h,
          s,
          (_, no_one-start w u e alive options ∙ no_one-interrupted options w h s, refl, refl),
        )
    | inr s ↦ inr (
      h,
      s,
      (
        waiting w,
        no_one-start w u e alive options ∙ no_one-waits options w h s,
        refl,
        (state-asleep (sched w), wait_mode-waiting w),
      ),
    )
  ])
]
