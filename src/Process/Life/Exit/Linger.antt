-- ===== src/Process/Life/Exit/Linger.antt =====
-- The exit of threads of a process that has more than one.
use chaff.Prelude.{
  ℕ, ◌≡◌, refl, ap, sym, ◌∙◌, inl, inr, Bool, true, false, not, ◌&&◌, Option, none, some, List, [],
  ◌∷◌, ◌==◌, if◌then◌else◌, Bool-cases, update,
}
use chaff.Process.Scheduler.{Sched}
use chaff.Process.Signal.{Signals, is_intr, sig_kill, send_thread}
use chaff.Process.Signal.Kept.{IsClosed, send_thread-kept, IsCurrent, IsCurrent-IsClosed}
use chaff.Process.Life.{WaitMode, Process, World, wait_thread, sched}
use chaff.Process.Life.Reap.{is_zombie, reaper_add}
use chaff.Process.Life.Exit.{
  is_single, waits_for, wake_if_waiting, wake_waiting, mark_ended, end_thread, kill_others,
  self_exit, exit_thread, exit_process,
}

processes-wake_if_waiting :
    (mode : WaitMode) (t : ℕ) (w : World) → (wake_if_waiting mode t w).processes ≡ w.processes
unfolding wake_if_waiting
processes-wake_if_waiting mode t w =
    elim (Bool-cases
      (is_intr ((sched w).threads t).state && waits_for mode (w.details t).wait_mode)) [
        | inl e ↦ rw (e, wake_if_waiting) refl
        | inr e ↦ rw (e, wake_if_waiting) refl
      ]

pub processes-wake_waiting :
    (mode : WaitMode) (ts : List ℕ) (w : World) → (wake_waiting mode ts w).processes ≡ w.processes
unfolding wake_waiting
processes-wake_waiting mode [] w = refl
processes-wake_waiting mode (t ∷ ts) w =
    processes-wake_waiting mode ts (wake_if_waiting mode t w) ∙ processes-wake_if_waiting mode t w

processes-reaper_add : (t : ℕ) (w : World) → (reaper_add t w).processes ≡ w.processes
unfolding reaper_add
processes-reaper_add t w = elim (Bool-cases (is_zombie ((sched w).threads t).state)) [
  | inr e ↦ rw e refl
  | inl e ↦
      elim (Bool-cases (
        not (((sched w).threads t).parent == 0)
        && not (w.processes ((sched w).threads t).parent).zombie)) [
          | inl f ↦ rw e (rw f refl)
          | inr f ↦ rw e (rw f refl)
        ]
]

processes-end_thread : (code : ℕ) (w : World) → (end_thread code w).processes ≡ w.processes
unfolding end_thread
processes-end_thread code w = elim (Bool-cases ((sched w).current_process == 0)) [
  | inl e ↦ rw (e, end_thread) (processes-reaper_add (sched w).current (mark_ended code w))
  | inr e ↦
      rw (e, end_thread)
        (processes-wake_waiting wait_thread (w.processes (sched w).current_process).threads
          (mark_ended code w))
]

abbrev processes_or : (ℕ → Process) → Option World → ℕ → Process
processes_or before none = before
processes_or before (some w) = w.processes

pub exit_thread-ends :
    (code : ℕ) (w : World)
    → is_single (w.processes (sched w).current_process).threads ≡ false
    → exit_thread code w ≡ some (self_exit (end_thread code w))
unfolding exit_thread
exit_thread-ends code w s = rw (s, exit_thread) refl

exit_thread-several :
    (code : ℕ) (w u : World)
    → is_single (w.processes (sched w).current_process).threads ≡ false
    → exit_thread code w ≡ some u
    → u.processes ≡ w.processes
exit_thread-several code w u s e =
    ap (processes_or w.processes) (sym e ∙ exit_thread-ends code w s) ∙ processes-end_thread code w

-- The state in which `ProcExitProcess` calls `ProcExitThread`.
abbrev killing : ℕ → World → World
killing code w =
    let p = (sched w).current_process in
    let w' : World = record w {
      signals = record w.signals { exit_code = update w.signals.exit_code p code };
    } in
    record w' { signals = kill_others (sched w).current (w.processes p).threads w'.signals }

kill_others-kept :
    (P : Sched → Type 0)
    → IsClosed P
    → (t : ℕ) (us : List ℕ) (w : Signals) → P w.sched
    → P (kill_others t us w).sched
unfolding kill_others
kill_others-kept P closed t [] w h = h
kill_others-kept P closed t (u ∷ us) w h = kill_others-kept P closed t us _ (each (u == t))
  where
    each : (b : Bool) → P (if b then w else send_thread u sig_kill w).sched
    each true = h
    each false = send_thread-kept P closed u sig_kill w h

exit_process-several :
    (code : ℕ) (w u : World)
    → is_single (w.processes (sched w).current_process).threads ≡ false
    → exit_process code w ≡ some u
    → u.processes ≡ w.processes
unfolding exit_process
exit_process-several code w u s e =
    ap (processes_or w.processes) (sym e ∙ step ∙ ends) ∙ processes-end_thread 0 (killing code w)
  where
    step : exit_process code w ≡ exit_thread 0 (killing code w)
    step = rw (s, exit_process) refl

    same : (sched (killing code w)).current_process ≡ (sched w).current_process
    same =
        (kill_others-kept (IsCurrent (sched w).current (sched w).current_process)
          (IsCurrent-IsClosed (sched w).current (sched w).current_process) (sched w).current
          (w.processes (sched w).current_process).threads
          (record w.signals {
            exit_code = update w.signals.exit_code (sched w).current_process code;
          })
          (refl, refl)).1

    ends : exit_thread 0 (killing code w) ≡ some (self_exit (end_thread 0 (killing code w)))
    ends =
        exit_thread-ends 0 (killing code w) (ap (λ q. is_single (w.processes q).threads) same ∙ s)

-- What happens while threads of a process exit: one of them does, as the current thread, by either call,
-- or anything else that leaves the process's own fields, so that no thread of it is reaped or created.
pub data Exits (p : ℕ) (w : World) : World → Type 0 where
  begin : Exits p w w
  by_thread :
      (v : World) (code : ℕ) (u : World)
      → Exits p w v
      → (sched v).current_process ≡ p
      → exit_thread code v ≡ some u
      → Exits p w u
  by_process :
      (v : World) (code : ℕ) (u : World)
      → Exits p w v
      → (sched v).current_process ≡ p
      → exit_process code v ≡ some u
      → Exits p w u
  otherwise : (v u : World) → Exits p w v → u.processes p ≡ v.processes p → Exits p w u

-- However many threads of a process with two or more on its list exit, the process does not become a
-- zombie, and its list of threads stays, as long as nothing else changes the process's own fields
-- between the exits: none of the threads is reaped, and none is created.
pub Exits-never_end :
    (p : ℕ) (w v : World)
    → is_single (w.processes p).threads ≡ false
    → Exits p w v
    → v.processes p ≡ w.processes p
Exits-never_end p w v s begin = refl
Exits-never_end p w v s (by_thread u code _ before c e) =
    let same = Exits-never_end p w u s before in
    ap (λ f. f p) (exit_thread-several code u v (still u c same) e) ∙ same
  where
    still :
        (u : World)
        → (sched u).current_process ≡ p
        → u.processes p ≡ w.processes p
        → is_single (u.processes (sched u).current_process).threads ≡ false
    still u c same =
        ap (λ q. is_single (u.processes q).threads) c ∙ ap (λ q. is_single q.threads) same ∙ s
Exits-never_end p w v s (by_process u code _ before c e) =
    let same = Exits-never_end p w u s before in
    ap (λ f. f p) (exit_process-several code u v (still u c same) e) ∙ same
  where
    still :
        (u : World)
        → (sched u).current_process ≡ p
        → u.processes p ≡ w.processes p
        → is_single (u.processes (sched u).current_process).threads ≡ false
    still u c same =
        ap (λ q. is_single (u.processes q).threads) c ∙ ap (λ q. is_single q.threads) same ∙ s
Exits-never_end p w v s (otherwise u _ before e) = e ∙ Exits-never_end p w u s before
