-- ===== src/Process/Life/Exit/Woken.antt =====
-- Waking the threads of a process that wait for another: which become ready, and what stays as it is.
use chaff.Prelude.{
  ℕ, ◌≡◌, ◌≢◌, refl, ◌∙◌, inl, inr, true, false, ◌&&◌, List, [], ◌∷◌, ◌==◌, Bool-cases, arith,
}
use chaff.Process.Scheduler.{
  ThreadState, startup, running, intr, unintr, zombie, Sched, wake_up, wake_in, wake_up_sig,
}
use chaff.Process.Scheduler.Invariant.{member, member-append}
use chaff.Process.Signal.{is_intr}
use chaff.Process.Signal.Kept.{IsReady, IsReady-wake_up_sig}
use chaff.Process.Life.{WaitMode, wait_process, World, sched}
use chaff.Process.Life.Exit.{waits_for, wake_if_waiting, wake_waiting}

-- A thread is blocked in `ProcWaitProcess`.
abbrev pub IsWaiting : ℕ → World → Type 0
IsWaiting t w = (((sched w).threads t).state ≡ intr) × ((w.details t).wait_mode ≡ wait_process)

state-wake_in :
    (state : ThreadState) (u t : ℕ) (s : Sched)
    → u ≢ t
    → ((wake_in state u false s).threads t).state ≡ (s.threads t).state
unfolding wake_in
state-wake_in startup u t s d = ground (arith, d)
state-wake_in running u t s d = ground (arith, d)
state-wake_in intr u t s d = ground (arith, d)
state-wake_in unintr u t s d = ground (arith, d)
state-wake_in zombie u t s d = refl

state-wake_up :
    (u t : ℕ) (s : Sched) → u ≢ t → ((wake_up u s).threads t).state ≡ (s.threads t).state
unfolding wake_up wake_up_sig
state-wake_up u t s d = state-wake_in (s.threads u).state u t s d

wake_up-IsReady : (t : ℕ) (s : Sched) → (s.threads t).state ≡ intr → IsReady t (wake_up t s)
unfolding wake_up wake_up_sig wake_in
wake_up-IsReady t s e = rw e (ground arith, member-append t t s.queue ∙ ground arith)

wake_up-kept : (t u : ℕ) (s : Sched) → IsReady t s → IsReady t (wake_up u s)
unfolding wake_up
wake_up-kept t u s h = IsReady-wake_up_sig t u false s h

exit_code-wake_if_waiting :
    (mode : WaitMode) (u : ℕ) (w : World)
    → (wake_if_waiting mode u w).signals.exit_code ≡ w.signals.exit_code
unfolding wake_if_waiting
exit_code-wake_if_waiting mode u w =
    elim (Bool-cases
      (is_intr ((sched w).threads u).state && waits_for mode (w.details u).wait_mode)) [
        | inl k ↦ rw (k, wake_if_waiting) refl
        | inr k ↦ rw (k, wake_if_waiting) refl
      ]

pub exit_code-wake_waiting :
    (mode : WaitMode) (us : List ℕ) (w : World)
    → (wake_waiting mode us w).signals.exit_code ≡ w.signals.exit_code
unfolding wake_waiting
exit_code-wake_waiting mode [] w = refl
exit_code-wake_waiting mode (u ∷ us) w =
    exit_code-wake_waiting mode us (wake_if_waiting mode u w) ∙ exit_code-wake_if_waiting mode u w

wake_if_waiting-other :
    (u t : ℕ) (w : World) → u ≢ t → IsWaiting t w → IsWaiting t (wake_if_waiting wait_process u w)
unfolding wake_if_waiting
wake_if_waiting-other u t w d (e, m) =
    elim (Bool-cases
      (is_intr ((sched w).threads u).state && waits_for wait_process (w.details u).wait_mode)) [
        | inl k ↦ rw (k, wake_if_waiting) (state-wake_up u t (sched w) d ∙ e, m)
        | inr k ↦ rw (k, wake_if_waiting) (e, m)
      ]

wake_if_waiting-itself :
    (t : ℕ) (w : World) → IsWaiting t w → IsReady t (sched (wake_if_waiting wait_process t w))
unfolding wake_if_waiting waits_for is_intr
wake_if_waiting-itself t w (e, m) = rw (e, m, wake_if_waiting) (wake_up-IsReady t (sched w) e)

IsReady-wake_if_waiting :
    (mode : WaitMode) (t u : ℕ) (w : World)
    → IsReady t (sched w)
    → IsReady t (sched (wake_if_waiting mode u w))
unfolding wake_if_waiting
IsReady-wake_if_waiting mode t u w h =
    elim (Bool-cases
      (is_intr ((sched w).threads u).state && waits_for mode (w.details u).wait_mode)) [
        | inl k ↦ rw (k, wake_if_waiting) (wake_up-kept t u (sched w) h)
        | inr k ↦ rw (k, wake_if_waiting) h
      ]

IsReady-wake_waiting :
    (mode : WaitMode) (t : ℕ) (us : List ℕ) (w : World)
    → IsReady t (sched w)
    → IsReady t (sched (wake_waiting mode us w))
unfolding wake_waiting
IsReady-wake_waiting mode t [] w h = h
IsReady-wake_waiting mode t (u ∷ us) w h =
    IsReady-wake_waiting mode t us (wake_if_waiting mode u w) (IsReady-wake_if_waiting mode t u w h)

pub wake_waiting-IsReady :
    (t : ℕ) (us : List ℕ) (w : World)
    → member t us ≡ true
    → IsWaiting t w
    → IsReady t (sched (wake_waiting wait_process us w))
unfolding wake_waiting
wake_waiting-IsReady t [] w m h = absurd (ground (arith, m))
wake_waiting-IsReady t (u ∷ us) w m h = elim (Bool-cases (u == t)) [
  | inl e ↦ IsReady-wake_waiting wait_process t us _ (ready (equal e))
  | inr e ↦
      wake_waiting-IsReady t us (wake_if_waiting wait_process u w) (rest e m)
        (wake_if_waiting-other u t w (differ e) h)
]
  where
    equal : (u == t) ≡ true → u ≡ t
    equal e = ground (arith, e)

    differ : (u == t) ≡ false → u ≢ t
    differ e = ground (arith, e)

    rest : (u == t) ≡ false → member t (u ∷ us) ≡ true → member t us ≡ true
    rest e m = ground (arith, e, m)

    ready : u ≡ t → IsReady t (sched (wake_if_waiting wait_process u w))
    ready e = rw e (wake_if_waiting-itself t w h)
