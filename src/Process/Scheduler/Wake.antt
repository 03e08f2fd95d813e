-- ===== src/Process/Scheduler/Wake.antt =====
-- `ProcWakeUpSig`: what the woken thread's `ProcYieldBlock` returns, and where the thread goes.
use chaff.Prelude.{ℕ, ◌≡◌, refl, Bool, true, false, ◌&&◌, [], ◌∷◌, ◌++◌, if◌then◌else◌, arith}
use chaff.Process.Scheduler.{
  ThreadState, startup, running, intr, unintr, zombie, Sched, wake_up_sig, wake_in, block_result,
}

-- Whether a wake-up makes a thread ready that was not, by the thread's state.
abbrev pub starts : ThreadState → Bool → Bool
starts startup is_signal = true
starts running is_signal = false
starts intr is_signal = true
starts unintr is_signal = if is_signal then false else true
starts zombie is_signal = false

-- Whether the thread then learns that it was interrupted, given what it would have learnt before.
abbrev pub learns : ThreadState → Bool → Bool → Bool
learns startup is_signal before = false
learns running is_signal before = is_signal && before
learns intr is_signal before = is_signal
learns unintr is_signal before = is_signal && before
learns zombie is_signal before = before

wake_in_lem :
    (state : ThreadState) (t : ℕ) (is_signal : Bool) (s : Sched)
    → (s.threads t).state ≡ state
    → let u = wake_in state t is_signal s in
      (block_result u t ≡ learns state is_signal (block_result s t))
      × (u.queue ≡ (if starts state is_signal then s.queue ++ t ∷ [] else s.queue))
      × ((u.threads t).state ≡ (if starts state is_signal then running else state))
unfolding wake_in block_result
wake_in_lem startup t g s e = ground (arith, e)
wake_in_lem running t true s e = ground (arith, e)
wake_in_lem running t false s e = ground (arith, e)
wake_in_lem intr t true s e = ground (arith, e)
wake_in_lem intr t false s e = ground (arith, e)
wake_in_lem unintr t true s e = ground (arith, e)
wake_in_lem unintr t false s e = ground (arith, e)
wake_in_lem zombie t g s e = ground (arith, e)

-- `ProcWakeUpSig` makes exactly these threads ready, at the end of the queue: new ones, and blocked
-- ones, but an uninterruptible one only if no signal wakes it. An interruptible thread learns that it
-- was interrupted exactly if a signal wakes it; a ready one and an uninterruptible one do only if they
-- would have and a signal comes; a new thread does not; and for a zombie nothing changes.
pub wake_up_sig_lem :
    (s : Sched) (t : ℕ) (is_signal : Bool)
    → let u = wake_up_sig t is_signal s in
      let state = (s.threads t).state in
      (block_result u t ≡ learns state is_signal (block_result s t))
      × (u.queue ≡ (if starts state is_signal then s.queue ++ t ∷ [] else s.queue))
      × ((u.threads t).state ≡ (if starts state is_signal then running else state))
unfolding wake_up_sig
wake_up_sig_lem s t is_signal = wake_in_lem (s.threads t).state t is_signal s refl
