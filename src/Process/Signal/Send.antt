-- ===== src/Process/Signal/Send.antt =====
-- `ProcSignalSendThread`.
use Prim.Native.Nat.{bit_or}
use chaff.Prelude.{
  ℕ, ◌-◌, ◌^◌, ◌<◌, ◌≡◌, ◌≢◌, refl, ap, ◌∙◌, inl, inr, Bool, true, false, not, ◌&&◌, ◌||◌, [], ◌∷◌,
  ◌++◌, ◌==◌, if◌then◌else◌, arith, Bool-cases,
}
use chaff.Prelude.Bits.{
  has_bit, complement, has_bit-bit_and, has_bit-bit_or, has_bit-complement, has_bit-pow,
}
use chaff.Process.Scheduler.{
  ThreadState, startup, running, intr, unintr, zombie, Sched, wake_up_sig, wake_in,
  signal_is_pending,
}
use chaff.Process.Signal.{
  Signals, in_range, sig_cont, sig_kill, sig_stop, signal_is_ignored, add_pending, send_thread,
  is_intr, set_pending, with_sched,
}

-- Whether `ProcSignalSendThread` adds the signal to the thread's pending ones.
abbrev pub accepts : Signals → ℕ → ℕ → Bool
accepts w t num =
    in_range num
    && (not (signal_is_ignored w (w.sched.threads t).parent num)
        || num == sig_kill
        || num == sig_stop)

has_bit-add_pending :
    (num pending i : ℕ)
    → i < 32
    → has_bit (add_pending num pending) i
      ≡ ((has_bit pending i || num - 1 == i) && not (num == sig_stop && i == 17))
unfolding add_pending
has_bit-add_pending num pending i h = elim (Bool-cases (num == sig_stop)) [
  | inl e ↦ rw e (
      has_bit-bit_and i (bit_or pending (2 ^ (num - 1))) (complement (2 ^ 17))
      ∙ rw
          (
            has_bit-bit_or i pending (2 ^ (num - 1)),
            has_bit-pow (num - 1) i,
            has_bit-complement i (2 ^ 17) h (omega arith),
            has_bit-pow 17 i,
          )
          (ground arith))
  | inr e ↦
      rw e (has_bit-bit_or i pending (2 ^ (num - 1)) ∙ rw (has_bit-pow (num - 1) i) (ground arith))
]

-- Waking a thread changes no thread's pending signals.
sig_pending-wake_in :
    (state : ThreadState) (t : ℕ) (is_signal : Bool) (s : Sched) (u : ℕ)
    → ((wake_in state t is_signal s).threads u).sig_pending ≡ (s.threads u).sig_pending
unfolding wake_in
sig_pending-wake_in startup t g s u = ground (arith, ap s.threads)
sig_pending-wake_in running t true s u = refl
sig_pending-wake_in running t false s u = ground (arith, ap s.threads)
sig_pending-wake_in intr t g s u = ground (arith, ap s.threads)
sig_pending-wake_in unintr t true s u = refl
sig_pending-wake_in unintr t false s u = ground (arith, ap s.threads)
sig_pending-wake_in zombie t g s u = refl

is_intr-intr : (state : ThreadState) → is_intr state ≡ true → state ≡ intr
unfolding is_intr
is_intr-intr startup e = cc
is_intr-intr running e = cc
is_intr-intr intr e = refl
is_intr-intr unintr e = cc
is_intr-intr zombie e = cc

-- What the thread and the queue are when the signal has been added to the pending ones.
abbrev added : ℕ → ℕ → Signals → Signals
added t num w = set_pending t (add_pending num (w.sched.threads t).sig_pending) w

abbrev deliver : ℕ → ℕ → Signals → Signals
deliver t num w =
    let w' = added t num w in
    if is_intr (w.sched.threads t).state && signal_is_pending w'.sched t
    then with_sched w' (wake_up_sig t true w'.sched)
    else w'

send_thread-accepted :
    (w : Signals) (t num : ℕ)
    → num ≢ sig_cont
    → accepts w t num ≡ true
    → send_thread t num w ≡ deliver t num w
unfolding send_thread
send_thread-accepted w t num n a = ground (arith, a)

send_thread-refused :
    (w : Signals) (t num : ℕ) → num ≢ sig_cont → accepts w t num ≡ false → send_thread t num w ≡ w
unfolding send_thread
send_thread-refused w t num n a = ground (arith, a)

wake_intr :
    (s : Sched) (t : ℕ)
    → is_intr (s.threads t).state ≡ true
    → ((wake_up_sig t true s).queue ≡ s.queue ++ t ∷ [])
      × (signal_is_pending (wake_up_sig t true s) t ≡ signal_is_pending s t)
      × (((wake_up_sig t true s).threads t).state ≡ running)
unfolding wake_up_sig wake_in signal_is_pending
wake_intr s t e = rw (is_intr-intr _ e) (refl, rw same refl, rw same refl)
  where
    same : (t == t) ≡ true
    same = ground arith

sig_pending-wake_up_sig :
    (s : Sched) (t : ℕ) → ((wake_up_sig t true s).threads t).sig_pending ≡ (s.threads t).sig_pending
unfolding wake_up_sig
sig_pending-wake_up_sig s t = sig_pending-wake_in (s.threads t).state t true s t

deliver_lem :
    (w : Signals) (t num i : ℕ)
    → i < 32
    → let w' = deliver t num w in
      (has_bit (w'.sched.threads t).sig_pending i ≡ (
        (has_bit (w.sched.threads t).sig_pending i || num - 1 == i)
        && not (num == sig_stop && i == 17)))
      × (w'.sched.queue ≡ (
          if is_intr (w.sched.threads t).state && signal_is_pending w'.sched t
          then w.sched.queue ++ t ∷ []
          else w.sched.queue))
      × ((w'.sched.threads t).state ≡ (
          if is_intr (w.sched.threads t).state && signal_is_pending w'.sched t
          then running
          else (w.sched.threads t).state))
deliver_lem w t num i h =
    elim (Bool-cases
      (is_intr (w.sched.threads t).state && signal_is_pending (added t num w).sched t)) [
        | inl e ↦
            let woken = wake_intr (added t num w).sched t (rw same (both e).0) in
            rw e (
              ap (λ set. has_bit set i) (sig_pending-wake_up_sig (added t num w).sched t)
                  ∙ rw same (has_bit-add_pending num _ i h),
              rw (woken.1, e) woken.0,
              rw (woken.1, e) woken.2,
            )
        | inr e ↦ rw e (rw same (has_bit-add_pending num _ i h), rw e refl, rw e (rw same refl))
      ]
  where
    same : (t == t) ≡ true
    same = ground arith

    both : {a b : Bool} → (a && b) ≡ true → (a ≡ true) × (b ≡ true)
    both {a = true} e = (refl, e)
    both {a = false} e = cc

-- `ProcSignalSendThread` of a signal other than SIGCONT. It accepts the signal if its number is in
-- range and the process does not ignore it or it is SIGKILL or SIGSTOP. Then the thread has the signal
-- pending too, and, if it is SIGSTOP, no SIGCONT (bit 17); and the thread is made ready, its state
-- running and itself at the end of the queue, exactly if it waits interruptibly and some pending
-- signal is not blocked, and keeps its state and the queue otherwise. A signal that is not accepted
-- changes none of these.
pub send_thread_lem :
    (w : Signals) (t num i : ℕ)
    → num ≢ sig_cont
    → i < 32
    → let w' = send_thread t num w in
      let before = has_bit (w.sched.threads t).sig_pending i in
      (has_bit (w'.sched.threads t).sig_pending i ≡ (
        if accepts w t num
        then (before || num - 1 == i) && not (num == sig_stop && i == 17)
        else before))
      × (w'.sched.queue ≡ (
          if accepts w t num && (is_intr (w.sched.threads t).state && signal_is_pending w'.sched t)
          then w.sched.queue ++ t ∷ []
          else w.sched.queue))
      × ((w'.sched.threads t).state ≡ (
          if accepts w t num && (is_intr (w.sched.threads t).state && signal_is_pending w'.sched t)
          then running
          else (w.sched.threads t).state))
send_thread_lem w t num i n h = elim (Bool-cases (accepts w t num)) [
  | inl a ↦ rw (send_thread-accepted w t num n a, a) (deliver_lem w t num i h)
  | inr a ↦ rw (send_thread-refused w t num n a, a) (refl, refl, refl)
]
