-- ===== src/Process/Scheduler/Steps.antt =====
-- Yielding, blocking and waking keep the thread queue in order.
use chaff.Prelude.{
  ℕ, ◌≡◌, ◌≢◌, refl, sym, ap, ◌∙◌, subst, ◌⊎◌, inl, inr, Bool, true, false, ◌&&◌, ◌==◌,
  if◌then◌else◌, arith, Bool-cases, update,
}
use chaff.Process.Scheduler.{
  ThreadState, startup, running, intr, unintr, zombie, Sched, do_schedule, yield_thread,
  yield_block, signal_is_pending, wake_up_sig, wake_in, is_empty, enqueue,
}
use chaff.Process.Scheduler.Invariant.{
  member, QueueOk, IsSound, do_schedule-IsSound, member-AllRunning, member-append, QueueOk-update,
  QueueOk-append,
}

current-ready : (s : Sched) → IsSound s → s.current ≢ s.idle → (s.threads s.current).state ≡ running
current-ready s v ne = ground (arith, v.current_ready)

pub yield_thread-IsSound : (s : Sched) → IsSound s → s.current ≢ s.idle → IsSound (yield_thread s)
unfolding yield_thread
yield_thread-IsSound s v ne = elim (Bool-cases (is_empty s.queue)) [
  | inl b ↦ rw b (record {
    queued = kept;
    out = v.out;
    current_ready = inr (ground (arith, current-ready s v ne));
  })
  | inr b ↦ rw b (
      do_schedule-IsSound _ (
        QueueOk-append _ s.idle s.current s.queue v.out (ground (arith, current-ready s v ne))
          kept))
]
  where
    kept :
        QueueOk
          (update s.threads s.current (record (s.threads s.current) { interrupted = 0 }))
          s.idle
          s.queue
    kept = QueueOk-update s.threads s.idle s.current _ s.queue (inl v.out) (inl ne) v.queued

pub yield_block-IsSound :
    (s : Sched) (interruptable : Bool) → IsSound s → IsSound (yield_block s interruptable).0
unfolding yield_block
yield_block-IsSound s interruptable v =
    elim (Bool-cases (interruptable && signal_is_pending s s.current)) [
      | inl b ↦ rw b v
      | inr b ↦ rw b (
          do_schedule-IsSound _ (
            QueueOk-update s.threads s.idle s.current _ s.queue (inl v.out)
              (inr (blocked interruptable)) v.queued))
    ]
  where
    blocked : (i : Bool) → (if i then intr else unintr) ≢ running
    blocked true = λ e. cc
    blocked false = λ e. cc

-- A thread that is not ready, and is not the idle one, is made ready.
enqueue-IsSound :
    (s : Sched) (t flag : ℕ)
    → IsSound s
    → t ≢ s.idle
    → (s.threads t).state ≢ running
    → IsSound (enqueue t flag s)
enqueue-IsSound s t flag v ne nr = record {
  queued =
      QueueOk-append _ s.idle t s.queue not_queued (ground arith)
        (QueueOk-update s.threads s.idle t _ s.queue (inl not_queued) (inl ne) v.queued);
  out = rw (member-append s.current t s.queue, v.out) other;
  current_ready = rw other v.current_ready;
}
  where
    not_queued : member t s.queue ≡ false
    not_queued = member-AllRunning s.threads t s.queue v.queued.ready nr

    differs : (s.current ≡ s.idle) ⊎ ((s.threads s.current).state ≡ running) → t ≢ s.current
    differs (inl e) = λ q. ne (q ∙ e)
    differs (inr r) = λ q. nr (subst (λ i. (s.threads i).state ≡ running) (sym q) r)

    other : (t == s.current) ≡ false
    other = ground (arith, differs v.current_ready)

wake_in-IsSound :
    (state : ThreadState) (t : ℕ) (is_signal : Bool) (s : Sched)
    → (s.threads t).state ≡ state
    → IsSound s
    → t ≢ s.idle
    → IsSound (wake_in state t is_signal s)
unfolding wake_in
wake_in-IsSound startup t g s e v ne = enqueue-IsSound s t 0 v ne (rw e (λ q. cc))
wake_in-IsSound running t true s e v ne = v
wake_in-IsSound running t false s e v ne = record {
  queued = QueueOk-update s.threads s.idle t _ s.queue (inr e) (inl ne) v.queued;
  out = v.out;
  current_ready = ground (arith, v.current_ready, e, ap (λ i. (s.threads i).state));
}
wake_in-IsSound intr t g s e v ne = enqueue-IsSound s t _ v ne (rw e (λ q. cc))
wake_in-IsSound unintr t true s e v ne = v
wake_in-IsSound unintr t false s e v ne = enqueue-IsSound s t 0 v ne (rw e (λ q. cc))
wake_in-IsSound zombie t g s e v ne = v

pub wake_up_sig-IsSound :
    (s : Sched) (t : ℕ) (is_signal : Bool)
    → IsSound s
    → t ≢ s.idle
    → IsSound (wake_up_sig t is_signal s)
unfolding wake_up_sig
wake_up_sig-IsSound s t is_signal v ne = wake_in-IsSound (s.threads t).state t is_signal s refl v ne

-- What the scheduler is asked to do: by the current thread, by the idle thread's loop, or by whoever
-- wakes a thread.
pub data Step (s : Sched) : Sched → Type 0 where
  yields : s.current ≢ s.idle → Step s (yield_thread s)
  blocks : (interruptable : Bool) → Step s (yield_block s interruptable).0
  idles : s.current ≡ s.idle → Step s (do_schedule s)
  wakes : (t : ℕ) (is_signal : Bool) → t ≢ s.idle → Step s (wake_up_sig t is_signal s)

pub data Reach (s : Sched) : Sched → Type 0 where
  here : Reach s s
  next : {t u : Sched} → Reach s t → Step t u → Reach s u

Step-IsSound : {s t : Sched} → Step s t → IsSound s → IsSound t
Step-IsSound {s} (yields ne) v = yield_thread-IsSound s v ne
Step-IsSound {s} (blocks i) v = yield_block-IsSound s i v
Step-IsSound {s} (idles e) v = do_schedule-IsSound s v.queued
Step-IsSound {s} (wakes t g ne) v = wake_up_sig-IsSound s t g v ne

-- In whatever order threads yield, block and are woken, the idle thread excepted, and the idle
-- thread's loop schedules: every queued thread is ready to run, none is queued twice, the current
-- thread is not queued, and it is ready or the idle thread.
pub Reach-IsSound : {s t : Sched} → IsSound s → Reach s t → IsSound t
Reach-IsSound v here = v
Reach-IsSound v (next r st) = Step-IsSound st (Reach-IsSound v r)
