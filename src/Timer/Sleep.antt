-- ===== src/Timer/Sleep.antt =====
-- The timer interrupt and the sleep queue.
use Prim.Native.Nat.{bit_and}
use chaff.Prelude.{
  ℕ, ◌+◌, ◌-◌, ◌<◌, ◌≤◌, ◌≡◌, ◌≢◌, ◌⊎◌, ◌∷◌, leb, if◌then◌else◌, refl, ap, inl, inr, true, false,
  [], ◌==◌, arith, Bool, Bool-cases, Option, none, some,
}
use chaff.Prelude.Int.{pos, ◌<ℤ◌}
use chaff.Timer.{
  Timer, sleep_start, sleep_end, set_alarm, set_time, remove_alarm, interrupt, ticks_per_interrupt,
  drain, beep_stop, Calls,
}
use chaff.Timer.Queue.{
  AllBy, IsDescending, add_to_queue-IsDescending, delete_node-IsDescending, drain-IsDescending,
  drain-IsDrained, IsDrained, has_owner, clear_alarms_lem, drain_blocked,
}

-- Both queues are in descending order.
pub record IsOrdered (t : Timer) : Type 0 where
  pub sleeps : IsDescending t.sleep_queue
  pub alarms : IsDescending t.alarm_queue

-- An operation of the file, with its arguments.
pub data Call : Type 0 where
  sleeps : ℕ → ℕ → ℕ → Call
  woken : ℕ → ℕ → Bool → Call
  sets_alarm : ℕ → ℕ → ℕ → Call
  ticks : ℕ → Call
  sets_time : ℕ → Call

abbrev pub step : Timer → Call → Timer
step t (sleeps node thread time) = sleep_start t node thread time
step t (woken node wake_time interrupted) = (sleep_end t node wake_time interrupted).0
step t (sets_alarm node process time) = (set_alarm t node process time).0
step t (ticks keyboard) = (interrupt t keyboard).0
step t (sets_time time) = set_time t time

remove_alarm-IsOrdered : (t : Timer) (p : ℕ) → IsOrdered t → IsOrdered (remove_alarm t p).0
unfolding remove_alarm
remove_alarm-IsOrdered t p v = by_ptr (t.alarm_ptr p) refl
  where
    by_ptr : (o : Option ℕ) → t.alarm_ptr p ≡ o → IsOrdered (remove_alarm t p).0
    by_ptr none e = rw (e, remove_alarm) v
    by_ptr (some n) e =
        rw (e, remove_alarm)
          (record { sleeps = v.sleeps; alarms = delete_node-IsDescending n t.alarm_queue v.alarms })

set_alarm-IsOrdered :
    (t : Timer) (node p time : ℕ) → IsOrdered t → IsOrdered (set_alarm t node p time).0
unfolding set_alarm
set_alarm-IsOrdered t node p time v = elim (Bool-cases (time == 0)) [
  | inl b ↦ rw b (remove_alarm-IsOrdered t p v)
  | inr b ↦ rw b (record {
    sleeps = (remove_alarm-IsOrdered t p v).sleeps;
    alarms = add_to_queue-IsDescending _ _ (remove_alarm-IsOrdered t p v).alarms;
  })
]

-- `TimerSleep`, `TimerSetAlarm`, `TimerInterrupt` and `TimerSetTime` keep both queues in descending
-- order of time.
pub step-IsOrdered : (t : Timer) (c : Call) → IsOrdered t → IsOrdered (step t c)
unfolding sleep_start sleep_end interrupt set_time
step-IsOrdered t (sleeps node thread time) v = record {
  sleeps = add_to_queue-IsDescending _ t.sleep_queue v.sleeps;
  alarms = v.alarms;
}
step-IsOrdered t (woken node wake_time true) v = record {
  sleeps = delete_node-IsDescending node t.sleep_queue v.sleeps;
  alarms = v.alarms;
}
step-IsOrdered t (woken node wake_time false) v = v
step-IsOrdered t (sets_alarm node process time) v = set_alarm-IsOrdered t node process time v
step-IsOrdered t (ticks keyboard) v = record {
  sleeps = drain-IsDescending (t.current_time + ticks_per_interrupt) t.sleep_queue v.sleeps;
  alarms = drain-IsDescending (t.current_time + ticks_per_interrupt) t.alarm_queue v.alarms;
}
step-IsOrdered t (sets_time time) v = record { sleeps = v.sleeps; alarms = v.alarms }

-- What `TimerInterrupt` does of the beep at the time `now`: it goes on, or its end has come and the
-- speaker is switched off.
abbrev pub BeepAt : ℕ → Timer → ℕ → Timer → Calls → Type 0
BeepAt now t keyboard u calls =
    ((t.beep_end ≡ 0 ⊎ now < t.beep_end) × (u.beep_end ≡ t.beep_end) × (calls.outs ≡ []))
    ⊎ ((t.beep_end ≢ 0)
        × (t.beep_end ≤ now)
        × (u.beep_end ≡ 0)
        × (calls.outs ≡ record { port = 0x61; value = bit_and keyboard 0xFC } ∷ []))

beep_stops :
    (t : Timer) (keyboard : ℕ)
    → let (u, calls) = interrupt t keyboard in BeepAt u.current_time t keyboard u calls
unfolding interrupt beep_stop
beep_stops t keyboard = elim (Bool-cases (t.beep_end == 0)) [
  | inl b ↦ rw b (inl (inl (ground arith), refl, refl))
  | inr b ↦ elim (Bool-cases (leb t.beep_end (t.current_time + ticks_per_interrupt))) [
    | inl c ↦ rw (b, c) (inr (ground (arith, b), ground (arith, c), refl, refl))
    | inr c ↦ rw (b, c) (inl (inr (ground (arith, c)), refl, refl))
  ]
]

-- `TimerInterrupt` moves the clock on by its constant and takes 1 off a quantum that is not 0. What it
-- takes off either queue is the queue's front and is due by the new time, and what is left does not
-- begin with an entry that is due: it wakes the threads of the entries off the sleep queue, and sends
-- the alarms of those off the alarm queue. A process has no alarm any more if one is sent to it, and
-- keeps its pointer otherwise. The speaker is switched off exactly if a beep's end has come.
pub interrupt_lem :
    (t : Timer) (keyboard : ℕ)
    → let (u, calls) = interrupt t keyboard in
      (u.current_time ≡ t.current_time + ticks_per_interrupt)
      × (u.quantum ≡ t.quantum - 1)
      × IsDrained u.current_time t.sleep_queue calls.wakes u.sleep_queue
      × IsDrained u.current_time t.alarm_queue calls.alarms u.alarm_queue
      × ((p : ℕ) → u.alarm_ptr p ≡ (if has_owner p calls.alarms then none else t.alarm_ptr p))
      × BeepAt u.current_time t keyboard u calls
unfolding interrupt
interrupt_lem t keyboard =
    let now = t.current_time + ticks_per_interrupt in
    (
      refl,
      ground arith,
      drain-IsDrained now t.sleep_queue,
      drain-IsDrained now t.alarm_queue,
      λ p. clear_alarms_lem (drain now t.alarm_queue).0 t.alarm_ptr p,
      beep_stops t keyboard,
    )

-- While some sleeping thread is not due by the new time, `TimerInterrupt` wakes no thread, with
-- the queues in the order that the file keeps them in.
pub interrupt_oversleeps :
    (t : Timer) (keyboard : ℕ)
    → IsOrdered t
    → ¬ AllBy (t.current_time + ticks_per_interrupt) t.sleep_queue
    → ((interrupt t keyboard).1.wakes ≡ []) × ((interrupt t keyboard).0.sleep_queue ≡ t.sleep_queue)
unfolding interrupt
interrupt_oversleeps t keyboard v n =
    let e = drain_blocked (t.current_time + ticks_per_interrupt) t.sleep_queue v.sleeps n in
    (ap (λ p. p.0) e, ap (λ p. p.1) e)

-- An interrupted `TimerSleep` returns a negative number while its time has not come.
pub sleep_end_negative :
    (t : Timer) (node wake_time : ℕ)
    → t.current_time < wake_time
    → (sleep_end t node wake_time true).1 <ℤ pos 0
unfolding sleep_end
sleep_end_negative t node wake_time h = ground arith
