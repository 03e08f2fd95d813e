-- ===== src/Timer/Tests.antt =====
-- Runs of timer.c, and the theorems at such runs.
use chaff.Prelude.{ℕ, ◌≡◌, refl, none, some, [], ◌∷◌, ◌==◌, if◌then◌else◌, arith}
use chaff.Timer.{Timer, Entry, add_to_queue, sleep_start, set_alarm, interrupt, find_node}
use chaff.Timer.Queue.{IsDrained, has_owner}
use chaff.Timer.Sleep.{IsOrdered, sleeps, step-IsOrdered, interrupt_lem, BeepAt}
use chaff.Timer.Links.{IsLinked}
use chaff.Timer.Alarm.{time_left, set_alarm_lem}

abbrev boot : Timer
boot = record {
  current_time = 1000;
  startup_time = 1000;
  quantum = 20;
  beep_end = 0;
  sleep_queue = [];
  alarm_queue = [];
  alarm_ptr = λ _. none;
}

-- Thread 7 sleeps for one tick, and thread 8 for much longer.
abbrev two_sleepers : Timer
two_sleepers = sleep_start (sleep_start boot 1 7 42950333) 2 8 900000000

abbrev short_entry : Entry
short_entry = record { node = 1; owner = 7; end_time = 42951333 }

abbrev long_entry : Entry
long_entry = record { node = 2; owner = 8; end_time = 900001000 }

two_sleepers-queue : two_sleepers.sleep_queue ≡ long_entry ∷ short_entry ∷ []
unfolding sleep_start add_to_queue
two_sleepers-queue = refl

boot-IsOrdered : IsOrdered boot
boot-IsOrdered = record { sleeps = tt; alarms = tt }

two_sleepers-IsOrdered : IsOrdered two_sleepers
two_sleepers-IsOrdered =
    step-IsOrdered (sleep_start boot 1 7 42950333) (sleeps 2 8 900000000)
      (step-IsOrdered boot (sleeps 1 7 42950333) boot-IsOrdered)

-- The alarm of process 5 is due at the next interrupt, and so is the end of a beep.
abbrev busy : Timer
busy = record (set_alarm two_sleepers 3 5 60000).0 { beep_end = 2000 }

interrupt_lem_example :
    let (u, calls) = interrupt busy 0xFF in
    (u.current_time ≡ 42951333)
    × (u.quantum ≡ 19)
    × IsDrained u.current_time (long_entry ∷ short_entry ∷ []) calls.wakes u.sleep_queue
    × IsDrained u.current_time
        (record { node = 3; owner = 5; end_time = 60000 } ∷ [])
        calls.alarms
        u.alarm_queue
    × ((p : ℕ) → u.alarm_ptr p ≡ (if has_owner p calls.alarms then none else busy.alarm_ptr p))
    × BeepAt u.current_time busy 0xFF u calls
unfolding sleep_start set_alarm add_to_queue
interrupt_lem_example = interrupt_lem busy 0xFF

boot-IsLinked : IsLinked boot.alarm_queue boot.alarm_ptr
boot-IsLinked = record { nodes = tt; owned = tt; queued = λ p n e. absurd (ground arith) }

set_alarm_lem_example :
    let (u, left) = set_alarm boot 3 5 60000 in
    IsLinked u.alarm_queue u.alarm_ptr
    × (left ≡ time_left boot 5)
    × ((q : ℕ)
        → u.alarm_ptr q
          ≡ (if 5 == q then (if 60000 == 0 then none else some 3) else boot.alarm_ptr q))
    × (find_node 3 u.alarm_queue
        ≡ (if 60000 == 0 then none else some (record { node = 3; owner = 5; end_time = 60000 })))
unfolding find_node
set_alarm_lem_example = set_alarm_lem boot 3 5 60000 boot-IsLinked refl

abbrev alarmed : Timer
alarmed = (set_alarm boot 3 5 60000).0
