-- ===== src/Timer.antt =====
-- kernel/src/timer.c: the clock, the sleep and alarm queues, and the speaker. Times are numbers: the
-- clock counts from 1970 and no time reaches 2^63. A queue entry is its address (`node`), the thread
-- or process that it is for, and its time. The calls that the code makes of other parts, and its
-- writes to ports, are returned as lists in their order.
pub mod Queue
pub mod Sleep
pub mod Links
pub mod Alarm
pub mod Beep
mod Tests
use Prim.Native.Nat.{bit_and, bit_or}
use chaff.Prelude.{
  ℕ, ◌+◌, ◌-◌, ◌/◌, ◌%◌, ◌^◌, Bool, not, ◌&&◌, Option, none, some, List, [], ◌∷◌, ltb, leb, ◌==◌,
  if◌then◌else◌, update,
}
use chaff.Prelude.Int.{ℤ, pos, sub_ℕ}

pub record Entry : Type 0 where
  pub node : ℕ
  pub owner : ℕ
  pub end_time : ℕ

-- The static data of the file, and each process's `alarmPtr`.
pub record Timer : Type 0 where
  pub current_time : ℕ
  pub startup_time : ℕ
  pub quantum : ℕ
  pub beep_end : ℕ
  pub sleep_queue : List Entry
  pub alarm_queue : List Entry
  pub alarm_ptr : ℕ → Option ℕ

-- `PIT_TICKS_PER_INTERRUPT`
abbrev pub ticks_per_interrupt : ℕ
ticks_per_interrupt = 42950333

-- `PIT_OSCILLATOR_RATE`
abbrev pub oscillator_rate : ℕ
oscillator_rate = 1193182

-- `PIT_RELOADVAL`
abbrev pub reload_interrupt : ℕ
reload_interrupt = 11932

-- A write to a port.
pub record Out : Type 0 where
  pub port : ℕ
  pub value : ℕ

-- `TimerInit`, with what `IntrRegister` and `TimerGetCMOSTime` return and port 0x61 reads; the state
-- before it is that of the static initialisers. `none` is the panic.
pub init : Timer → Bool → ℕ → ℕ → Option (Timer × List Out)
init t registered cmos_time keyboard =
    if registered
    then some (
      record t { current_time = cmos_time; startup_time = cmos_time; beep_end = 0 },
      record { port = 0x43; value = 0x34 }
          ∷ record { port = 0x40; value = bit_and reload_interrupt 0xFF }
          ∷ record { port = 0x40; value = reload_interrupt / 2 ^ 8 }
          ∷ record { port = 0x43; value = 0xB6 }
          ∷ record { port = 0x61; value = bit_and keyboard 0xFC }
          ∷ [],
    )
    else none

-- `TimerSetTime`
pub set_time : Timer → ℕ → Timer
set_time t time = record t { current_time = time }

-- `AddTimerToQueue`
pub add_to_queue : Entry → List Entry → List Entry
add_to_queue e [] = e ∷ []
add_to_queue e (x ∷ xs) = if ltb x.end_time e.end_time then e ∷ x ∷ xs else x ∷ add_to_queue e xs

-- `ListDelete` of an entry.
pub delete_node : ℕ → List Entry → List Entry
delete_node n [] = []
delete_node n (x ∷ xs) = if x.node == n then xs else x ∷ delete_node n xs

pub find_node : ℕ → List Entry → Option Entry
find_node n [] = none
find_node n (x ∷ xs) = if x.node == n then some x else find_node n xs

-- `TimerSleep` up to its call of `ProcYieldBlock`, for the current thread.
pub sleep_start : Timer → ℕ → ℕ → ℕ → Timer
sleep_start t node thread time = record t { sleep_queue = add_to_queue entry t.sleep_queue }
  where
    entry : Entry
    entry = record { node = node; owner = thread; end_time = time + t.current_time }

-- `TimerSleep` after that call: the result, and the entry taken out if the sleep was interrupted.
pub sleep_end : Timer → ℕ → ℕ → Bool → Timer × ℤ
sleep_end t node wake_time interrupted =
    if interrupted
    then (record t { sleep_queue = delete_node node t.sleep_queue }, sub_ℕ t.current_time wake_time)
    else (t, pos 0)

-- The first part of `TimerSetAlarm`: the previous alarm's time left, and its removal.
pub remove_alarm : Timer → ℕ → Timer × ℤ
remove_alarm t process = elim (t.alarm_ptr process) [
  | none ↦ (t, pos 0)
  | some n ↦ (
    record t {
      alarm_queue = delete_node n t.alarm_queue;
      alarm_ptr = update t.alarm_ptr process none;
    },
    elim (find_node n t.alarm_queue) [ none ↦ pos 0 | some e ↦ sub_ℕ e.end_time t.current_time ],
  )
]

-- `TimerSetAlarm` by the current process; `node` is the address of a new entry.
pub set_alarm : Timer → ℕ → ℕ → ℕ → Timer × ℤ
unfolding remove_alarm
set_alarm t node process time =
    let (t', left) = remove_alarm t process in
    if time == 0 then (t', left) else (
      record t' {
        alarm_queue =
            add_to_queue (record { node = node; owner = process; end_time = time }) t'.alarm_queue;
        alarm_ptr = update t'.alarm_ptr process (some node);
      },
      left,
    )

-- `TimerBeepStop`, with what port 0x61 reads.
pub beep_stop : Timer → ℕ → Timer × List Out
beep_stop t keyboard =
    (record t { beep_end = 0 }, record { port = 0x61; value = bit_and keyboard 0xFC } ∷ [])

-- The reload value of `TimerBeepAdv`, an `unsigned short`.
pub reload_value : ℕ → ℕ
reload_value freq =
    (oscillator_rate / (if ltb freq 18 then 18 else if ltb 596591 freq then 596591 else freq))
    % 2 ^ 16

-- `TimerBeepAdv`
pub beep : Timer → ℕ → ℕ → ℕ → Timer × List Out
unfolding reload_value
beep t freq time keyboard = (
  record t { beep_end = t.current_time + time },
  record { port = 0x42; value = bit_and (reload_value freq) 0xFF }
      ∷ record { port = 0x42; value = reload_value freq / 2 ^ 8 }
      ∷ record { port = 0x61; value = bit_or keyboard 3 }
      ∷ [],
)

-- The loop over a queue in `TimerInterrupt`: the entries taken off its front, and what is left.
pub drain : ℕ → List Entry → List Entry × List Entry
drain now [] = ([], [])
drain now (x ∷ xs) =
    let rest = drain now xs in if leb x.end_time now then (x ∷ rest.0, rest.1) else ([], x ∷ xs)

-- `alarmPtr = NULL` for the process of each entry that has gone off.
pub clear_alarms : List Entry → (ℕ → Option ℕ) → ℕ → Option ℕ
clear_alarms [] ptr = ptr
clear_alarms (x ∷ xs) ptr = clear_alarms xs (update ptr x.owner none)

-- What an interrupt calls: `ProcWakeUp` for the first entries, `ProcSignalSendProcess` with SIGALRM
-- for the second, and the port write of `TimerBeepStop` if the beep ends.
pub record Calls : Type 0 where
  pub wakes : List Entry
  pub alarms : List Entry
  pub outs : List Out

-- `TimerInterrupt`
pub interrupt : Timer → ℕ → Timer × Calls
unfolding drain clear_alarms beep_stop
interrupt t keyboard = (
  record {
    current_time = now;
    startup_time = t.startup_time;
    quantum = if ltb 0 t.quantum then t.quantum - 1 else t.quantum;
    beep_end = if beep_over then (beep_stop t keyboard).0.beep_end else t.beep_end;
    sleep_queue = (drain now t.sleep_queue).1;
    alarm_queue = (drain now t.alarm_queue).1;
    alarm_ptr = clear_alarms (drain now t.alarm_queue).0 t.alarm_ptr;
  },
  record {
    wakes = (drain now t.sleep_queue).0;
    alarms = (drain now t.alarm_queue).0;
    outs = if beep_over then (beep_stop t keyboard).1 else [];
  },
)
  where
    now : ℕ
    now = t.current_time + ticks_per_interrupt

    beep_over : Bool
    beep_over = not (t.beep_end == 0) && leb t.beep_end now
