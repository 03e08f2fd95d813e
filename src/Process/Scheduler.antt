-- ===== src/Process/Scheduler.antt =====
-- kernel/src/process/scheduler.c: the thread queue, blocking and waking. A thread or a process is
-- its address; process 0 stands for `ProcKernelProcess`. The switch of registers and stacks
-- (`CpuTaskSwitched`, `ProcIntSchedulerSwap`) is not part of the state: after it the new thread goes
-- on, so an operation here ends where the next thread takes over.
pub mod Invariant
pub mod Steps
pub mod Order
pub mod Wake
mod Tests
use Prim.Native.Nat.{bit_and, bit_or}
use chaff.Prelude.{
  ℕ, ◌-◌, Bool, true, false, not, ◌&&◌, List, [], ◌∷◌, ◌++◌, ◌==◌, if◌then◌else◌, update, add32,
}

-- `ProcThreadState`
pub data ThreadState : Type 0 where
  startup running intr unintr zombie : ThreadState

-- The fields of `ProcThread` that scheduling uses.
pub record Thread : Type 0 where
  pub state : ThreadState
  pub interrupted : ℕ
  pub parent : ℕ
  pub kstack_base : ℕ
  pub tls_descriptor : ℕ
  pub sig_pending : ℕ
  pub sig_blocked : ℕ

-- The static data, the processes' `sigPending`, and what a switch of threads sets: the quantum, the
-- kernel stack and TLS descriptor for the processor, and the process whose memory is mapped.
pub record Sched : Type 0 where
  pub threads : ℕ → Thread
  pub process_pending : ℕ → ℕ
  pub queue : List ℕ
  pub current : ℕ
  pub current_process : ℕ
  pub idle : ℕ
  pub quantum : ℕ
  pub esp0 : ℕ
  pub tls : ℕ
  pub address_space : ℕ

-- `TIMER_INITIAL_QUANTUM`
abbrev pub initial_quantum : ℕ
initial_quantum = 20

-- `PROC_KSTACK_SIZE`
abbrev pub kstack_size : ℕ
kstack_size = 0x1000

-- The part of `ProcDoSchedule` under "Perform context switch".
pub switch_to : ℕ → Sched → Sched
switch_to new s =
    let thread = s.threads new in
    let s' =
      (if thread.parent == 0 then record s { esp0 = 0 } else record s {
        esp0 = add32 thread.kstack_base kstack_size;
        tls = thread.tls_descriptor;
        address_space =
            if thread.parent == s.current_process then s.address_space else thread.parent;
        quantum = initial_quantum;
      }) in
    record s' { current = new; current_process = thread.parent }

-- The first part: the next thread, and the queue without it.
pub next_thread : ℕ → List ℕ → ℕ × List ℕ
next_thread idle [] = (idle, [])
next_thread idle (x ∷ xs) = (x, xs)

-- `ProcDoSchedule`
unfoldable pub do_schedule : Sched → Sched
unfolding next_thread switch_to
do_schedule s =
    let (new, rest) = next_thread s.idle s.queue in
    let s' = record s { queue = rest } in if s.current == new then s' else switch_to new s'

abbrev pub set_thread : ℕ → Thread → Sched → Sched
set_thread t thread s = record s { threads = update s.threads t thread }

-- `ListEmpty`
pub is_empty : List ℕ → Bool
is_empty [] = true
is_empty (x ∷ xs) = false

-- `ProcYield`
pub yield_thread : Sched → Sched
unfolding is_empty do_schedule
yield_thread s =
    let s' = set_thread s.current (record (s.threads s.current) { interrupted = 0 }) s in
    if is_empty s.queue
    then record s' { quantum = initial_quantum }
    else do_schedule (record s' { queue = s.queue ++ s.current ∷ [] })

-- `ProcSignalIsPending`
unfoldable pub signal_is_pending : Sched → ℕ → Bool
signal_is_pending s t = not (
    bit_and (bit_or (s.threads t).sig_pending (s.process_pending (s.threads t).parent))
      (0xFFFFFFFF - (s.threads t).sig_blocked)
    == 0)

-- `ProcYieldBlock` up to the switch, and whether it returned true at once instead.
unfoldable pub yield_block : Sched → Bool → Sched × Bool
unfolding signal_is_pending do_schedule
yield_block s interruptable =
    if interruptable && signal_is_pending s s.current then (s, true) else (
      do_schedule (
          set_thread s.current
            (record (s.threads s.current) {
              interrupted = 0;
              state = if interruptable then intr else unintr;
            })
            s),
      false,
    )

-- What `ProcYieldBlock` returns when the thread goes on later.
pub block_result : Sched → ℕ → Bool
block_result s t = (s.threads t).interrupted == 1

-- The last lines of `ProcWakeUpSig`.
abbrev pub enqueue : ℕ → ℕ → Sched → Sched
enqueue t flag s =
    record (set_thread t (record (s.threads t) { interrupted = flag; state = running }) s) {
      queue = s.queue ++ t ∷ [];
    }

-- `ProcWakeUpSig`, by the thread's state. A zombie is logged and left alone; there is no other state.
unfoldable pub wake_in : ThreadState → ℕ → Bool → Sched → Sched
wake_in startup t is_signal s = enqueue t 0 s
wake_in running t is_signal s =
    if is_signal then s else set_thread t (record (s.threads t) { interrupted = 0 }) s
wake_in intr t is_signal s = enqueue t (if is_signal then 1 else 0) s
wake_in unintr t is_signal s = if is_signal then s else enqueue t 0 s
wake_in zombie t is_signal s = s

unfoldable pub wake_up_sig : ℕ → Bool → Sched → Sched
unfolding wake_in
wake_up_sig t is_signal s = wake_in (s.threads t).state t is_signal s

-- `ProcWakeUp`
unfoldable pub wake_up : ℕ → Sched → Sched
unfolding wake_up_sig
wake_up t s = wake_up_sig t false s
