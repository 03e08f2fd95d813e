-- ===== src/Process/Life.antt =====
-- kernel/src/process/process.c: processes and threads by their addresses, and their creation. Process 0
-- stands for `ProcKernelProcess`. The hash tables are the partial maps that they stand for. The
-- addresses that the allocators return are arguments, and so are the clones of a memory and an I/O context.
pub mod Ids
pub mod Reap
pub mod Exit
pub mod Wait
mod Tests
use chaff.Prelude.{
  ℕ, zero, suc, ◌+◌, ◌-◌, Bool, true, false, Option, none, some, List, [], ◌∷◌, ◌++◌, ◌==◌,
  if◌then◌else◌, update, add32,
}
use chaff.Process.Scheduler.{Thread, startup, Sched, set_thread, wake_up}
use chaff.Process.Signal.{Signals, Action, with_sched}

-- `ProcWaitMode`
pub data WaitMode : Type 0 where
  not_waiting wait_process wait_thread : WaitMode

-- The fields of `ProcProcess` that are not the scheduler's or the signals'.
pub record Process : Type 0 where
  pub pid : ℕ
  pub parent : Option ℕ
  pub children : List ℕ
  pub threads : List ℕ
  pub zombie : Bool
  pub mem_context : Option ℕ
  pub io_context : Option ℕ

-- The fields of `ProcThread` that are not the scheduler's.
pub record Details : Type 0 where
  pub tid : ℕ
  pub exit_code : ℕ
  pub wait_mode : WaitMode
  pub kstack : List ℕ

-- Calls of other parts.
pub data Call : Type 0 where
  clear_alarm : Call
  delete_mem_context : ℕ → Call
  delete_io_context : ℕ → Call
  free_fpu_state : ℕ → Call
  free_thread : ℕ → Call
  free_process : ℕ → Call

-- The scheduler and the signals, the processes, the threads, the hash tables, the next ids, the reaper's
-- list and thread, and the calls so far, the latest first. What signal.c reads as threads along the list of
-- children (`signals.children`) is memory that is no thread: the operations here leave it open.
pub record World : Type 0 where
  pub signals : Signals
  pub processes : ℕ → Process
  pub details : ℕ → Details
  pub process_table : ℕ → Option ℕ
  pub thread_table : ℕ → Option ℕ
  pub next_pid : ℕ
  pub next_tid : ℕ
  pub reaper_list : List ℕ
  pub reaper_thread : ℕ
  pub calls : List Call

abbrev pub sched : World → Sched
sched w = w.signals.sched

abbrev pub set_sched : Sched → World → World
set_sched s w = record w { signals = with_sched w.signals s }

abbrev pub set_process : ℕ → Process → World → World
set_process p q w = record w { processes = update w.processes p q }

abbrev pub set_details : ℕ → Details → World → World
set_details t d w = record w { details = update w.details t d }

abbrev pub called : Call → World → World
called c w = record w { calls = c ∷ w.calls }

-- `ProcGetProcessByID` and `ProcGetThreadByID`
pub get_process_by_id : ℕ → World → Option ℕ
get_process_by_id pid w = w.process_table pid

pub get_thread_by_id : ℕ → World → Option ℕ
get_thread_by_id tid w = w.thread_table tid

-- The loops that look for an id that is not in the table, from the next one on: the id, and the next
-- one after it. `none` if the fuel does not last.
pub allocate_id : ℕ → (ℕ → Option ℕ) → ℕ → Option (ℕ × ℕ)
allocate_id zero table next = none
allocate_id (suc fuel) table next = elim (table next) [
  | none ↦ some (next, add32 next 1)
  | some a ↦ allocate_id fuel table (add32 next 1)
]

-- The list heads of a process, and the parent, after `ProcCreateProcess`.
abbrev pub new_process : ℕ → Option ℕ → Process
new_process pid parent = record {
  pid = pid;
  parent = parent;
  children = [];
  threads = [];
  zombie = false;
  mem_context = none;
  io_context = none;
}

abbrev pub add_child : Option ℕ → ℕ → World → World
add_child none p w = w
add_child (some q) p w =
    set_process q (record (w.processes q) { children = (w.processes q).children ++ p ∷ [] }) w

-- What the zeroed memory of a process is to the signals.
abbrev pub zero_signals : ℕ → World → World
zero_signals p w = record w {
  signals = record w.signals {
    handlers = update w.signals.handlers p (λ i. record { handler = 0; mask = 0; flags = 0 });
    exit_code = update w.signals.exit_code p 0;
    sched = record w.signals.sched { process_pending = update w.signals.sched.process_pending p 0 };
  };
}

-- `ProcCreateProcess`, at an address.
pub create_process : ℕ → ℕ → Option ℕ → World → Option World
unfolding allocate_id
create_process fuel p parent w = elim (allocate_id fuel w.process_table w.next_pid) [
  | none ↦ none
  | some (pid, next) ↦ some (
      add_child parent p (
        set_process p (new_process pid parent) (
          zero_signals p
            (record w { process_table = update w.process_table pid (some p); next_pid = next }))))
]

-- `PROC_NULL_TLS_DESCRIPTOR`
abbrev pub null_tls_descriptor : ℕ
null_tls_descriptor = 0x0040F20000000000

-- `ProcCreateRawThread` at an address, with the base of its stack and the words at the stack's end.
pub create_thread : ℕ → ℕ → ℕ → ℕ → List ℕ → World → Option World
unfolding allocate_id
create_thread fuel t p stack words w = elim (allocate_id fuel w.thread_table w.next_tid) [
  | none ↦ none
  | some (tid, next) ↦
      let thread : Thread = record {
        state = startup;
        interrupted = 0;
        parent = p;
        kstack_base = stack;
        tls_descriptor = null_tls_descriptor;
        sig_pending = 0;
        sig_blocked = 0;
      } in
      let details : Details = record {
        tid = tid;
        exit_code = 0;
        wait_mode = not_waiting;
        kstack = words;
      } in
      some (
        set_process p (record (w.processes p) { threads = (w.processes p).threads ++ t ∷ [] })
          (set_details t details (
            set_sched (set_thread t thread (sched w))
              (record w { thread_table = update w.thread_table tid (some t); next_tid = next }))))
]

-- `ProcCreateUserThread`; `entry` is the address of `ProcIntUserThreadEntry`.
pub create_user_thread : ℕ → ℕ → ℕ → ℕ → ℕ → ℕ → ℕ → World → Option World
unfolding create_thread
create_user_thread fuel t p stack entry start user_stack w =
    create_thread fuel t p stack
      (0 ∷ 0 ∷ 0 ∷ 0 ∷ entry ∷ 0 ∷ 0 ∷ start ∷ 0x1B ∷ 0x202 ∷ user_stack ∷ 0x23 ∷ []) w

-- `ProcCreateKernelThread`; `return_to` is the address of `ProcIntKernelThreadReturn`.
pub create_kernel_thread : ℕ → ℕ → ℕ → ℕ → ℕ → ℕ → World → Option World
unfolding create_thread
create_kernel_thread fuel t stack return_to start arg w =
    create_thread fuel t 0 stack (0 ∷ 0 ∷ 0 ∷ 0 ∷ start ∷ 0 ∷ 0 ∷ return_to ∷ arg ∷ []) w

-- What `ProcFork` copies to the new process `p` before it creates the thread.
abbrev pub fork_process : ℕ → ℕ → ℕ → World → World
fork_process p mem io w =
    let w' : World = record w {
      signals = record w.signals {
        handlers = update w.signals.handlers p (w.signals.handlers (sched w).current_process);
      };
    } in
    set_process p (record (w'.processes p) { mem_context = some mem; io_context = some io }) w'

-- What it copies to the new thread `t`.
abbrev pub fork_thread : ℕ → World → World
fork_thread t w =
    let s = sched w in
    set_sched
      (set_thread t
        (record (s.threads t) {
          sig_blocked = (s.threads s.current).sig_blocked;
          tls_descriptor = (s.threads s.current).tls_descriptor;
        })
        s)
      w

-- `ProcFork`; `none` where it returns NULL or an id is not found.
pub fork : ℕ → ℕ → ℕ → ℕ → ℕ → ℕ → ℕ → ℕ → ℕ → World → Option World
unfolding create_process create_user_thread
fork fuel p t mem io stack entry start user_stack w =
    if (sched w).current_process == 0
    then none
    else elim (create_process fuel p (some (sched w).current_process) w) [
      | none ↦ none
      | some w1 ↦
          elim (create_user_thread fuel t p stack entry start user_stack
            (fork_process p mem io w1)) [
              | none ↦ none
              | some w2 ↦ let w3 = fork_thread t w2 in some (set_sched (wake_up t (sched w3)) w3)
            ]
    ]
