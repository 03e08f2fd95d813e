-- ===== src/Process/Signal/Tests.antt =====
-- Runs of signal.c, and the theorems at such runs.
use Prim.Native.Nat.{bit_and, bit_or}
use chaff.Prelude.{
  ℕ, ◌^◌, ◌≡◌, refl, true, false, ◌&&◌, some, [], ◌∷◌, ◌==◌, if◌then◌else◌, arith, add32, sub32,
}
use chaff.Prelude.Bits.{has_bit, complement, lowest_bit}
use chaff.Process.Scheduler.{Thread, ThreadState, running, intr, signal_is_pending}
use chaff.Process.Signal.{Signals, Action, signal_is_ignored, send_thread, is_intr}
use chaff.Process.Signal.Send.{accepts, send_thread_lem}
use chaff.Process.Signal.Handler.{signal_handler, suspends, exits_process, deliverable}
use chaff.Process.Signal.Deliver.{Allowed, signal_handler-Allowed}
use chaff.Process.Signal.Frame.{
  Context, returned, handle_custom, signal_return, store_words, frame_words, word_at,
  signal_return-handle_custom,
}

abbrev thread : ThreadState → ℕ → Thread
thread state pending = record {
  state = state;
  interrupted = 0;
  parent = 70;
  kstack_base = 0x8000;
  tls_descriptor = 5;
  sig_pending = pending;
  sig_blocked = 0;
}

-- Thread 4 waits. Thread 1 runs, and has SIGINT pending.
abbrev threads : ℕ → Thread
threads t = if t == 4 then thread intr 0 else thread running 2

-- Process 70 handles SIGUSR1 by a function; every other action is the default.
abbrev handlers : ℕ → ℕ → Action
handlers p index = record { handler = if index == 9 then 0x4000 else 0; mask = 0; flags = 0 }

abbrev interrupted : Signals
interrupted = record {
  sched = record {
    threads = threads;
    process_pending = λ _. 0;
    queue = 2 ∷ [];
    current = 1;
    current_process = 70;
    idle = 9;
    quantum = 4;
    esp0 = 0x9000;
    tls = 5;
    address_space = 70;
  };
  handlers = handlers;
  exit_code = λ _. 0;
  children = λ _. 1 ∷ [];
}

-- SIGINT, signal 2, suspends the thread.
interrupt_suspends : (signal_handler true 0x1B interrupted).1 ≡ suspends
unfolding signal_handler
interrupt_suspends = refl

abbrev ignoring : Action
ignoring = record { handler = 1; mask = 0xFFFFFFFF; flags = 0 }

send_thread_lem_example :
    let w' = send_thread 4 2 interrupted in
    (has_bit (w'.sched.threads 4).sig_pending 1 ≡ true)
    × (w'.sched.queue ≡ (
        if accepts interrupted 4 2 && (is_intr (threads 4).state && signal_is_pending w'.sched 4)
        then 2 ∷ 4 ∷ []
        else 2 ∷ []))
    × ((w'.sched.threads 4).state ≡ (
        if accepts interrupted 4 2 && (is_intr (threads 4).state && signal_is_pending w'.sched 4)
        then running
        else intr))
unfolding signal_is_ignored
send_thread_lem_example =
    send_thread_lem interrupted 4 2 1 (λ e. absurd (omega (arith, e))) (omega arith)

-- Thread 1 has SIGUSR1 pending in place of SIGINT, and its stack fails the check.
abbrev without_stack : Signals
without_stack = record interrupted {
  sched = record interrupted.sched { threads = λ t. thread running 0x200 };
}

without_stack-crashes : (signal_handler false 0x1B without_stack).1 ≡ exits_process 11
unfolding signal_handler lowest_bit
without_stack-crashes = refl

signal_handler-Allowed_example :
    Allowed false
      (handlers 70)
      (deliverable without_stack)
      (signal_handler false 0x1B without_stack).1
signal_handler-Allowed_example = signal_handler-Allowed false 0x1B without_stack

abbrev program : Context
program = record {
  edi = 1;
  esi = 2;
  ebp = 3;
  ebx = 4;
  edx = 5;
  ecx = 6;
  eax = 7;
  eip = 0x3000;
  cs = 0x1B;
  eflags = 0x602;
  esp = 0xBFFF0000;
}

abbrev clobbered : Context
clobbered = record program { eax = 0xEE; ebx = 99; eflags = 0x202 }

abbrev memory : ℕ → ℕ
memory a = 0

signal_return-handle_custom_example :
    let stack = sub32 program.esp 56 in
    let memory' = store_words stack (frame_words program stack 10) memory in
    (handle_custom true program 0x4000 10 memory
      ≡ some (
        record program {
          esp = stack;
          eip = 0x4000;
          eflags = bit_and program.eflags (complement (2 ^ 10));
        },
        memory',
      ))
    × (memory' stack ≡ word_at stack 2)
    × (memory' (word_at stack 1) ≡ 10)
    × (signal_return true (record clobbered { cs = 0x1B; esp = add32 stack 8 }) memory'
        ≡ returned
            (record program { cs = 0x1B; eflags = bit_or (bit_and program.eflags 0xCFF) 0x200 }))
signal_return-handle_custom_example = signal_return-handle_custom program clobbered 0x4000 10 memory
