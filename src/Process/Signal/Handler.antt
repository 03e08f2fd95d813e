-- ===== src/Process/Signal/Handler.antt =====
-- kernel/src/process/signal.c: `ProcSignalHandler` by the current thread, up to what it calls and does
-- not come back from, and `ProcSignalSendOrCrash`. After `SuspendSelf` it begins anew. `committed` is
-- what `MemCommitUserForWrite` returns for the user stack in `HandleCustomSignal`.
use Prim.Native.Nat.{bit_and, bit_or}
use chaff.Prelude.{Bool, ℕ, zero, suc, ◌+◌, ◌-◌, not, ◌||◌, ◌==◌, if◌then◌else◌}
use chaff.Prelude.Bits.{complement, lowest_bit}
use chaff.Process.Signal.{
  Signals, Action, meets, signal_bit, sig_kill, sig_segv, sig_stop, sig_cld, sig_cont, sig_tstp,
  sig_ttin, sig_ttou, set_pending, set_process_pending, send_process, send_thread,
  signal_is_ignored,
}

-- How the handler ends: it returns to the program, `ProcExitThread`, `ProcExitProcess` with the
-- negative of a signal, `SuspendSelf`, `HandleCustomSignal` past its check of the stack, or not with
-- this fuel.
pub data Outcome : Type 0 where
  returns : Outcome
  exits_thread : Outcome
  exits_process : ℕ → Outcome
  suspends : Outcome
  calls : Action → ℕ → Outcome
  unfinished : Outcome

-- `BitScanForward`
abbrev pub bit_scan_forward : ℕ → ℕ
bit_scan_forward set = lowest_bit 32 set

-- The signal is no longer pending for the thread and its process.
unfoldable pub clear_signal : ℕ → Signals → Signals
clear_signal num w =
    let mask = complement (signal_bit num) in
    let w' =
      set_pending w.sched.current (bit_and (w.sched.threads w.sched.current).sig_pending mask) w in
    set_process_pending w.sched.current_process
      (bit_and (w'.sched.process_pending w.sched.current_process) mask) w'

-- The default actions: `none` in place of an outcome is to go on with the next signal.
pub data Default : Type 0 where
  ignore suspend terminate : Default

pub default_action : ℕ → Default
default_action num =
    if num == sig_cld || num == sig_cont
    then ignore
    else if num == sig_tstp || (num == sig_ttin || num == sig_ttou)
    then suspend
    else terminate

-- The inner switch, for a signal that is no longer pending; `continues` is what the loop comes to if
-- it goes on, and `sent` the state with the signal sent to the whole process if it is a process's.
unfoldable pub act_default : Default → Signals × Outcome → Signals → Signals → ℕ → Signals × Outcome
act_default ignore continues w sent num = continues
act_default suspend continues w sent num = (sent, suspends)
act_default terminate continues w sent num = (w, exits_process num)

-- The outer switch, with the check at the start of `HandleCustomSignal`.
unfoldable pub act : Bool → Signals × Outcome → Action → ℕ → Signals → Signals → Signals × Outcome
unfolding act_default
act committed continues action num w sent =
    if action.handler == 1
    then continues
    else if action.handler == 0
    then act_default (default_action num) continues w sent num
    else if committed
    then (w, calls action num)
    else (w, exits_process sig_segv)

-- The do loop.
unfoldable pub handle_from : Bool → ℕ → ℕ → Signals → Signals × Outcome
unfolding clear_signal act
handle_from committed zero set w = (w, unfinished)
handle_from committed (suc fuel) set w =
    let num = bit_scan_forward set + 1 in
    let set' = bit_and set (complement (signal_bit num)) in
    let w' = clear_signal num w in
    let p = w.sched.current_process in
    let next = handle_from committed fuel set' w' in
    act committed (if set' == 0 then (w', returns) else next) (w.handlers p (num - 1)) num w'
      (if meets (w'.sched.process_pending p) (signal_bit num) then send_process p num w' else w')

-- The signals that are pending for the current thread and not blocked.
abbrev pub deliverable : Signals → ℕ
deliverable w =
    bit_and
      (bit_or (w.sched.threads w.sched.current).sig_pending
        (w.sched.process_pending w.sched.current_process))
      (complement (w.sched.threads w.sched.current).sig_blocked)

-- `ProcSignalHandler`, with the code segment of the interrupted program. The sets that it tests for
-- SIGKILL and SIGSTOP are the signals' indices.
unfoldable pub signal_handler : Bool → ℕ → Signals → Signals × Outcome
unfolding handle_from
signal_handler committed cs w =
    let set = deliverable w in
    if not (cs == 0x1B)
    then (w, returns)
    else if set == 0
    then (w, returns)
    else if meets set (sig_kill - 1)
    then (w, exits_thread)
    else if meets set (sig_stop - 1)
    then (w, suspends)
    else handle_from committed 32 set w

-- `ProcSignalSendOrCrash`
pub send_or_crash : ℕ → Signals → Signals × Outcome
send_or_crash num w =
    if signal_is_ignored w w.sched.current_process num
      || meets (signal_bit num) (w.sched.threads w.sched.current).sig_blocked
    then (w, exits_process num)
    else (send_thread w.sched.current num w, returns)
