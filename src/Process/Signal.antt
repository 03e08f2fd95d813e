-- ===== src/Process/Signal.antt =====
-- kernel/src/process/signal.c: signal masks, sending and handling. A set of signals is a number of 32
-- bits, in which signal n has bit n - 1. The threads that a walk over a process's `children` gives
-- are a function of the process, since the code takes the entries of that list for threads.
pub mod Masks
pub mod Send
pub mod Kept
pub mod Handler
pub mod Deliver
pub mod Suspend
pub mod Frame
mod Tests
use Prim.Native.Nat.{bit_and, bit_or}
use chaff.Prelude.{
  ℕ, zero, suc, ◌+◌, ◌-◌, ◌/◌, ◌%◌, ◌^◌, Bool, true, false, not, ◌&&◌, ◌||◌, Option, none, some,
  List, [], ◌∷◌, ltb, leb, ◌==◌, if◌then◌else◌, update,
}
use chaff.Prelude.Bits.{complement}
use chaff.Process.Scheduler.{
  Thread, ThreadState, startup, running, intr, unintr, zombie, Sched, set_thread, wake_up_sig,
  yield_block, signal_is_pending,
}

-- `ProcSigaction`; the handler is an address, or 0 for SIG_DFL and 1 for SIG_IGN.
pub record Action : Type 0 where
  pub handler : ℕ
  pub mask : ℕ
  pub flags : ℕ

-- The threads and the scheduler, and of each process `sigHandlers` by index, the exit code, and the
-- threads that a walk over `children` gives.
pub record Signals : Type 0 where
  pub sched : Sched
  pub handlers : ℕ → ℕ → Action
  pub exit_code : ℕ → ℕ
  pub children : ℕ → List ℕ

abbrev pub sig_kill : ℕ
sig_kill = 9

abbrev pub sig_segv : ℕ
sig_segv = 11

abbrev pub sig_cld : ℕ
sig_cld = 17

abbrev pub sig_cont : ℕ
sig_cont = 18

abbrev pub sig_stop : ℕ
sig_stop = 19

abbrev pub sig_tstp : ℕ
sig_tstp = 20

abbrev pub sig_ttin : ℕ
sig_ttin = 21

abbrev pub sig_ttou : ℕ
sig_ttou = 22

abbrev pub sig_max : ℕ
sig_max = 32

-- `1 << SIGNAL_INDEX(num)`
abbrev pub signal_bit : ℕ → ℕ
signal_bit num = 2 ^ (num - 1)

-- Whether any bit of a mask is set.
abbrev pub meets : ℕ → ℕ → Bool
meets set mask = not (bit_and set mask == 0)

abbrev pub in_range : ℕ → Bool
in_range num = ltb 0 num && leb num sig_max

abbrev pub with_sched : Signals → Sched → Signals
with_sched w s = record w { sched = s }

-- Assignments to a thread's `sigPending` and `sigBlocked`, and a process's `sigPending`.
abbrev pub set_pending : ℕ → ℕ → Signals → Signals
set_pending t set w =
    with_sched w (set_thread t (record (w.sched.threads t) { sig_pending = set }) w.sched)

abbrev pub set_blocked : ℕ → ℕ → Signals → Signals
set_blocked t set w =
    with_sched w (set_thread t (record (w.sched.threads t) { sig_blocked = set }) w.sched)

abbrev pub set_process_pending : ℕ → ℕ → Signals → Signals
set_process_pending p set w =
    with_sched w (record w.sched { process_pending = update w.sched.process_pending p set })

pub is_running : ThreadState → Bool
is_running startup = false
is_running running = true
is_running intr = false
is_running unintr = false
is_running zombie = false

unfoldable pub is_intr : ThreadState → Bool
is_intr startup = false
is_intr running = false
is_intr intr = true
is_intr unintr = false
is_intr zombie = false

-- `RemoteContinueThread`
pub remote_continue : ℕ → Signals → Signals
unfolding is_intr
remote_continue t w =
    let pending = bit_or (w.sched.threads t).sig_pending (signal_bit sig_cont) in
    let suspends =
      bit_or (bit_or (signal_bit sig_stop) (signal_bit sig_tstp))
        (bit_or (signal_bit sig_ttin) (signal_bit sig_ttou)) in
    let w' = set_pending t (bit_and pending (complement suspends)) w in
    if is_intr (w.sched.threads t).state then with_sched w' (wake_up_sig t true w'.sched) else w

-- `SignalIsIgnored`
pub signal_is_ignored : Signals → ℕ → ℕ → Bool
signal_is_ignored w p num =
    let handler = (w.handlers p (num - 1)).handler in
    handler == 1 || (handler == 0 && (num == sig_cont || num == sig_cld))

-- The thread's new `sigPending` in `ProcSignalSendThread`.
pub add_pending : ℕ → ℕ → ℕ
add_pending num pending =
    let set = bit_or pending (signal_bit num) in
    if num == sig_stop then bit_and set (complement (signal_bit sig_cont)) else set

-- `ProcSignalSendThread`
pub send_thread : ℕ → ℕ → Signals → Signals
unfolding remote_continue signal_is_ignored add_pending is_intr
send_thread t num w =
    let w' = set_pending t (add_pending num (w.sched.threads t).sig_pending) w in
    if not (in_range num)
    then w
    else if num == sig_cont
    then remote_continue t w
    else if not (signal_is_ignored w (w.sched.threads t).parent num)
        || num == sig_kill
        || num == sig_stop
    then if is_intr (w.sched.threads t).state && signal_is_pending w'.sched t
      then with_sched w' (wake_up_sig t true w'.sched)
      else w'
    else w

pub send_each : List ℕ → ℕ → Signals → Signals
unfolding send_thread
send_each [] num w = w
send_each (t ∷ ts) num w = send_each ts num (send_thread t num w)

pub continue_each : List ℕ → Signals → Signals
unfolding remote_continue
continue_each [] w = w
continue_each (t ∷ ts) w = continue_each ts (remote_continue t w)

-- The first thread found stays.
abbrev pub found_first : ℕ → Option ℕ → Option ℕ
found_first t none = some t
found_first t (some u) = some u

-- The loop for `eligibleIntr`. The shift count of `1 << sigNum` is taken modulo 32, as by the
-- processor.
pub eligible_intr : (ℕ → Thread) → ℕ → List ℕ → Option ℕ → Option ℕ
unfolding is_running is_intr
eligible_intr threads num [] found = found
eligible_intr threads num (t ∷ ts) found =
    let rest =
      eligible_intr threads num ts
        (if is_intr (threads t).state then found_first t found else found) in
    let past = eligible_intr threads num ts found in
    if meets (threads t).sig_blocked (2 ^ (num % 32))
    then past
    else if is_running (threads t).state
    then found
    else rest

-- The part of `ProcSignalSendProcess` under "Normal process signal".
pub send_normal : ℕ → ℕ → Signals → Signals
unfolding signal_is_ignored eligible_intr
send_normal p num w =
    let w' = set_process_pending p (bit_or (w.sched.process_pending p) (signal_bit num)) w in
    if signal_is_ignored w p num
    then w
    else elim (eligible_intr w.sched.threads num (w.children p) none) [
      | none ↦ w'
      | some t ↦ with_sched w' (wake_up_sig t true w'.sched)
    ]

-- `ProcSignalSendProcess`
pub send_process : ℕ → ℕ → Signals → Signals
unfolding send_each continue_each send_normal
send_process p num w =
    if not (in_range num)
    then w
    else if num == sig_kill
    then send_each (w.children p) num
        (record w { exit_code = update w.exit_code p (complement (sig_kill - 1)) })
    else if num == sig_stop
    then send_each (w.children p) num w
    else if num == sig_cont
    then send_normal p num (continue_each (w.children p) w)
    else send_normal p num w

-- `SIG_BLOCK`, `SIG_UNBLOCK`, `SIG_SETMASK`, and any other number.
pub data How : Type 0 where
  block unblock set_all other : How

pub new_mask : How → ℕ → ℕ → ℕ
new_mask block set blocked = bit_or blocked set
new_mask unblock set blocked = bit_and blocked (complement set)
new_mask set_all set blocked = set
new_mask other set blocked = blocked

abbrev pub unblockable : ℕ
unblockable = bit_or (signal_bit sig_kill) (signal_bit sig_stop)

-- `ProcSignalSetMask`
pub set_mask : ℕ → How → ℕ → Signals → Signals
unfolding new_mask
set_mask t how set w =
    set_blocked t (bit_and (new_mask how set (w.sched.threads t).sig_blocked) unblockable) w

-- `sigPending &= mask` on the threads of a list.
pub mask_each : ℕ → List ℕ → Signals → Signals
mask_each mask [] w = w
mask_each mask (t ∷ ts) w =
    mask_each mask ts (set_pending t (bit_and (w.sched.threads t).sig_pending mask) w)

-- `ProcSignalSetAction`
pub set_action : ℕ → ℕ → Action → Signals → Signals
unfolding signal_is_ignored mask_each
set_action p num action w =
    let stored = record action { mask = bit_and action.mask unblockable } in
    let w' = record w { handlers = update w.handlers p (update (w.handlers p) (num - 1) stored) } in
    let mask = complement (signal_bit num) in
    let w'' = set_process_pending p (bit_and (w'.sched.process_pending p) mask) w' in
    if not (in_range num)
    then w
    else if signal_is_ignored w' p num
    then mask_each mask (w'.children p) w''
    else w'
