-- ===== src/Process/Signal/Suspend.antt =====
-- kernel/src/process/signal.c: `SuspendSelf`.
use Prim.Native.Nat.{bit_and, bit_or}
use chaff.Prelude.{
  ℕ, zero, suc, ◌^◌, ◌≤◌, ◌<◌, ◌≡◌, ◌≢◌, refl, ap, ◌∙◌, Bool, true, false, not, ◌&&◌, ◌||◌, ◌==◌,
  if◌then◌else◌, arith,
}
use chaff.Prelude.Bits.{
  has_bit, complement, has_bit-bit_and, has_bit-bit_or, has_bit-complement, has_bit-nonzero,
  has_bit-pow, has_bit-zero, bits_ext,
}
use chaff.Process.Scheduler.{Thread, yield_block, signal_is_pending}
use chaff.Process.Signal.{
  Signals, set_all, new_mask, set_mask, signal_bit, sig_kill, sig_cont, sig_stop, meets,
  set_pending, with_sched,
}
use chaff.Process.Signal.Masks.{has_bit-unblockable}

-- The thread has been switched away, goes on, or would not have come to either with this fuel.
pub data Suspension : Type 0 where
  blocked : Signals → Suspension
  leaves : Signals → Suspension
  unfinished : Suspension

-- The first part of `SuspendSelf`, by the current thread.
pub suspend_start : Signals → Signals
suspend_start w = set_mask w.sched.current set_all (complement (signal_bit sig_cont)) w

-- A turn of the loop from the return of `ProcYieldBlock` on: SIGSTOP is ignored, and whether the loop
-- ends.
pub after_block : ℕ → Signals → Signals × Bool
after_block t w =
    let pending = bit_and (w.sched.threads t).sig_pending (complement (signal_bit sig_stop)) in
    (set_pending t pending w, meets pending (bit_or (signal_bit sig_kill) (signal_bit sig_cont)))

-- The loop, for as long as `ProcYieldBlock` returns at once.
pub suspend_loop : ℕ → Signals → Suspension
unfolding after_block
suspend_loop zero w = unfinished
suspend_loop (suc fuel) w =
    let yielded = yield_block w.sched true in
    let turn = after_block w.sched.current w in
    let rest = suspend_loop fuel turn.0 in
    if yielded.1 then if turn.1 then leaves turn.0 else rest else blocked (with_sched w yielded.0)

-- The last part, with the mask that the thread had.
pub suspend_end : ℕ → ℕ → Signals → Signals
suspend_end t mask_before w = set_mask t set_all mask_before w

-- A signal other than SIGSTOP is pending that blocking does not keep from the thread, and neither
-- SIGKILL (bit 8) nor SIGCONT (bit 17) is among the thread's.
pub record SpinsOn (thread : Thread) (process_pending i : ℕ) : Type 0 where
  pub mask_fits : thread.sig_blocked ≤ 0xFFFFFFFF
  pub is_pending : (has_bit thread.sig_pending i || has_bit process_pending i) ≡ true
  pub is_open : has_bit thread.sig_blocked i ≡ false
  pub no_kill : has_bit thread.sig_pending 8 ≡ false
  pub no_cont : has_bit thread.sig_pending 17 ≡ false

abbrev pub Spins : Signals → ℕ → Type 0
Spins w i =
    SpinsOn (w.sched.threads w.sched.current)
      (w.sched.process_pending (w.sched.threads w.sched.current).parent) i

no_meeting :
    (set : ℕ)
    → has_bit set 8 ≡ false
    → has_bit set 17 ≡ false
    → meets set (bit_or (signal_bit sig_kill) (signal_bit sig_cont)) ≡ false
no_meeting set k c = rw (bits_ext _ 0 bit) refl
  where
    bit : (i : ℕ) → has_bit (bit_and set (bit_or (2 ^ 8) (2 ^ 17))) i ≡ has_bit 0 i
    bit i =
        has_bit-bit_and i set _
        ∙ rw (has_bit-bit_or i (2 ^ 8) (2 ^ 17), has_bit-pow 8 i, has_bit-pow 17 i, has_bit-zero i)
            (ground (arith, ap (has_bit set), k, c))

has_bit-no_stop :
    (set i : ℕ)
    → i < 32
    → has_bit (bit_and set (complement (signal_bit sig_stop))) i ≡ (has_bit set i && not (18 == i))
has_bit-no_stop set i h =
    has_bit-bit_and i set _
    ∙ rw (has_bit-complement i (2 ^ 18) h (omega arith), has_bit-pow 18 i) refl

yield_block-Spins : (w : Signals) (i : ℕ) → i < 32 → Spins w i → (yield_block w.sched true).1 ≡ true
unfolding yield_block signal_is_pending
yield_block-Spins w i h v = rw (has_bit-nonzero _ i bit) refl
  where
    thread : Thread
    thread = w.sched.threads w.sched.current

    bit :
        has_bit
          (bit_and
            (bit_or thread.sig_pending (w.sched.process_pending thread.parent))
            (complement thread.sig_blocked))
          i
        ≡ true
    bit =
        has_bit-bit_and i _ _
        ∙ rw
            (
              has_bit-bit_or i thread.sig_pending _,
              has_bit-complement i _ h v.mask_fits,
              v.is_pending,
              v.is_open,
            )
            refl

after_block-Spins :
    (w : Signals) (i : ℕ)
    → i < 32
    → i ≢ 18
    → Spins w i
    → Spins (after_block w.sched.current w).0 i × ((after_block w.sched.current w).1 ≡ false)
unfolding after_block
after_block-Spins w i h n v = rw same (
  record {
    mask_fits = v.mask_fits;
    is_pending = rw (no_stop i h) (ground (arith, v.is_pending));
    is_open = v.is_open;
    no_kill = no_stop 8 (omega arith) ∙ rw v.no_kill refl;
    no_cont = no_stop 17 (omega arith) ∙ rw v.no_cont refl;
  },
  no_meeting _ (no_stop 8 (omega arith) ∙ rw v.no_kill refl)
      (no_stop 17 (omega arith) ∙ rw v.no_cont refl),
)
  where
    same : (w.sched.current == w.sched.current) ≡ true
    same = ground arith

    no_stop :
        (j : ℕ)
        → j < 32
        → has_bit
            (bit_and
              (w.sched.threads w.sched.current).sig_pending
              (complement (signal_bit sig_stop)))
            j
          ≡ (has_bit (w.sched.threads w.sched.current).sig_pending j && not (18 == j))
    no_stop = has_bit-no_stop _

suspend_loop-Spins :
    (fuel : ℕ) (w : Signals) (i : ℕ)
    → i < 32
    → i ≢ 18
    → Spins w i
    → suspend_loop fuel w ≡ unfinished
unfolding suspend_loop
suspend_loop-Spins zero w i h n v = refl
suspend_loop-Spins (suc fuel) w i h n v =
    let turn = after_block-Spins w i h n v in
    rw (yield_block-Spins w i h v, turn.1)
      (suspend_loop-Spins fuel (after_block w.sched.current w).0 i h n turn.0)

-- `SuspendSelf` by a thread for which a signal is pending, among its own or its process's, that is
-- not SIGKILL or SIGSTOP, while neither SIGKILL nor SIGCONT is among its own: since the mask that it sets
-- blocks only SIGKILL and SIGSTOP, `ProcYieldBlock` returns at once every time, so that however many
-- turns the loop is given, the thread neither blocks nor goes on.
pub suspend_self_spins :
    (fuel : ℕ) (w : Signals) (i : ℕ)
    → let thread = w.sched.threads w.sched.current in
      i < 32
      → i ≢ 8
      → i ≢ 18
      → (has_bit thread.sig_pending i || has_bit (w.sched.process_pending thread.parent) i) ≡ true
      → has_bit thread.sig_pending 8 ≡ false
      → has_bit thread.sig_pending 17 ≡ false
      → suspend_loop fuel (suspend_start w) ≡ unfinished
unfolding suspend_start set_mask new_mask
suspend_self_spins fuel w i h k s p nk nc = suspend_loop-Spins fuel (suspend_start w) i h s (
    rw same (record {
      mask_fits = omega arith;
      is_pending = p;
      is_open = has_bit-unblockable i ∙ ground (arith, k, s);
      no_kill = nk;
      no_cont = nc;
    }))
  where
    same : (w.sched.current == w.sched.current) ≡ true
    same = ground arith
