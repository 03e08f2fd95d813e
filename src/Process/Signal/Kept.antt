-- ===== src/Process/Signal/Kept.antt =====
-- What sending a signal leaves as it is: the predicates on the scheduler's state that its steps keep.
use chaff.Prelude.{
  ℕ, ◌≡◌, refl, inl, inr, Bool, true, false, not, Option, none, some, List, [], ◌∷◌, ◌==◌,
  if◌then◌else◌, Bool-cases, Option-cases, update, arith, ◌-◌,
}
use chaff.Prelude.Bits.{complement}
use chaff.Process.Scheduler.{
  ThreadState, startup, running, intr, unintr, zombie, Sched, set_thread, wake_up_sig, wake_in,
  enqueue,
}
use chaff.Process.Scheduler.Invariant.{member, member-append}
use chaff.Process.Signal.{
  Signals, with_sched, in_range, is_intr, remote_continue, signal_is_ignored, add_pending, sig_cont,
  sig_kill, sig_stop, sig_cld, send_thread, send_each, continue_each, eligible_intr, send_normal,
  send_process,
}

-- The three changes that sending makes.
pub record IsClosed {ℓ} (P : Sched → Type ℓ) : Type ℓ where
  pub thread_pending :
      (s : Sched) (t set : ℕ)
      → P s
      → P (set_thread t (record (s.threads t) { sig_pending = set }) s)
  pub process_pending :
      (s : Sched) (p set : ℕ)
      → P s
      → P (record s { process_pending = update s.process_pending p set })
  pub wake : (s : Sched) (t : ℕ) → P s → P (wake_up_sig t true s)

if_kept {ℓ} :
    (P : Sched → Type ℓ) (b : Bool) (v w : Signals)
    → P v.sched
    → P w.sched
    → P (if b then v else w).sched
if_kept P true v w h k = h
if_kept P false v w h k = k

module _ {ℓ} (P : Sched → Type ℓ) (closed : IsClosed P) where
  remote_continue-kept : (t : ℕ) (w : Signals) → P w.sched → P (remote_continue t w).sched
  unfolding remote_continue
  remote_continue-kept t w h =
      if_kept P (is_intr (w.sched.threads t).state) _ w
        (closed.wake _ t (closed.thread_pending w.sched t _ h)) h

  pub send_thread-kept : (t num : ℕ) (w : Signals) → P w.sched → P (send_thread t num w).sched
  unfolding send_thread
  send_thread-kept t num w h =
      let pending =
        closed.thread_pending w.sched t (add_pending num (w.sched.threads t).sig_pending) h in
      if_kept P (not (in_range num)) w _ h (
        if_kept P (num == sig_cont) _ _ (remote_continue-kept t w h)
          (if_kept P _ _ w (if_kept P _ _ _ (closed.wake _ t pending) pending) h))

  send_each-kept : (ts : List ℕ) (num : ℕ) (w : Signals) → P w.sched → P (send_each ts num w).sched
  unfolding send_each
  send_each-kept [] num w h = h
  send_each-kept (t ∷ ts) num w h =
      send_each-kept ts num (send_thread t num w) (send_thread-kept t num w h)

  continue_each-kept : (ts : List ℕ) (w : Signals) → P w.sched → P (continue_each ts w).sched
  unfolding continue_each
  continue_each-kept [] w h = h
  continue_each-kept (t ∷ ts) w h =
      continue_each-kept ts (remote_continue t w) (remote_continue-kept t w h)

  send_normal-kept : (p num : ℕ) (w : Signals) → P w.sched → P (send_normal p num w).sched
  unfolding send_normal
  send_normal-kept p num w h =
      let pending = closed.process_pending w.sched p _ h in
      if_kept P (signal_is_ignored w p num) w _ h
        (woken (eligible_intr w.sched.threads num (w.children p) none) _ pending)
    where
      woken :
          (o : Option ℕ) (v : Signals)
          → P v.sched
          → P
              (elim o as (λ x. Signals) [
                | none ↦ v
                | some t ↦ with_sched v (wake_up_sig t true v.sched)
              ]).sched
      woken none v k = k
      woken (some t) v k = closed.wake v.sched t k

  pub send_process-kept : (p num : ℕ) (w : Signals) → P w.sched → P (send_process p num w).sched
  unfolding send_process
  send_process-kept p num w h =
      let killed =
        send_each (w.children p) num
          (record w { exit_code = update w.exit_code p (complement (sig_kill - 1)) }) in
      let stopped = send_each (w.children p) num w in
      let continued = send_normal p num (continue_each (w.children p) w) in
      let normal = send_normal p num w in
      let not_cont = if num == sig_cont then continued else normal in
      let not_stop = if num == sig_stop then stopped else not_cont in
      if_kept P (not (in_range num)) w (if num == sig_kill then killed else not_stop) h (
        if_kept P (num == sig_kill) killed not_stop (send_each-kept (w.children p) num _ h) (
          if_kept P (num == sig_stop) stopped not_cont (send_each-kept (w.children p) num w h) (
            if_kept P (num == sig_cont) continued normal
              (send_normal-kept p num (continue_each (w.children p) w)
                (continue_each-kept (w.children p) w h))
              (send_normal-kept p num w h))))

-- A thread that is ready to run, and on the queue, stays so.
abbrev pub IsReady : ℕ → Sched → Type 0
IsReady t s = ((s.threads t).state ≡ running) × (member t s.queue ≡ true)

IsReady-enqueue : (t u flag : ℕ) (s : Sched) → IsReady t s → IsReady t (enqueue u flag s)
IsReady-enqueue t u flag s (r, m) = (ground (arith, r), rw (member-append t u s.queue, m) refl)

pub IsReady-wake_in :
    (state : ThreadState) (t u : ℕ) (g : Bool) (s : Sched)
    → IsReady t s
    → IsReady t (wake_in state u g s)
unfolding wake_in
IsReady-wake_in startup t u g s h = IsReady-enqueue t u 0 s h
IsReady-wake_in running t u true s h = h
IsReady-wake_in running t u false s h = ground (arith, h)
IsReady-wake_in intr t u true s h = IsReady-enqueue t u 1 s h
IsReady-wake_in intr t u false s h = IsReady-enqueue t u 0 s h
IsReady-wake_in unintr t u true s h = h
IsReady-wake_in unintr t u false s h = IsReady-enqueue t u 0 s h
IsReady-wake_in zombie t u g s h = h

pub IsReady-wake_up_sig :
    (t u : ℕ) (g : Bool) (s : Sched) → IsReady t s → IsReady t (wake_up_sig u g s)
unfolding wake_up_sig
IsReady-wake_up_sig t u g s h = IsReady-wake_in (s.threads u).state t u g s h

IsReady-pending :
    (t u set : ℕ) (s : Sched)
    → IsReady t s
    → IsReady t (set_thread u (record (s.threads u) { sig_pending = set }) s)
IsReady-pending t u set s h = ground (arith, h)

pub IsReady-IsClosed : (t : ℕ) → IsClosed (IsReady t)
IsReady-IsClosed t = record {
  thread_pending = λ s u set h. IsReady-pending t u set s h;
  process_pending = λ s p set h. h;
  wake = λ s u h. IsReady-wake_up_sig t u true s h;
}

-- The current thread and its process stay.
abbrev pub IsCurrent : ℕ → ℕ → Sched → Type 0
IsCurrent t p s = (s.current ≡ t) × (s.current_process ≡ p)

IsCurrent-wake_in :
    (state : ThreadState) (t p u : ℕ) (g : Bool) (s : Sched)
    → IsCurrent t p s
    → IsCurrent t p (wake_in state u g s)
unfolding wake_in
IsCurrent-wake_in startup t p u g s h = h
IsCurrent-wake_in running t p u true s h = h
IsCurrent-wake_in running t p u false s h = h
IsCurrent-wake_in intr t p u g s h = h
IsCurrent-wake_in unintr t p u true s h = h
IsCurrent-wake_in unintr t p u false s h = h
IsCurrent-wake_in zombie t p u g s h = h

pub IsCurrent-IsClosed : (t p : ℕ) → IsClosed (IsCurrent t p)
unfolding wake_up_sig
IsCurrent-IsClosed t p = record {
  thread_pending = λ s u set h. h;
  process_pending = λ s q set h. h;
  wake = λ s u h. IsCurrent-wake_in (s.threads u).state t p u true s h;
}

-- SIGCLD changes no exit code.
pub exit_code-send_cld : (p : ℕ) (w : Signals) → (send_process p sig_cld w).exit_code ≡ w.exit_code
unfolding send_process send_normal
exit_code-send_cld p w = elim (Bool-cases (signal_is_ignored w p sig_cld)) [
  | inl e ↦ rw (e, send_process) refl
  | inr e ↦ elim (Option-cases (eligible_intr w.sched.threads sig_cld (w.children p) none)) [
    | inl n ↦ rw (e, send_process) (rw n refl)
    | inr (t, n) ↦ rw (e, send_process) (rw n refl)
  ]
]
