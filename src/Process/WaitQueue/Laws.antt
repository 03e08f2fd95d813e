-- ===== src/Process/WaitQueue/Laws.antt =====
-- Waking the threads of a wait queue.
use mathlib.Core.List.{append_assoc, append-nil}
use chaff.Prelude.{
  ℕ, ◌≡◌, refl, sym, ap, ◌∙◌, ◌⊎◌, inl, inr, true, false, ◌||◌, List, [], ◌∷◌, ◌++◌, ◌==◌,
  if◌then◌else◌, arith, Bool-cases, All, update,
}
use chaff.Process.Scheduler.{
  Thread, ThreadState, running, intr, unintr, Sched, wake_up, wake_up_sig, enqueue, wake_in,
}
use chaff.Process.Scheduler.Invariant.{member, NoRepeat}
use chaff.Process.WaitQueue.{Waits, wake_all, wake_each}

abbrev pub IsBlocked : ThreadState → Type 0
IsBlocked state = (state ≡ intr) ⊎ (state ≡ unintr)

-- Every waiting thread is blocked.
abbrev pub AllBlocked : (ℕ → Thread) → List ℕ → Type 0
AllBlocked threads = All (λ t. IsBlocked (threads t).state)

-- A blocked thread once it is woken by no signal.
abbrev pub woken : Thread → Thread
woken thread = record thread { interrupted = 0; state = running }

wake_up_lem : (t : ℕ) (s : Sched) → IsBlocked (s.threads t).state → wake_up t s ≡ enqueue t 0 s
unfolding wake_up wake_up_sig wake_in
wake_up_lem t s (inl e) = rw e refl
wake_up_lem t s (inr e) = rw e refl

-- Waking a thread leaves the others of the queue blocked.
AllBlocked-update :
    (threads : ℕ → Thread) (t : ℕ) (thread : Thread) (q : List ℕ)
    → member t q ≡ false
    → AllBlocked threads q
    → AllBlocked (update threads t thread) q
AllBlocked-update threads t thread [] m b = tt
AllBlocked-update threads t thread (x ∷ xs) m b =
    (rw other b.0, AllBlocked-update threads t thread xs (ground arith) b.1)
  where
    other : (t == x) ≡ false
    other = ground arith

wake_each_lem :
    (q : List ℕ) (s : Sched)
    → NoRepeat q
    → AllBlocked s.threads q
    → ((wake_each q s).queue ≡ s.queue ++ q)
      × ((u : ℕ)
          → (wake_each q s).threads u ≡ (if member u q then woken (s.threads u) else s.threads u))
unfolding wake_each
wake_each_lem [] s n b = (sym (append-nil s.queue), λ u. refl)
wake_each_lem (x ∷ xs) s n b =
    let rest = wake_each_lem xs (enqueue x 0 s) n.1 (AllBlocked-update s.threads x _ xs n.0 b.1) in
    rw (wake_each, wake_up_lem x s b.0)
      (rest.0 ∙ append_assoc s.queue (x ∷ []) xs, λ u. rest.1 u ∙ same u)
  where
    same :
        (u : ℕ)
        → (if member u xs then woken ((enqueue x 0 s).threads u) else (enqueue x 0 s).threads u)
          ≡ (if x == u || member u xs then woken (s.threads u) else s.threads u)
    same u = elim (Bool-cases (x == u)) [
      | inl e ↦ ground (arith, ap s.threads (same_thread e), n.0)
      | inr e ↦ rw e refl
    ]
      where
        same_thread : (x == u) ≡ true → x ≡ u
        same_thread e = ground arith

-- On a queue of distinct blocked threads `ProcWaitQueueWakeAll` leaves the queue empty and makes
-- those threads ready behind the ones that were, the oldest first; each of them is ready and told
-- that it was not interrupted, and no other thread changes.
pub wake_all_lem :
    (w : Waits)
    → NoRepeat w.waiters
    → AllBlocked w.sched.threads w.waiters
    → ((wake_all w).waiters ≡ [])
      × ((wake_all w).sched.queue ≡ w.sched.queue ++ w.waiters)
      × ((u : ℕ)
          → (wake_all w).sched.threads u
            ≡ (if member u w.waiters then woken (w.sched.threads u) else w.sched.threads u))
unfolding wake_all
wake_all_lem w n b = let e = wake_each_lem w.waiters w.sched n b in (refl, e.0, e.1)
