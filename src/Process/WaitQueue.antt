-- ===== src/Process/WaitQueue.antt =====
-- kernel/src/process/waitqueue.c: threads waiting for an event, oldest first. `linked` is what the
-- link in the thread says: whether it stands on the queue.
pub mod Laws
mod Tests
use chaff.Prelude.{ℕ, Bool, true, false, List, [], ◌∷◌, ◌++◌, ◌==◌, if◌then◌else◌}
use chaff.Process.Scheduler.{Sched, yield_block, block_result, wake_up}

pub record Waits : Type 0 where
  pub sched : Sched
  pub waiters : List ℕ

-- `ListDeleteInit` of a thread's link; a link that is on no queue stays as it is.
pub unwait : ℕ → List ℕ → List ℕ
unwait t [] = []
unwait t (x ∷ xs) = if x == t then xs else x ∷ unwait t xs

-- `ProcWaitQueueWait` by the current thread, up to the switch in `ProcYieldBlock`; if that returns
-- at once, to the end. The flag says which.
pub wait_start : Waits → Bool → Waits × Bool
unfolding unwait
wait_start w interruptable =
    let (s, at_once) = yield_block w.sched interruptable in
    let waiters = w.waiters ++ w.sched.current ∷ [] in
    (
      record { sched = s; waiters = if at_once then unwait w.sched.current waiters else waiters },
      at_once,
    )

-- The rest of it, when thread `t` goes on: the result of the wait, and the queue without the thread.
pub wait_end : Waits → ℕ → Waits × Bool
unfolding unwait
wait_end w t = (record w { waiters = unwait t w.waiters }, block_result w.sched t)

-- `ProcWaitQueueWakeOne`
pub wake_one : Waits → Waits × Bool
wake_one w = elim w.waiters [
  | [] ↦ (w, false)
  | t ∷ ts ↦ (record { sched = wake_up t w.sched; waiters = ts }, true)
]

-- The loop of `ProcWaitQueueWakeAll`.
unfoldable pub wake_each : List ℕ → Sched → Sched
wake_each [] s = s
wake_each (t ∷ ts) s = wake_each ts (wake_up t s)

-- `ProcWaitQueueWakeAll`
unfoldable pub wake_all : Waits → Waits
unfolding wake_each
wake_all w = record { sched = wake_each w.waiters w.sched; waiters = [] }
