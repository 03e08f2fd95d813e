-- ===== src/Process/Scheduler/Order.antt =====
-- `ProcYield` is round robin.
use mathlib.Core.List.{append_assoc, append-nil}
use chaff.Prelude.{ℕ, zero, suc, ◌≡◌, refl, sym, ap, ◌∙◌, List, [], ◌∷◌, ◌++◌, arith, length}
use chaff.Process.Scheduler.{Sched, yield_thread}

-- The threads in the order in which they get the processor.
abbrev pub order : Sched → List ℕ
order s = s.current ∷ s.queue

rotate : List ℕ → List ℕ
rotate [] = []
rotate (x ∷ xs) = xs ++ x ∷ []

order-yield_thread : (s : Sched) → order (yield_thread s) ≡ rotate (order s)
unfolding yield_thread rotate
order-yield_thread s = by_queue s.queue refl
  where
    by_queue : (q : List ℕ) → s.queue ≡ q → order (yield_thread s) ≡ rotate (order s)
    by_queue [] e = rw (e, yield_thread) (ground (arith, e))
    by_queue (x ∷ xs) e = rw (e, yield_thread) (ground (arith, e))

-- `n` calls of `ProcYield`, each by the thread that runs then.
pub yields : ℕ → Sched → Sched
yields zero s = s
yields (suc n) s = yields n (yield_thread s)

rotates : ℕ → List ℕ → List ℕ
rotates zero q = q
rotates (suc n) q = rotates n (rotate q)

order-yields : (n : ℕ) (s : Sched) → order (yields n s) ≡ rotates n (order s)
unfolding yields rotates
order-yields zero s = refl
order-yields (suc n) s = order-yields n (yield_thread s) ∙ ap (rotates n) (order-yield_thread s)

rotates-append : (xs ys : List ℕ) → rotates (length xs) (xs ++ ys) ≡ ys ++ xs
unfolding rotates rotate
rotates-append [] ys = sym (append-nil ys)
rotates-append (x ∷ xs) ys =
    ap (rotates (length xs)) (append_assoc xs ys (x ∷ []))
    ∙ rotates-append xs (ys ++ x ∷ [])
    ∙ append_assoc ys (x ∷ []) xs

-- A thread that has `length xs` others before it in the queue runs after one call of `ProcYield` for
-- each of them and one for the current thread; those behind it are then first in the queue, followed
-- by the old current thread and those that were before it.
pub yields_reach :
    (s : Sched) (xs ys : List ℕ) (t : ℕ)
    → s.queue ≡ xs ++ t ∷ ys
    → order (yields (suc (length xs)) s) ≡ t ∷ ys ++ s.current ∷ xs
yields_reach s xs ys t e =
    order-yields (suc (length xs)) s
    ∙ ap (λ q. rotates (suc (length xs)) (s.current ∷ q)) e
    ∙ rotates-append (s.current ∷ xs) (t ∷ ys)
