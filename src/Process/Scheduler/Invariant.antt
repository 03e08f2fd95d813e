-- ===== src/Process/Scheduler/Invariant.antt =====
-- The thread queue holds each thread that is ready to run once, and not the one that runs.
use chaff.Prelude.{
  ℕ, ◌≡◌, ◌≢◌, refl, subst, ◌⊎◌, inl, inr, Bool, true, false, ◌||◌, List, [], ◌∷◌, ◌++◌, ◌==◌,
  arith, Bool-cases, All, update,
}
use chaff.Process.Scheduler.{Thread, running, Sched, next_thread, do_schedule}

abbrev pub member : ℕ → List ℕ → Bool
member t [] = false
member t (x ∷ xs) = x == t || member t xs

abbrev pub NoRepeat : List ℕ → Type 0
NoRepeat [] = Unit
NoRepeat (x ∷ xs) = (member x xs ≡ false) × NoRepeat xs

abbrev pub AllRunning : (ℕ → Thread) → List ℕ → Type 0
AllRunning threads = All (λ t. (threads t).state ≡ running)

-- The queued threads are ready, each stands in the queue once, and the idle thread (which only
-- calls `ProcDoSchedule`) is never made ready.
pub record QueueOk (threads : ℕ → Thread) (idle : ℕ) (queue : List ℕ) : Type 0 where
  pub ready : AllRunning threads queue
  pub once : NoRepeat queue
  pub parked : (threads idle).state ≢ running

-- Moreover the current thread is not queued, and is ready if it is not the idle thread.
pub record AllOk (threads : ℕ → Thread) (idle : ℕ) (queue : List ℕ) (current : ℕ) : Type 0 where
  pub queued : QueueOk threads idle queue
  pub out : member current queue ≡ false
  pub current_ready : (current ≡ idle) ⊎ ((threads current).state ≡ running)

abbrev pub IsQueued : Sched → Type 0
IsQueued s = QueueOk s.threads s.idle s.queue

abbrev pub IsSound : Sched → Type 0
IsSound s = AllOk s.threads s.idle s.queue s.current

pub threads-do_schedule : (s : Sched) → (do_schedule s).threads ≡ s.threads
unfolding do_schedule
threads-do_schedule s = ground arith

idle-do_schedule : (s : Sched) → (do_schedule s).idle ≡ s.idle
unfolding do_schedule
idle-do_schedule s = ground arith

pub queue-do_schedule : (s : Sched) → (do_schedule s).queue ≡ (next_thread s.idle s.queue).1
unfolding do_schedule
queue-do_schedule s = ground arith

pub current-do_schedule : (s : Sched) → (do_schedule s).current ≡ (next_thread s.idle s.queue).0
unfolding do_schedule
current-do_schedule s = ground arith

next_thread-AllOk :
    (threads : ℕ → Thread) (idle : ℕ) (q : List ℕ)
    → QueueOk threads idle q
    → AllOk threads idle (next_thread idle q).1 (next_thread idle q).0
unfolding next_thread
next_thread-AllOk threads idle [] v = record { queued = v; out = refl; current_ready = inl refl }
next_thread-AllOk threads idle (x ∷ xs) v = record {
  queued = record { ready = v.ready.1; once = v.once.1; parked = v.parked };
  out = v.once.0;
  current_ready = inr v.ready.0;
}

-- `ProcDoSchedule` makes a sound state of any whose queue is in order, whatever the old thread is.
pub do_schedule-IsSound : (s : Sched) → IsQueued s → IsSound (do_schedule s)
do_schedule-IsSound s v =
    rw (threads-do_schedule s, idle-do_schedule s, queue-do_schedule s, current-do_schedule s)
      (next_thread-AllOk s.threads s.idle s.queue v)

-- A thread that is not ready is not queued.
pub member-AllRunning :
    (threads : ℕ → Thread) (t : ℕ) (q : List ℕ)
    → AllRunning threads q
    → (threads t).state ≢ running
    → member t q ≡ false
member-AllRunning threads t [] r n = refl
member-AllRunning threads t (x ∷ xs) r n = elim (Bool-cases (x == t)) [
  | inl b ↦ absurd (n (subst (λ i. (threads i).state ≡ running) (eq b) r.0))
  | inr b ↦ rw b (member-AllRunning threads t xs r.1 n)
]
  where
    eq : (x == t) ≡ true → x ≡ t
    eq b = ground arith

pub member-append : (t u : ℕ) (q : List ℕ) → member t (q ++ u ∷ []) ≡ (member t q || u == t)
member-append t u [] = ground arith
member-append t u (x ∷ xs) = ground (arith, member-append t u xs)

pub NoRepeat-append :
    (u : ℕ) (q : List ℕ) → NoRepeat q → member u q ≡ false → NoRepeat (q ++ u ∷ [])
NoRepeat-append u [] n m = (refl, tt)
NoRepeat-append u (x ∷ xs) n m =
    (ground (arith, member-append x u xs, n.0), NoRepeat-append u xs n.1 (ground arith))

All-append {ℓ} : (P : ℕ → Type ℓ) (u : ℕ) (q : List ℕ) → All P q → P u → All P (q ++ u ∷ [])
All-append P u [] a p = (p, tt)
All-append P u (x ∷ xs) a p = (a.0, All-append P u xs a.1 p)

-- The queued threads stay ready when one that is not queued changes, or one that stays ready.
AllRunning-update :
    (threads : ℕ → Thread) (t : ℕ) (thread : Thread) (q : List ℕ)
    → (member t q ≡ false) ⊎ (thread.state ≡ running)
    → AllRunning threads q
    → AllRunning (update threads t thread) q
AllRunning-update threads t thread [] h r = tt
AllRunning-update threads t thread (x ∷ xs) h r =
    (ground (arith, r.0), AllRunning-update threads t thread xs (ground arith) r.1)

-- One thread changes that is not queued or stays ready, and is not the idle thread made ready.
pub QueueOk-update :
    (threads : ℕ → Thread) (idle t : ℕ) (thread : Thread) (q : List ℕ)
    → (member t q ≡ false) ⊎ (thread.state ≡ running)
    → (t ≢ idle) ⊎ (thread.state ≢ running)
    → QueueOk threads idle q
    → QueueOk (update threads t thread) idle q
QueueOk-update threads idle t thread q a b v = record {
  ready = AllRunning-update threads t thread q a v.ready;
  once = v.once;
  parked = elim (Bool-cases (t == idle)) [ inl e ↦ rw e (not_ready e b) | inr e ↦ rw e v.parked ];
}
  where
    not_ready : (t == idle) ≡ true → (t ≢ idle) ⊎ (thread.state ≢ running) → thread.state ≢ running
    not_ready e (inl n) = absurd (n (ground arith))
    not_ready e (inr n) = n

-- A ready thread goes to the end of the queue.
pub QueueOk-append :
    (threads : ℕ → Thread) (idle t : ℕ) (q : List ℕ)
    → member t q ≡ false
    → (threads t).state ≡ running
    → QueueOk threads idle q
    → QueueOk threads idle (q ++ t ∷ [])
QueueOk-append threads idle t q m r v = record {
  ready = All-append _ t q v.ready r;
  once = NoRepeat-append t q v.once m;
  parked = v.parked;
}
