-- ===== src/Timer/Queue.antt =====
-- The order of the timer queues, and what `TimerInterrupt` takes off them.
use mathlib.Core.List.{Perm}
use mathlib.Core.List.Perm
use chaff.Prelude.{
  ℕ, ◌≤◌, ◌<◌, ◌≡◌, refl, ap, inl, inr, Bool, false, ◌||◌, Option, none, update, List, [], ◌∷◌,
  ◌++◌, leb, ltb, ◌==◌, if◌then◌else◌, arith, Bool-cases, All,
}
use chaff.Timer.{Entry, add_to_queue, delete_node, drain, clear_alarms}

-- Every entry is due no later than `time`.
abbrev pub AllBy : ℕ → List Entry → Type 0
AllBy time = All (λ e. e.end_time ≤ time)

-- The latest time comes first.
abbrev pub IsDescending : List Entry → Type 0
IsDescending [] = Unit
IsDescending (x ∷ xs) = AllBy x.end_time xs × IsDescending xs

AllBy-mono : (a b : ℕ) (q : List Entry) → a ≤ b → AllBy a q → AllBy b q
AllBy-mono a b [] h p = tt
AllBy-mono a b (x ∷ xs) h p = (omega (arith, p.0), AllBy-mono a b xs h p.1)

AllBy-add_to_queue :
    (time : ℕ) (e : Entry) (q : List Entry)
    → e.end_time ≤ time
    → AllBy time q
    → AllBy time (add_to_queue e q)
unfolding add_to_queue
AllBy-add_to_queue time e [] h p = (h, tt)
AllBy-add_to_queue time e (x ∷ xs) h p = ground (arith, AllBy-add_to_queue time e xs h p.1)

-- `AddTimerToQueue` keeps the queue in descending order of time.
pub add_to_queue-IsDescending :
    (e : Entry) (q : List Entry) → IsDescending q → IsDescending (add_to_queue e q)
unfolding add_to_queue
add_to_queue-IsDescending e [] d = (tt, tt)
add_to_queue-IsDescending e (x ∷ xs) d = elim (Bool-cases (ltb x.end_time e.end_time)) [
  | inl b ↦ rw b ((ground arith, AllBy-mono x.end_time e.end_time xs (ground arith) d.0), d)
  | inr b ↦
      rw b
        (AllBy-add_to_queue x.end_time e xs (ground arith) d.0, add_to_queue-IsDescending e xs d.1)
]

-- It adds the entry, and loses none.
pub add_to_queue-perm : (e : Entry) (q : List Entry) → Perm (add_to_queue e q) (e ∷ q)
unfolding add_to_queue
add_to_queue-perm e [] = Perm.refl (e ∷ [])
add_to_queue-perm e (x ∷ xs) = elim (Bool-cases (ltb x.end_time e.end_time)) [
  | inl b ↦ rw b (Perm.refl (e ∷ x ∷ xs))
  | inr b ↦ rw b (Perm.trans (Perm.cons x (add_to_queue-perm e xs)) (Perm.swap e x xs))
]

drain_due : (now : ℕ) (q : List Entry) → AllBy now q → drain now q ≡ (q, [])
unfolding drain
drain_due now [] p = refl
drain_due now (x ∷ xs) p = ground (arith, drain_due now xs p.1)

-- On a queue in descending order `TimerInterrupt` is all or nothing: if the first entry, which has
-- the latest time, is due then every entry is taken off; otherwise none is.
pub drain_all_or_none :
    (now : ℕ) (x : Entry) (xs : List Entry)
    → IsDescending (x ∷ xs)
    → drain now (x ∷ xs) ≡ (if leb x.end_time now then (x ∷ xs, []) else ([], x ∷ xs))
unfolding drain
drain_all_or_none now x xs d = elim (Bool-cases (leb x.end_time now)) [
  | inl b ↦
      rw b (ground (arith, drain_due now xs (AllBy-mono x.end_time now xs (ground arith) d.0)))
  | inr b ↦ rw b
]

-- The queue's first entry, if there is one, is not due.
abbrev pub Waits : ℕ → List Entry → Type 0
Waits now [] = Unit
Waits now (x ∷ xs) = now < x.end_time

-- The entries taken off a queue are its front and are due; what is left does not begin with a due
-- one.
pub record IsDrained (now : ℕ) (q taken left : List Entry) : Type 0 where
  pub due : AllBy now taken
  pub waits : Waits now left
  pub split : taken ++ left ≡ q

pub drain-IsDrained : (now : ℕ) (q : List Entry) → IsDrained now q (drain now q).0 (drain now q).1
unfolding drain
drain-IsDrained now [] = record { due = tt; waits = tt; split = refl }
drain-IsDrained now (x ∷ xs) =
    let rest = drain-IsDrained now xs in
    elim (Bool-cases (leb x.end_time now)) [
      | inl b ↦ rw b (record {
        due = (ground arith, rest.due);
        waits = rest.waits;
        split = ap (◌∷◌ x) rest.split;
      })
      | inr b ↦ rw b (record { due = tt; waits = ground arith; split = refl })
    ]

-- Whether an entry is for the process.
abbrev pub has_owner : ℕ → List Entry → Bool
has_owner p [] = false
has_owner p (x ∷ xs) = x.owner == p || has_owner p xs

pub clear_alarms_lem :
    (q : List Entry) (ptr : ℕ → Option ℕ) (p : ℕ)
    → clear_alarms q ptr p ≡ (if has_owner p q then none else ptr p)
unfolding clear_alarms
clear_alarms_lem [] ptr p = refl
clear_alarms_lem (x ∷ xs) ptr p = ground (arith, clear_alarms_lem xs (update ptr x.owner none) p)

-- Taking an entry out keeps the order.
AllBy-delete_node : (time n : ℕ) (q : List Entry) → AllBy time q → AllBy time (delete_node n q)
unfolding delete_node
AllBy-delete_node time n [] p = tt
AllBy-delete_node time n (x ∷ xs) p = ground (arith, AllBy-delete_node time n xs p.1)

pub delete_node-IsDescending :
    (n : ℕ) (q : List Entry) → IsDescending q → IsDescending (delete_node n q)
unfolding delete_node
delete_node-IsDescending n [] d = tt
delete_node-IsDescending n (x ∷ xs) d = elim (Bool-cases (x.node == n)) [
  | inl b ↦ rw b d.1
  | inr b ↦ rw b (AllBy-delete_node x.end_time n xs d.0, delete_node-IsDescending n xs d.1)
]

pub drain-IsDescending : (now : ℕ) (q : List Entry) → IsDescending q → IsDescending (drain now q).1
unfolding drain
drain-IsDescending now [] d = tt
drain-IsDescending now (x ∷ xs) d = elim (Bool-cases (leb x.end_time now)) [
  | inl b ↦ rw b (drain-IsDescending now xs d.1)
  | inr b ↦ rw b d
]

-- While some entry is not due, none is taken off.
pub drain_blocked :
    (now : ℕ) (q : List Entry) → IsDescending q → ¬ AllBy now q → drain now q ≡ ([], q)
drain_blocked now [] d n = absurd (n tt)
drain_blocked now (x ∷ xs) d n =
    rw (drain_all_or_none now x xs d) (elim (Bool-cases (leb x.end_time now)) [
      | inl b ↦ absurd (n (ground arith, AllBy-mono x.end_time now xs (ground arith) d.0))
      | inr b ↦ rw b
    ])
