-- ===== src/Timer/Alarm.antt =====
-- `TimerSetAlarm`: each process's pointer and the alarm queue stay in step.
use chaff.Prelude.{
  ℕ, ◌+◌, ◌≡◌, refl, subst, inl, inr, true, Option, none, some, List, [], ◌∷◌, leb, ◌==◌,
  if◌then◌else◌, arith, Bool-cases, update,
}
use chaff.Prelude.Int.{ℤ, pos, sub_ℕ}
use chaff.Timer.{
  Timer, Entry, delete_node, find_node, remove_alarm, set_alarm, drain, clear_alarms, interrupt,
  ticks_per_interrupt,
}
use chaff.Timer.Links.{
  IsLinked, find_node-delete_node, unlink-IsLinked, find_node-add_to_queue, link-IsLinked,
}

-- The time that is left on a process's alarm, 0 if it has none.
abbrev pub time_left : Timer → ℕ → ℤ
time_left t p = elim (t.alarm_ptr p) [
  | none ↦ pos 0
  | some n ↦ elim (find_node n t.alarm_queue) [
    | none ↦ pos 0
    | some e ↦ sub_ℕ e.end_time t.current_time
  ]
]

wiped :
    (p : ℕ) (ptr : ℕ → Option ℕ) → ptr p ≡ none → (q : ℕ) → ptr q ≡ (if p == q then none else ptr q)
wiped p ptr e q = elim (Bool-cases (p == q)) [
  | inl b ↦ rw b (subst (λ i. ptr i ≡ none) (eq b) e)
  | inr b ↦ rw b refl
]
  where
    eq : (p == q) ≡ true → p ≡ q
    eq b = ground arith

remove_alarm_lem :
    (t : Timer) (p : ℕ)
    → IsLinked t.alarm_queue t.alarm_ptr
    → let (u, left) = remove_alarm t p in
      IsLinked u.alarm_queue u.alarm_ptr
      × ((q : ℕ) → u.alarm_ptr q ≡ (if p == q then none else t.alarm_ptr q))
      × ((n : ℕ) → find_node n t.alarm_queue ≡ none → find_node n u.alarm_queue ≡ none)
      × (left ≡ time_left t p)
unfolding remove_alarm
remove_alarm_lem t p v = by_ptr (t.alarm_ptr p) refl
  where
    by_ptr :
        (o : Option ℕ)
        → t.alarm_ptr p ≡ o
        → let (u, left) = remove_alarm t p in
          IsLinked u.alarm_queue u.alarm_ptr
          × ((q : ℕ) → u.alarm_ptr q ≡ (if p == q then none else t.alarm_ptr q))
          × ((n : ℕ) → find_node n t.alarm_queue ≡ none → find_node n u.alarm_queue ≡ none)
          × (left ≡ time_left t p)
    by_ptr none e =
        rw (e, remove_alarm) (v, wiped p t.alarm_ptr e, λ n f. f, rw (e, time_left) refl)
    by_ptr (some n) e =
        rw (e, remove_alarm)
          (
            unlink-IsLinked p n t.alarm_queue t.alarm_ptr e v,
            λ q. refl,
            λ m f. rw (find_node-delete_node n m t.alarm_queue v.nodes) (ground (arith, f)),
            rw (e, time_left) refl,
          )

-- `TimerSetAlarm` with the address of a new entry, where pointers and queue are in step: they stay
-- so; the result is the time that was left on the process's alarm, or 0; afterwards the process has
-- no alarm if the time is 0, and otherwise points to the new entry, which has that time; and the
-- pointers of the other processes stay.
pub set_alarm_lem :
    (t : Timer) (node p time : ℕ)
    → IsLinked t.alarm_queue t.alarm_ptr
    → find_node node t.alarm_queue ≡ none
    → let (u, left) = set_alarm t node p time in
      IsLinked u.alarm_queue u.alarm_ptr
      × (left ≡ time_left t p)
      × ((q : ℕ)
          → u.alarm_ptr q
            ≡ (if p == q then (if time == 0 then none else some node) else t.alarm_ptr q))
      × (find_node node u.alarm_queue
          ≡ (if time == 0 then none else some (record { node = node; owner = p; end_time = time })))
unfolding set_alarm
set_alarm_lem t node p time v f = elim (Bool-cases (time == 0)) [
  | inl b ↦ rw b (r.0, r.3, r.1, r.2 node f)
  | inr b ↦ rw b (
    link-IsLinked entry (remove_alarm t p).0.alarm_queue (remove_alarm t p).0.alarm_ptr
        (rw (r.1 p) (ground arith)) (r.2 node f) r.0,
    r.3,
    λ q. ground (arith, r.1 q),
    rw (find_node-add_to_queue entry (remove_alarm t p).0.alarm_queue node (r.2 node f))
        (ground arith),
  )
]
  where
    r :
        let (u, left) = remove_alarm t p in
        IsLinked u.alarm_queue u.alarm_ptr
        × ((q : ℕ) → u.alarm_ptr q ≡ (if p == q then none else t.alarm_ptr q))
        × ((n : ℕ) → find_node n t.alarm_queue ≡ none → find_node n u.alarm_queue ≡ none)
        × (left ≡ time_left t p)
    r = remove_alarm_lem t p v

    entry : Entry
    entry = record { node = node; owner = p; end_time = time }

delete_node_head : (x : Entry) (xs : List Entry) → delete_node x.node (x ∷ xs) ≡ xs
unfolding delete_node
delete_node_head x xs = ground arith

drain-IsLinked :
    (now : ℕ) (q : List Entry) (ptr : ℕ → Option ℕ)
    → IsLinked q ptr
    → IsLinked (drain now q).1 (clear_alarms (drain now q).0 ptr)
unfolding drain clear_alarms
drain-IsLinked now [] ptr v = v
drain-IsLinked now (x ∷ xs) ptr v = elim (Bool-cases (leb x.end_time now)) [
  | inl b ↦ rw b (
      drain-IsLinked now xs (update ptr x.owner none) (
        subst (λ q. IsLinked q (update ptr x.owner none)) (delete_node_head x xs)
          (unlink-IsLinked x.owner x.node (x ∷ xs) ptr v.owned.0 v)))
  | inr b ↦ rw b v
]

-- `TimerInterrupt` keeps the processes' pointers and the alarm queue in step.
pub interrupt-IsLinked :
    (t : Timer) (keyboard : ℕ)
    → IsLinked t.alarm_queue t.alarm_ptr
    → IsLinked (interrupt t keyboard).0.alarm_queue (interrupt t keyboard).0.alarm_ptr
unfolding interrupt
interrupt-IsLinked t keyboard v =
    drain-IsLinked (t.current_time + ticks_per_interrupt) t.alarm_queue t.alarm_ptr v
