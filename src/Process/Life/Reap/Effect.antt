-- ===== src/Process/Life/Reap/Effect.antt =====
-- What reaping and disowning do to the processes.
use chaff.Prelude.{
  ℕ, ◌≡◌, ◌≢◌, refl, ap, sym, ◌∙◌, inl, inr, Bool, true, false, none, some, List, [], ◌∷◌, ◌++◌,
  All, ◌==◌, if◌then◌else◌, Bool-cases, update, arith,
}
use chaff.Process.Scheduler.{zombie}
use chaff.Process.Life.{
  Process, World, sched, set_process, called, free_thread, free_fpu_state, free_process,
}
use chaff.Process.Life.Reap.{
  is_zombie, delete_item, reap_thread, reap_threads, disown_children, leave_siblings, reap_process,
}

-- A field of a process where other fields of one have changed.
pub field-set_process :
    {A : Type 0} (f : Process → A) (p q : ℕ) (x : Process) (w : World)
    → f x ≡ f (w.processes p)
    → f ((set_process p x w).processes q) ≡ f (w.processes q)
field-set_process f p q x w e = elim (Bool-cases (p == q)) [
  | inl h ↦ rw h (e ∙ ap (λ r. f (w.processes r)) (equal h))
  | inr h ↦ rw h refl
]
  where
    equal : (p == q) ≡ true → p ≡ q
    equal h = ground (arith, h)

-- The threads of a process where another field of one has changed.
pub threads-set_process :
    (p q : ℕ) (x : Process) (w : World)
    → x.threads ≡ (w.processes p).threads
    → ((set_process p x w).processes q).threads ≡ (w.processes q).threads
threads-set_process p q x w e = field-set_process (λ r. r.threads) p q x w e

pub threads-disown_children :
    (p q : ℕ) (w : World) → ((disown_children p w).processes q).threads ≡ (w.processes q).threads
unfolding disown_children
threads-disown_children p q w =
    let w' = set_process p (record (w.processes p) { children = [] }) w in
    threads-set_process 0 q
      (record (w'.processes 0) { children = (w'.processes 0).children ++ (w.processes p).children })
      w' refl
    ∙ threads-set_process p q (record (w.processes p) { children = [] }) w refl

-- Disowning leaves everything else of the world.
pub disown_children-rest :
    (p : ℕ) (w : World)
    → ((disown_children p w).signals ≡ w.signals) × ((disown_children p w).details ≡ w.details)
unfolding disown_children
disown_children-rest p w = (refl, refl)

-- Threads that can be reaped: zombies, and none of them the current thread.
abbrev pub IsReapable : World → ℕ → Type 0
IsReapable w t = (((sched w).threads t).state ≡ zombie) × ((sched w).current ≢ t)

-- What reaping threads leaves as it is.
abbrev IsSparing : World → World → Type 0
IsSparing w v =
    (v.signals ≡ w.signals)
    × (v.details ≡ w.details)
    × (v.process_table ≡ w.process_table)
    × ((q : ℕ)
        → ((v.processes q).pid ≡ (w.processes q).pid)
          × ((v.processes q).children ≡ (w.processes q).children))

sparing : (w v u : World) → IsSparing w v → IsSparing v u → IsSparing w u
sparing w v u (a, b, c, d) (a', b', c', d') =
    (a' ∙ a, b' ∙ b, c' ∙ c, λ q. let (e, f) = d q in let (e', f') = d' q in (e' ∙ e, f' ∙ f))

-- The world after a thread has been reaped.
abbrev reaped : ℕ → World → World
reaped t w =
    let p = ((sched w).threads t).parent in
    called (free_thread t) (
      set_process p (record (w.processes p) { threads = delete_item t (w.processes p).threads })
        (record (called (free_fpu_state (sched w).current) w) {
          thread_table = update w.thread_table (w.details t).tid none;
        }))

reap_thread-IsReapable : (t : ℕ) (w : World) → IsReapable w t → reap_thread t w ≡ some (reaped t w)
unfolding reap_thread is_zombie
reap_thread-IsReapable t w (z, n) = rw (other n, reap_thread) (rw z refl)
  where
    other : (sched w).current ≢ t → ((sched w).current == t) ≡ false
    other n = ground (arith, n)

reaped-IsSparing : (t : ℕ) (w : World) → IsSparing w (reaped t w)
reaped-IsSparing t w =
    let p = ((sched w).threads t).parent in
    let x = record (w.processes p) { threads = delete_item t (w.processes p).threads } in
    (
      refl,
      refl,
      refl,
      λ q. (
        field-set_process (λ r. r.pid) p q x w refl,
        field-set_process (λ r. r.children) p q x w refl,
      ),
    )

-- Threads that can all be reaped are.
pub reap_threads-IsReapable :
    (ts : List ℕ) (w : World)
    → All (IsReapable w) ts
    → (v : World) × (reap_threads ts w ≡ some v) × IsSparing w v
unfolding reap_threads
reap_threads-IsReapable [] w h = (w, refl, (refl, refl, refl, λ q. (refl, refl)))
reap_threads-IsReapable (t ∷ ts) w (h, hs) =
    let (v, r, k) = reap_threads-IsReapable ts (reaped t w) hs in
    (
      v,
      rw (reap_thread-IsReapable t w h, reap_threads) r,
      sparing w (reaped t w) v (reaped-IsSparing t w) k,
    )

-- The children of a process after `p` has been disowned.
abbrev disowned : ℕ → World → ℕ → List ℕ
disowned p w q =
    if 0 == q
    then (w.processes 0).children ++ (w.processes p).children
    else if p == q
    then []
    else (w.processes q).children

children-disown_children :
    (p q : ℕ) (w : World) → p ≢ 0 → ((disown_children p w).processes q).children ≡ disowned p w q
unfolding disown_children
children-disown_children p q w n = elim (Bool-cases (0 == q)) [
  | inl h ↦ rw h (rw (user n) refl)
  | inr h ↦ rw h (elim (Bool-cases (p == q)) [ inl k ↦ rw k refl | inr k ↦ rw k refl ])
]
  where
    user : p ≢ 0 → (p == 0) ≡ false
    user n = ground (arith, n)

pid-disown_children :
    (p q : ℕ) (w : World) → ((disown_children p w).processes q).pid ≡ (w.processes q).pid
unfolding disown_children
pid-disown_children p q w =
    let w' = set_process p (record (w.processes p) { children = [] }) w in
    field-set_process (λ r. r.pid) 0 q
      (record (w'.processes 0) { children = (w'.processes 0).children ++ (w.processes p).children })
      w' refl
    ∙ field-set_process (λ r. r.pid) p q (record (w.processes p) { children = [] }) w refl

-- A zombie process other than the kernel's, whose threads can all be reaped, is: its id is of no process any
-- more, its children are the kernel's, and it is no process's child.
pub reap_process-IsReapable :
    (p : ℕ) (w : World)
    → p ≢ 0
    → (w.processes p).zombie ≡ true
    → All (IsReapable w) (w.processes p).threads
    → (v : World) × (reap_process p w ≡ some v)
      × (v.signals ≡ w.signals)
      × (v.process_table ≡ update w.process_table (w.processes p).pid none)
      × ((q : ℕ) → (v.processes q).children ≡ delete_item p (disowned p w q))
unfolding reap_process
reap_process-IsReapable p w n z h =
    let (u, r, (signals, details, table, fields)) =
      reap_threads-IsReapable (w.processes p).threads w h in
    let w2 = leave_siblings p (disown_children p u) in
    (
      called (free_process p)
          (record w2 { process_table = update w2.process_table (w2.processes p).pid none }),
      rw (z, reap_process) (rw r refl),
      (disown_children-rest p u).0 ∙ signals,
      ap (λ f. update f (w2.processes p).pid none) table
          ∙ ap (λ i. update w.process_table i none) (pid-disown_children p p u ∙ (fields p).0),
      λ q.
          ap (λ cs. delete_item p cs)
            (children-disown_children p q u n
              ∙ disowned-same u q (fields 0).1 (fields p).1 (fields q).1),
    )
  where
    disowned-same :
        (u : World) (q : ℕ)
        → (u.processes 0).children ≡ (w.processes 0).children
        → (u.processes p).children ≡ (w.processes p).children
        → (u.processes q).children ≡ (w.processes q).children
        → disowned p u q ≡ disowned p w q
    disowned-same u q a b c = rw (a, b, c) refl

-- Where a test differs the numbers do.
pub test_differ : (P : ℕ → Bool) (b c : ℕ) → P b ≡ true → P c ≡ false → (b == c) ≡ false
test_differ P b c t f = elim (Bool-cases (b == c)) [
  | inr e ↦ e
  | inl e ↦ absurd (true≢false (sym t ∙ ap P (equal e) ∙ f))
]
  where
    equal : (b == c) ≡ true → b ≡ c
    equal e = ground (arith, e)

    true≢false : true ≡ false → ⊥
    true≢false e = cc

-- The first item that passes a test is the one that is deleted.
pub delete_item-append :
    (before after : List ℕ) (c : ℕ) (P : ℕ → Bool)
    → All (λ b. P b ≡ false) before
    → P c ≡ true
    → delete_item c (before ++ c ∷ after) ≡ before ++ after
unfolding delete_item
delete_item-append [] after c P h z = rw (itself c, delete_item) refl
  where
    itself : (n : ℕ) → (n == n) ≡ true
    itself n = ground arith
delete_item-append (b ∷ bs) after c P (h, hs) z =
    rw (differ (test_differ P c b z h), delete_item)
      (ap (λ cs. b ∷ cs) (delete_item-append bs after c P hs z))
  where
    differ : (c == b) ≡ false → (b == c) ≡ false
    differ e = ground (arith, e)
