-- ===== src/Process/Life/Ids.antt =====
-- The ids of processes: looking for a free one, and creating a process that has it.
use chaff.Prelude.{
  ℕ, zero, suc, ◌-◌, ◌<◌, ◌≡◌, ◌≢◌, refl, ap, sym, ◌∙◌, inl, inr, Bool, true, false, Option, none,
  some, [], ◌∷◌, ◌++◌, ◌==◌, if◌then◌else◌, Option-cases, update, add32, u32_mod, arith,
}
use chaff.Process.Life.{
  World, get_process_by_id, allocate_id, new_process, add_child, zero_signals, create_process,
  set_process,
}
use chaff.Process.Life.Reap.Effect.{field-set_process}

none≢some : (a : ℕ) → none ≢ some a
none≢some a e = cc

add32-suc : (n k : ℕ) → add32 (add32 n 1) k ≡ add32 n (suc k)
add32-suc n k = omega arith

-- Where one of the ids from the next one on is free, enough fuel finds a free one.
allocate_id-free :
    (fuel k : ℕ) (table : ℕ → Option ℕ) (next : ℕ)
    → next < u32_mod
    → k < fuel
    → table (add32 next k) ≡ none
    → (id : ℕ) × (allocate_id fuel table next ≡ some (id, add32 id 1)) × (table id ≡ none)
unfolding allocate_id
allocate_id-free zero k table next b l f = absurd (ground (arith, l))
allocate_id-free (suc fuel) k table next b l f = elim (Option-cases (table next)) [
  | inl e ↦ (next, rw (e, allocate_id) refl, e)
  | inr (a, e) ↦
      let (id, r, h) =
        allocate_id-free fuel (k - 1) table (add32 next 1) (wraps next) (less e) (later e) in
      (id, rw (e, allocate_id) r, h)
]
  where
    wraps : (n : ℕ) → add32 n 1 < u32_mod
    wraps n = omega arith

    positive : {a : ℕ} → table next ≡ some a → k ≢ 0
    positive e z =
        none≢some _ (sym f ∙ ap (λ j. table (add32 next j)) z ∙ ap table (ground (arith, b)) ∙ e)

    less : {a : ℕ} → table next ≡ some a → k - 1 < fuel
    less e = ground (arith, l, positive e)

    later : {a : ℕ} → table next ≡ some a → table (add32 (add32 next 1) (k - 1)) ≡ none
    later e =
        ap table (add32-suc next (k - 1) ∙ ap (λ j. add32 next j) (ground (arith, positive e))) ∙ f

-- The world with the new process, before it is among its parent's children.
abbrev entered : ℕ → Option ℕ → ℕ → World → World
entered p parent pid w = set_process p (new_process pid parent) (
    zero_signals p
      (record w { process_table = update w.process_table pid (some p); next_pid = add32 pid 1 }))

add_child-kept :
    (parent : Option ℕ) (p q : ℕ) (w : World)
    → ((add_child parent p w).process_table ≡ w.process_table)
      × (((add_child parent p w).processes q).pid ≡ (w.processes q).pid)
add_child-kept none p q w = (refl, refl)
add_child-kept (some r) p q w = (
  refl,
  field-set_process (λ x. x.pid) r q
      (record (w.processes r) { children = (w.processes r).children ++ p ∷ [] }) w refl,
)

itself : (n : ℕ) → (n == n) ≡ true
itself n = ground arith

-- `ProcCreateProcess` at an address, where one of the ids from the next one on is free, and the search for an
-- id may go so far: it ends, and the process has an id that no process had. The process is found by
-- that id, and every other one by its own as before.
pub create_process-id :
    (fuel k p : ℕ) (parent : Option ℕ) (w : World)
    → w.next_pid < u32_mod
    → k < fuel
    → w.process_table (add32 w.next_pid k) ≡ none
    → (v : World) × (pid : ℕ) × (create_process fuel p parent w ≡ some v)
      × (get_process_by_id pid w ≡ none)
      × (get_process_by_id pid v ≡ some p)
      × ((v.processes p).pid ≡ pid)
      × ((other : ℕ) → other ≢ pid → get_process_by_id other v ≡ get_process_by_id other w)
unfolding create_process get_process_by_id
create_process-id fuel k p parent w b l f =
    let (pid, r, free) = allocate_id-free fuel k w.process_table w.next_pid b l f in
    let (table, same) = add_child-kept parent p p (entered p parent pid w) in
    (
      add_child parent p (entered p parent pid w),
      pid,
      rw (r, create_process) refl,
      free,
      ap (λ f. f pid) table ∙ rw (itself pid) refl,
      same ∙ own pid (p == p) (itself p),
      λ other d. ap (λ f. f other) table ∙ rw (differ pid other d) refl,
    )
  where
    own :
        (pid : ℕ) (e : Bool)
        → e ≡ true
        → (if e then new_process pid parent else w.processes p).pid ≡ pid
    own pid e h = rw h refl

    differ : (pid other : ℕ) → other ≢ pid → (pid == other) ≡ false
    differ pid other d = ground (arith, d)
