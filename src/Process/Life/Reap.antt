-- ===== src/Process/Life/Reap.antt =====
-- kernel/src/process/process.c and reaper.c: reaping threads and processes. `none` where the code panics.
pub mod Effect
use chaff.Prelude.{
  ℕ, Bool, true, false, not, ◌&&◌, Option, none, some, List, [], ◌∷◌, ◌++◌, ◌==◌, if◌then◌else◌,
  update,
}
use chaff.Process.Scheduler.{ThreadState, startup, running, intr, unintr, zombie, wake_up}
use chaff.Process.Life.{
  Process, World, Call, free_fpu_state, free_thread, free_process, sched, set_sched, set_process,
  called,
}

pub is_zombie : ThreadState → Bool
is_zombie startup = false
is_zombie running = false
is_zombie intr = false
is_zombie unintr = false
is_zombie zombie = true

-- `ListDelete` of a process or a thread.
pub delete_item : ℕ → List ℕ → List ℕ
delete_item x [] = []
delete_item x (y ∷ ys) = if y == x then ys else y ∷ delete_item x ys

-- `ProcIntReapThread`
pub reap_thread : ℕ → World → Option World
unfolding is_zombie delete_item
reap_thread t w =
    let p = ((sched w).threads t).parent in
    if (sched w).current == t
    then none
    else if not (is_zombie ((sched w).threads t).state)
    then none
    else some (
        called (free_thread t) (
          set_process p (record (w.processes p) { threads = delete_item t (w.processes p).threads })
            (record (called (free_fpu_state (sched w).current) w) {
              thread_table = update w.thread_table (w.details t).tid none;
            })))

pub reap_threads : List ℕ → World → Option World
unfolding reap_thread
reap_threads [] w = some w
reap_threads (t ∷ ts) w = elim (reap_thread t w) [ none ↦ none | some w' ↦ reap_threads ts w' ]

-- `ProcDisownChildren`
pub disown_children : ℕ → World → World
disown_children p w =
    let w' = set_process p (record (w.processes p) { children = [] }) w in
    set_process 0
      (record (w'.processes 0) { children = (w'.processes 0).children ++ (w.processes p).children })
      w'

-- `ListDelete` of a process from the list of children that it is in.
abbrev pub leave_siblings : ℕ → World → World
leave_siblings p w = record w {
  processes = λ q. record (w.processes q) { children = delete_item p (w.processes q).children };
}

-- `ProcIntReapProcess`
pub reap_process : ℕ → World → Option World
unfolding reap_threads disown_children delete_item
reap_process p w =
    if not (w.processes p).zombie then none else elim (reap_threads (w.processes p).threads w) [
      | none ↦ none
      | some w1 ↦
          let w2 = leave_siblings p (disown_children p w1) in
          some (
            called (free_process p)
              (record w2 { process_table = update w2.process_table (w2.processes p).pid none }))
    ]

-- `ProcIntReaperAdd`
unfoldable pub reaper_add : ℕ → World → World
unfolding is_zombie
reaper_add t w =
    let p = ((sched w).threads t).parent in
    if not (is_zombie ((sched w).threads t).state)
    then w
    else if not (p == 0) && not (w.processes p).zombie
    then w
    else set_sched (wake_up w.reaper_thread (sched w))
        (record w { reaper_list = w.reaper_list ++ t ∷ [] })

-- A turn of the inner loop of `ProcIntReaperThread`.
pub reap_entry : ℕ → World → Option World
unfolding reap_process reap_thread
reap_entry t w =
    let p = ((sched w).threads t).parent in if p == 0 then reap_thread t w else reap_process p w

-- The inner loop, which no entry is added to on the way.
pub reap_entries : List ℕ → World → Option World
unfolding reap_entry
reap_entries [] w = some (record w { reaper_list = [] })
reap_entries (t ∷ ts) w = elim (reap_entry t (record w { reaper_list = ts })) [
  | none ↦ none
  | some w' ↦ reap_entries ts w'
]

-- `ProcIntReaperThread`, up to its wait for more requests.
pub reaper_turn : World → Option World
unfolding reap_entries
reaper_turn w = reap_entries w.reaper_list w
