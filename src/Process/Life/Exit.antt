-- ===== src/Process/Life/Exit.antt =====
-- kernel/src/process/process.c: the exit of threads and processes, up to the switch to another thread.
pub mod Linger
pub mod Woken
pub mod Handover
use chaff.Prelude.{
  ℕ, Bool, true, false, not, ◌&&◌, Option, none, some, List, [], ◌∷◌, ◌++◌, ◌==◌, if◌then◌else◌,
  update,
}
use chaff.Process.Scheduler.{Thread, zombie, Sched, set_thread, do_schedule, wake_up}
use chaff.Process.Signal.{Signals, is_intr, sig_kill, sig_cld, send_thread, send_process}
use chaff.Process.Life.{
  WaitMode, not_waiting, wait_process, wait_thread, Process, Details, World, Call, clear_alarm,
  delete_mem_context, delete_io_context, sched, set_sched, set_process, set_details, called,
}
use chaff.Process.Life.Reap.{disown_children, reaper_add}

-- `threads.next == threads.prev`
unfoldable pub is_single : List ℕ → Bool
is_single [] = true
is_single (t ∷ []) = true
is_single (t ∷ u ∷ ts) = false

pub waits_for : WaitMode → WaitMode → Bool
waits_for wait_process wait_process = true
waits_for wait_thread wait_thread = true
waits_for _ _ = false

-- The body of the loops that wake the threads that wait for a process or a thread.
pub wake_if_waiting : WaitMode → ℕ → World → World
unfolding is_intr waits_for
wake_if_waiting mode t w =
    if is_intr ((sched w).threads t).state && waits_for mode (w.details t).wait_mode
    then set_sched (wake_up t (sched w)) w
    else w

pub wake_waiting : WaitMode → List ℕ → World → World
unfolding wake_if_waiting
wake_waiting mode [] w = w
wake_waiting mode (t ∷ ts) w = wake_waiting mode ts (wake_if_waiting mode t w)

-- `thread->state = PTS_ZOMBIE` for the current thread.
abbrev pub end_current : World → World
end_current w =
    let s = sched w in
    set_sched (set_thread s.current (record (s.threads s.current) { state = zombie }) s) w

-- `ProcIntSelfExit`: the current thread is on no queue any more, and the next one goes on.
abbrev pub self_exit : World → World
self_exit w = set_sched (do_schedule (sched w)) w

-- "Zombieize" and "Set exit code" for the current thread.
abbrev pub mark_ended : ℕ → World → World
mark_ended exit_code w =
    let t = (sched w).current in
    set_details t (record (w.details t) { exit_code = exit_code }) (end_current w)

-- The part of `ProcExitThread` for a thread that is not the process's only one, before the switch.
pub end_thread : ℕ → World → World
unfolding wake_waiting reaper_add
end_thread exit_code w =
    let p = (sched w).current_process in
    if p == 0
    then reaper_add (sched w).current (mark_ended exit_code w)
    else wake_waiting wait_thread (w.processes p).threads (mark_ended exit_code w)

-- "Free memory context" and "Free io context".
abbrev pub free_mem_context : ℕ → World → World
free_mem_context p w = elim (w.processes p).mem_context [
  | none ↦ w
  | some m ↦
      set_process p (record (w.processes p) { mem_context = none })
        (called (delete_mem_context m) (set_sched (record (sched w) { address_space = 0 }) w))
]

abbrev pub free_io_context : ℕ → World → World
free_io_context p w = elim (w.processes p).io_context [
  | none ↦ w
  | some c ↦
      set_process p (record (w.processes p) { io_context = none }) (called (delete_io_context c) w)
]

-- What a process gives up when its only thread exits: its alarm, children and contexts; then it and its
-- thread are zombies.
abbrev pub give_up : ℕ → World → World
give_up p w =
    let w' = free_io_context p (free_mem_context p (disown_children p (called clear_alarm w))) in
    end_current (set_process p (record (w'.processes p) { zombie = true }) w')

-- The rest of `ProcExitProcess`, before the switch: the reaper or the parent learns of it.
pub announce : Option ℕ → World → Option World
unfolding wake_waiting reaper_add
announce none w = none
announce (some q) w =
    if q == 0
    then some (reaper_add (sched w).current w)
    else let w' = wake_waiting wait_process (w.processes q).threads w in
      some (record w' { signals = send_process q sig_cld w'.signals })

-- The part of `ProcExitProcess` for the only thread, before the switch; `none` where the code reads the
-- parent through NULL.
pub end_process : World → Option World
unfolding announce
end_process w = let p = (sched w).current_process in announce (w.processes p).parent (give_up p w)

-- `ProcExitThread`
pub exit_thread : ℕ → World → Option World
unfolding is_single end_process end_thread
exit_thread exit_code w =
    if is_single (w.processes (sched w).current_process).threads
    then elim (end_process w) [ none ↦ none | some w' ↦ some (self_exit w') ]
    else some (self_exit (end_thread exit_code w))

-- The signals to the other threads in `ProcExitProcess`.
pub kill_others : ℕ → List ℕ → Signals → Signals
kill_others t [] w = w
kill_others t (u ∷ us) w = kill_others t us (if u == t then w else send_thread u sig_kill w)

-- `ProcExitProcess`
pub exit_process : ℕ → World → Option World
unfolding is_single end_process kill_others exit_thread
exit_process exit_code w =
    let p = (sched w).current_process in
    let w' : World = record w {
      signals = record w.signals { exit_code = update w.signals.exit_code p exit_code };
    } in
    if is_single (w.processes p).threads
    then elim (end_process w') [ none ↦ none | some w2 ↦ some (self_exit w2) ]
    else exit_thread 0
        (record w' { signals = kill_others (sched w).current (w.processes p).threads w'.signals })
