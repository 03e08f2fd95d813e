-- ===== src/Process/Life/Tests.antt =====
-- A parent with a child: a run of their calls, and the theorems at such runs.
use chaff.Prelude.{
  ℕ, ◌≡◌, ◌≢◌, refl, true, false, Bool, none, some, List, [], ◌∷◌, ◌==◌, if◌then◌else◌, arith, ◌⊎◌,
  update,
}
use chaff.Process.Scheduler.{Thread, ThreadState, running, intr, zombie, signal_is_pending}
use chaff.Process.Signal.{Signals}
use chaff.Process.Life.{
  not_waiting, wait_process, Process, World, sched, create_process, get_process_by_id,
}
use chaff.Process.Life.Ids.{create_process-id}
use chaff.Process.Life.Exit.{is_single, self_exit, end_thread, exit_process}
use chaff.Process.Life.Exit.Linger.{exit_thread-ends, begin, by_thread, Exits-never_end}
use chaff.Process.Life.Exit.Woken.{IsWaiting}
use chaff.Process.Life.Exit.Handover.{exit_process-wakes}
use chaff.Process.Life.Wait.{has_nohang, returns, waits, eintr, wait_for_process}
use chaff.Process.Signal.Kept.{IsReady}
use chaff.Prelude.Int.{pos, negsuc}
use chaff.Process.Life.Wait.Branches.{wait_for_process-reaps, wait_for_process-alive}

-- Thread 4 is of process 60, every other thread of process 70, a child of it.
abbrev thread : ThreadState → ℕ → Thread
thread state p = record {
  state = state;
  interrupted = 0;
  parent = p;
  kstack_base = 0x8000;
  tls_descriptor = 5;
  sig_pending = 0;
  sig_blocked = 0;
}

-- The signals, with a current thread and the states of thread 4 and of the others.
abbrev signals : ℕ → ThreadState → ThreadState → Signals
signals current of_parent of_child = record {
  sched = record {
    threads = λ t. if t == 4 then thread of_parent 60 else thread of_child 70;
    process_pending = λ _. 0;
    queue = [];
    current = current;
    current_process = if current == 4 then 60 else 70;
    idle = 9;
    quantum = 4;
    esp0 = 0x9000;
    tls = 5;
    address_space = 70;
  };
  handlers = λ p index. record { handler = 0; mask = 0; flags = 0 };
  exit_code = λ p. 7;
  children = λ p. [];
}

abbrev process : ℕ → ℕ → List ℕ → List ℕ → Bool → Process
process pid parent children threads is_ended = record {
  pid = pid;
  parent = some parent;
  children = children;
  threads = threads;
  zombie = is_ended;
  mem_context = some 0x100;
  io_context = some 0x200;
}

abbrev world : ℕ → ThreadState → ThreadState → List ℕ → Bool → World
world current of_parent of_child threads is_ended = record {
  signals = signals current of_parent of_child;
  processes = λ p.
      if p == 60 then process 2 0 (70 ∷ []) (4 ∷ []) false else process 3 60 [] threads is_ended;
  details = λ t. record {
    tid = t;
    exit_code = 0;
    wait_mode = if t == 4 then wait_process else not_waiting;
    kstack = [];
  };
  process_table = λ id. if id == 2 then some 60 else if id == 3 then some 70 else none;
  thread_table = λ id. some id;
  next_pid = 2;
  next_tid = 5;
  reaper_list = [];
  reaper_thread = 8;
  calls = [];
}

-- Process 70 has one thread, which runs, and the parent waits.
abbrev parent_waits : World
parent_waits = world 1 intr running (1 ∷ []) false

-- Process 70 has two threads.
abbrev two_threads : World
two_threads = world 1 intr running (1 ∷ 2 ∷ []) false

-- Process 70 has ended, and the parent runs.
abbrev ended : World
ended = world 4 running zombie (1 ∷ 2 ∷ []) true

-- Process 70 has not.
abbrev alive : World
alive = world 4 running running (1 ∷ 2 ∷ []) false

exit_process-wakes_example :
    (w' : World) × (exit_process 9 parent_waits ≡ some (self_exit w'))
    × ((w'.processes 70).zombie ≡ true)
    × (w'.signals.exit_code 70 ≡ 9)
    × IsReady 4 (sched w')
unfolding is_single
exit_process-wakes_example =
    exit_process-wakes 9 4 60 parent_waits refl refl (ground arith) refl (ground arith) (refl, refl)

Exits-never_end_example :
    (self_exit (end_thread 5 two_threads)).processes 70 ≡ two_threads.processes 70
unfolding is_single
Exits-never_end_example =
    Exits-never_end 70 two_threads (self_exit (end_thread 5 two_threads)) refl (
      by_thread two_threads 5 (self_exit (end_thread 5 two_threads)) begin refl
        (exit_thread-ends 5 two_threads refl))

wait_for_process-reaps_example :
    (v : World) × (wait_for_process (negsuc 0) 0 ended ≡ returns (pos 3) (some 7) v)
    × (v.process_table ≡ update ended.process_table 3 none)
    × ((v.processes 60).children ≡ [])
    × (v.signals ≡ ended.signals)
wait_for_process-reaps_example =
    wait_for_process-reaps 0 70 [] [] ended (ground arith) refl refl tt (ground arith) refl
      ((refl, ground arith), ((refl, ground arith), tt))

wait_for_process-alive_example :
    ((has_nohang 1 ≡ true) × (wait_for_process (negsuc 0) 1 alive ≡ returns (pos 0) none alive))
    ⊎ ((has_nohang 1 ≡ false)
        × (signal_is_pending (sched alive) 4 ≡ true)
        × ((v : World) × (wait_for_process (negsuc 0) 1 alive ≡ returns eintr none v)
            × (v.processes ≡ alive.processes)
            × (v.signals ≡ alive.signals)))
    ⊎ ((has_nohang 1 ≡ false)
        × (signal_is_pending (sched alive) 4 ≡ false)
        × ((v : World) × (wait_for_process (negsuc 0) 1 alive ≡ waits v)
            × (v.processes ≡ alive.processes)
            × IsWaiting 4 v))
wait_for_process-alive_example = wait_for_process-alive 1 alive (ground arith) refl (refl, tt)

create_process-id_example :
    (v : World) × (pid : ℕ) × (create_process 3 80 (some 70) parent_waits ≡ some v)
    × (get_process_by_id pid parent_waits ≡ none)
    × (get_process_by_id pid v ≡ some 80)
    × ((v.processes 80).pid ≡ pid)
    × ((other : ℕ) → other ≢ pid → get_process_by_id other v ≡ get_process_by_id other parent_waits)
create_process-id_example =
    create_process-id 3 2 80 (some 70) parent_waits (ground arith) (ground arith) refl
