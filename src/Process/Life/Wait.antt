-- ===== src/Process/Life/Wait.antt =====
-- kernel/src/process/process.c: `ProcWaitProcess` and `ProcWaitThread`, in turns of their loops. A turn ends
-- where the thread waits; the next one is run when it goes on.
pub mod Branches
use chaff.Prelude.{
  ℕ, zero, suc, ◌-◌, Bool, true, false, not, Option, none, some, List, [], ◌∷◌, ◌==◌, if◌then◌else◌,
}
use Prim.Native.Nat.{bit_and}
use chaff.Prelude.Int.{ℤ, pos, negsuc}
use chaff.Process.Scheduler.{Sched, yield_block, block_result}
use chaff.Process.Life.{
  WaitMode, not_waiting, wait_process, wait_thread, World, get_process_by_id, get_thread_by_id,
  sched, set_sched, set_details,
}
use chaff.Process.Life.Exit.{is_single}
use chaff.Process.Life.Reap.{is_zombie, reap_thread, reap_process}

abbrev pub error : ℕ → ℤ
error num = negsuc (num - 1)

abbrev pub eperm : ℤ
eperm = error 1

abbrev pub esrch : ℤ
esrch = error 3

abbrev pub eintr : ℤ
eintr = error 4

abbrev pub echild : ℤ
echild = error 10

abbrev pub einval : ℤ
einval = error 22

-- `WNOHANG`
abbrev pub has_nohang : ℕ → Bool
has_nohang options = not (bit_and options 1 == 0)

-- What the tests before the loop come to: the error, or whom to wait for: any, or the one at an address.
pub data Chosen : Type 0 where
  refused : ℤ → Chosen
  any : Chosen
  one_of : ℕ → Chosen

abbrev pub is_some_parent : Option ℕ → ℕ → Bool
is_some_parent none p = false
is_some_parent (some q) p = q == p

abbrev pub is_empty : List ℕ → Bool
is_empty [] = true
is_empty (x ∷ xs) = false

-- The tests of `ProcWaitProcess`. A number below -1 is refused before the test for process groups.
pub choose_process : ℤ → World → Chosen
unfolding get_process_by_id
choose_process (negsuc (suc n)) w =
    if (sched w).current_process == 0 then refused eperm else refused einval
choose_process (negsuc zero) w =
    let p = (sched w).current_process in
    if p == 0
    then refused eperm
    else if is_empty (w.processes p).children
    then refused echild
    else any
choose_process (pos zero) w =
    if (sched w).current_process == 0 then refused eperm else refused (error 38)
choose_process (pos (suc n)) w =
    let p = (sched w).current_process in
    if p == 0 then refused eperm else elim (get_process_by_id (suc n) w) [
      | none ↦ refused echild
      | some c ↦ if is_some_parent (w.processes c).parent p then one_of c else refused echild
    ]

-- The tests of `ProcWaitThread`.
pub choose_thread : ℤ → World → Chosen
unfolding get_thread_by_id is_single
choose_thread (negsuc (suc n)) w =
    if (sched w).current_process == 0 then refused eperm else refused einval
choose_thread (negsuc zero) w =
    let p = (sched w).current_process in
    if p == 0
    then refused eperm
    else if is_single (w.processes p).threads
    then refused esrch
    else any
choose_thread (pos zero) w =
    let p = (sched w).current_process in
    if p == 0
    then refused eperm
    else if is_single (w.processes p).threads
    then refused esrch
    else any
choose_thread (pos (suc n)) w =
    let p = (sched w).current_process in
    if p == 0 then refused eperm else elim (get_thread_by_id (suc n) w) [
      | none ↦ refused esrch
      | some t ↦ if ((sched w).threads t).parent == p then one_of t else refused esrch
    ]

-- The first one of a list that passes a test.
pub find_first : (ℕ → Bool) → List ℕ → Option ℕ
find_first test [] = none
find_first test (x ∷ xs) = if test x then some x else find_first test xs

abbrev pub passing : (ℕ → Bool) → ℕ → Option ℕ
passing test x = if test x then some x else none

-- A turn of a loop: the result with the exit code, a panic, or the thread waiting.
pub data Turn : Type 0 where
  returns : ℤ → Option ℕ → World → Turn
  panics : Turn
  waits : World → Turn

-- The part of a turn where none is found: `interrupted` says whether the last wait was. The thread does
-- not wait if a signal is pending: the loop then goes on at once, with the tests that were made, and
-- finds none again.
pub no_one : WaitMode → ℕ → Bool → World → Turn
no_one mode options interrupted w =
    if has_nohang options
    then returns (pos 0) none w
    else if interrupted
    then returns eintr none w
    else let t = (sched w).current in
      let (s, at_once) = yield_block (sched w) true in
      let w' = set_sched s (set_details t (record (w.details t) { wait_mode = mode }) w) in
      if at_once
      then returns eintr none (set_details t (record (w.details t) { wait_mode = not_waiting }) w)
      else waits w'

-- "Extract process data" and what follows.
pub finish_process : ℕ → World → Turn
finish_process c w = elim (reap_process c w) [
  | none ↦ panics
  | some w' ↦ returns (pos (w.processes c).pid) (some (w.signals.exit_code c)) w'
]

pub finish_thread : ℕ → World → Turn
finish_thread t w = elim (reap_thread t w) [
  | none ↦ panics
  | some w' ↦ returns (pos (w.details t).tid) (some (w.details t).exit_code) w'
]

abbrev pub is_zombie_process : World → ℕ → Bool
is_zombie_process w c = (w.processes c).zombie

abbrev pub is_zombie_thread : World → ℕ → Bool
is_zombie_thread w t = is_zombie ((sched w).threads t).state

-- A turn of the loop of `ProcWaitProcess`.
pub process_turn : Chosen → ℕ → Bool → World → Turn
unfolding find_first finish_process no_one
process_turn chosen options interrupted w =
    let found : Option ℕ = (elim chosen [
      | refused e ↦ none
      | any ↦ find_first (is_zombie_process w) (w.processes (sched w).current_process).children
      | one_of c ↦ passing (is_zombie_process w) c
    ]) in
    elim found [ none ↦ no_one wait_process options interrupted w | some c ↦ finish_process c w ]

-- A turn of the loop of `ProcWaitThread`.
pub thread_turn : Chosen → ℕ → Bool → World → Turn
unfolding find_first finish_thread no_one
thread_turn chosen options interrupted w =
    let found : Option ℕ = (elim chosen [
      | refused e ↦ none
      | any ↦ find_first (is_zombie_thread w) (w.processes (sched w).current_process).threads
      | one_of t ↦ passing (is_zombie_thread w) t
    ]) in
    elim found [ none ↦ no_one wait_thread options interrupted w | some t ↦ finish_thread t w ]

-- `ProcWaitProcess` and `ProcWaitThread`, to the end of the first turn.
pub start_wait : (Chosen → World → Turn) → Chosen → World → Turn
start_wait turn (refused e) w = returns e none w
start_wait turn any w = turn any w
start_wait turn (one_of x) w = turn (one_of x) w

pub wait_for_process : ℤ → ℕ → World → Turn
unfolding start_wait choose_process process_turn
wait_for_process id options w =
    start_wait (λ c v. process_turn c options false v) (choose_process id w) w

pub wait_for_thread : ℤ → ℕ → World → Turn
unfolding start_wait choose_thread thread_turn
wait_for_thread id options w =
    start_wait (λ c v. thread_turn c options false v) (choose_thread id w) w

-- What a thread does when it goes on after its wait: it is in no wait mode, and another turn follows.
pub resume_wait : (Chosen → ℕ → Bool → World → Turn) → Chosen → ℕ → World → Turn
resume_wait turn chosen options w =
    let t = (sched w).current in
    let w' = set_details t (record (w.details t) { wait_mode = not_waiting }) w in
    turn chosen options (block_result (sched w) t) w'
