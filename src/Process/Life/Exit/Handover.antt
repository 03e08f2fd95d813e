-- ===== src/Process/Life/Exit/Handover.antt =====
-- The exit of a process's only thread, and a thread of the parent that waits for it.
use chaff.Prelude.{
  ℕ, ◌≡◌, ◌≢◌, refl, ap, sym, ◌∙◌, inl, inr, true, false, none, some, ◌==◌, Option-cases, update,
  arith, subst,
}
use chaff.Process.Scheduler.Invariant.{member}
use chaff.Process.Signal.{sig_cld, send_process}
use chaff.Process.Signal.Kept.{IsReady, IsReady-IsClosed, exit_code-send_cld, send_process-kept}
use chaff.Process.Life.{wait_process, World, clear_alarm, called, sched}
use chaff.Process.Life.Reap.{disown_children}
use chaff.Process.Life.Reap.Effect.{
  threads-set_process, threads-disown_children, disown_children-rest,
}
use chaff.Process.Life.Exit.{
  is_single, wake_waiting, free_mem_context, free_io_context, give_up, announce, end_process,
  exit_process, self_exit,
}
use chaff.Process.Life.Exit.Linger.{processes-wake_waiting}
use chaff.Process.Life.Exit.Woken.{IsWaiting, exit_code-wake_waiting, wake_waiting-IsReady}

-- The last part of `ProcExitProcess`, where the parent is not the kernel.
announce-IsReady :
    (t q : ℕ) (w : World)
    → q ≢ 0
    → member t (w.processes q).threads ≡ true
    → IsWaiting t w
    → (w' : World) × (announce (some q) w ≡ some w')
      × IsReady t (sched w')
      × (w'.processes ≡ w.processes)
      × (w'.signals.exit_code ≡ w.signals.exit_code)
unfolding announce
announce-IsReady t q w n m h =
    let woken = wake_waiting wait_process (w.processes q).threads w in
    (
      record woken { signals = send_process q sig_cld woken.signals },
      rw (user n, announce) refl,
      send_process-kept (IsReady t) (IsReady-IsClosed t) q sig_cld woken.signals
          (wake_waiting-IsReady t (w.processes q).threads w m h),
      processes-wake_waiting wait_process (w.processes q).threads w,
      exit_code-send_cld q woken.signals
          ∙ exit_code-wake_waiting wait_process (w.processes q).threads w,
    )
  where
    user : q ≢ 0 → (q == 0) ≡ false
    user n = ground (arith, n)

-- What a process gives up leaves the threads of every process, and the states of all but the current one.
abbrev IsUntouched : World → World → Type 0
IsUntouched w v =
    ((q : ℕ) → (v.processes q).threads ≡ (w.processes q).threads)
    × ((sched v).threads ≡ (sched w).threads)
    × ((sched v).current ≡ (sched w).current)
    × (v.details ≡ w.details)
    × (v.signals.exit_code ≡ w.signals.exit_code)

untouched : (w v u : World) → IsUntouched w v → IsUntouched v u → IsUntouched w u
untouched w v u (a, b, c, d, e) (a', b', c', d', e') =
    ((λ q. a' q ∙ a q), b' ∙ b, c' ∙ c, d' ∙ d, e' ∙ e)

free_mem_context-IsUntouched : (p : ℕ) (w : World) → IsUntouched w (free_mem_context p w)
free_mem_context-IsUntouched p w = elim (Option-cases (w.processes p).mem_context) [
  | inl e ↦ rw (e, free_mem_context) ((λ q. refl), refl, refl, refl, refl)
  | inr (m, e) ↦
      rw (e, free_mem_context)
        (
          (λ q. threads-set_process p q (record (w.processes p) { mem_context = none }) w refl),
          refl,
          refl,
          refl,
          refl,
        )
]

free_io_context-IsUntouched : (p : ℕ) (w : World) → IsUntouched w (free_io_context p w)
free_io_context-IsUntouched p w = elim (Option-cases (w.processes p).io_context) [
  | inl e ↦ rw (e, free_io_context) ((λ q. refl), refl, refl, refl, refl)
  | inr (m, e) ↦
      rw (e, free_io_context)
        (
          (λ q. threads-set_process p q (record (w.processes p) { io_context = none }) w refl),
          refl,
          refl,
          refl,
          refl,
        )
]

-- The world in which the process becomes a zombie.
abbrev given_up : ℕ → World → World
given_up p w = free_io_context p (free_mem_context p (disown_children p (called clear_alarm w)))

given_up-IsUntouched : (p : ℕ) (w : World) → IsUntouched w (given_up p w)
given_up-IsUntouched p w =
    let d = disown_children p (called clear_alarm w) in
    let (s, t) = disown_children-rest p (called clear_alarm w) in
    untouched w d (given_up p w)
      (
        (λ q. threads-disown_children p q (called clear_alarm w)),
        ap (λ x. x.sched.threads) s,
        ap (λ x. x.sched.current) s,
        t,
        ap (λ x. x.exit_code) s,
      )
      (untouched d (free_mem_context p d) (given_up p w) (free_mem_context-IsUntouched p d)
        (free_io_context-IsUntouched p (free_mem_context p d)))

give_up-IsWaiting :
    (p t q : ℕ) (w : World)
    → t ≢ (sched w).current
    → IsWaiting t w
    → IsWaiting t (give_up p w)
      × (((give_up p w).processes q).threads ≡ (w.processes q).threads)
      × (((give_up p w).processes p).zombie ≡ true)
      × ((give_up p w).signals.exit_code ≡ w.signals.exit_code)
give_up-IsWaiting p t q w d (e, m) =
    let (threads, states, current, details, codes) = given_up-IsUntouched p w in
    let v = given_up p w in
    (
      (
        rw (other t (sched v).current (subst (λ c. t ≢ c) (sym current) d))
            (ap (λ f. (f t).state) states ∙ e),
        ap (λ f. (f t).wait_mode) details ∙ m,
      ),
      threads-set_process p q (record (v.processes p) { zombie = true }) v refl ∙ threads q,
      rw (itself p) refl,
      codes,
    )
  where
    other : (t c : ℕ) → t ≢ c → (c == t) ≡ false
    other t c d = ground (arith, d)

    itself : (n : ℕ) → (n == n) ≡ true
    itself n = ground arith

-- `ProcExitProcess` by the only thread of a process whose parent is not the kernel, while another thread, of
-- the parent, is blocked in `ProcWaitProcess`: before the next thread is chosen, the process is a
-- zombie with the exit code given, and the waiting thread is ready and on the queue.
pub exit_process-wakes :
    (exit_code t q : ℕ) (w : World)
    → is_single (w.processes (sched w).current_process).threads ≡ true
    → (w.processes (sched w).current_process).parent ≡ some q
    → q ≢ 0
    → member t (w.processes q).threads ≡ true
    → t ≢ (sched w).current
    → IsWaiting t w
    → (w' : World) × (exit_process exit_code w ≡ some (self_exit w'))
      × ((w'.processes (sched w).current_process).zombie ≡ true)
      × (w'.signals.exit_code (sched w).current_process ≡ exit_code)
      × IsReady t (sched w')
unfolding exit_process end_process
exit_process-wakes exit_code t q w single parent n m d h =
    let p = (sched w).current_process in
    let v : World = record w {
      signals = record w.signals { exit_code = update w.signals.exit_code p exit_code };
    } in
    let (waiting, threads, ended, codes) = give_up-IsWaiting p t q v d h in
    let (w', r, ready, processes, codes') =
      announce-IsReady t q (give_up p v) n (ap (λ ts. member t ts) threads ∙ m) waiting in
    (
      w',
      rw (single, exit_process) (rw (parent, end_process) (rw r refl)),
      ap (λ f. (f p).zombie) processes ∙ ended,
      ap (λ f. f p) (codes' ∙ codes) ∙ rw (itself p) refl,
      ready,
    )
  where
    itself : (n : ℕ) → (n == n) ≡ true
    itself n = ground arith
