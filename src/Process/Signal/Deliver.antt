-- ===== src/Process/Signal/Deliver.antt =====
-- What `ProcSignalHandler` can come to.
use Prim.Native.Nat.{bit_and, bit_or, ◌^◌}
use chaff.Prelude.{
  ℕ, zero, suc, ◌+◌, ◌-◌, ◌≤◌, ◌<◌, ◌≡◌, refl, ap, sym, ◌∙◌, inl, inr, Bool, true, false, not, ◌&&◌,
  ◌==◌, ltb, arith, Bool-cases, ◌⊎◌,
}
use chaff.Prelude.Bits.{
  has_bit, complement, has_bit-bit_and, has_bit-complement, has_bit-pow, has_bit-above, bit_and_le,
  bits_ext, has_bit-zero, pow_le_ones, lowest_bit, has_bit-lowest_bit, below-lowest_bit,
}
use chaff.Process.Signal.{Signals, Action, meets, signal_bit, sig_segv}
use chaff.Process.Signal.Handler.{
  Outcome, returns, exits_thread, exits_process, suspends, calls, unfinished, Default, ignore,
  suspend, terminate, default_action, act, act_default, handle_from, signal_handler, deliverable,
  clear_signal,
}

-- A handler that is neither SIG_DFL nor SIG_IGN.
abbrev pub IsCustom : Action → Type 0
IsCustom action = (action.handler == 0) ≡ false × (action.handler == 1) ≡ false

-- An outcome that the check of the user stack, a process's actions and a set of signals allow.
abbrev pub Allowed : Bool → (ℕ → Action) → ℕ → Outcome → Type 0
Allowed committed actions set returns = Unit
Allowed committed actions set exits_thread = has_bit set 3 ≡ true
Allowed committed actions set (exits_process num) =
    ((has_bit set (num - 1) ≡ true)
      × ((actions (num - 1)).handler == 0) ≡ true
      × (default_action num ≡ terminate))
    ⊎ ((committed ≡ false)
        × (num ≡ sig_segv)
        × ((i : ℕ) × (has_bit set i ≡ true) × IsCustom (actions i)))
Allowed committed actions set suspends = Unit
Allowed committed actions set (calls action num) =
    (committed ≡ true)
    × (has_bit set (num - 1) ≡ true)
    × (action ≡ actions (num - 1))
    × IsCustom action
Allowed committed actions set unfinished = ⊥

-- The set without its lowest bit.
abbrev rest_of : ℕ → ℕ
rest_of set = bit_and set (complement (signal_bit (lowest_bit 32 set + 1)))

lowest_small : (set : ℕ) → set ≤ 0xFFFFFFFF → (set == 0) ≡ false → lowest_bit 32 set < 32
lowest_small set l z = elim (Bool-cases (ltb (lowest_bit 32 set) 32)) [
  | inl e ↦ ground (arith, e)
  | inr e ↦ absurd (
      apart (
        sym (has_bit-lowest_bit 32 set (omega arith) z)
        ∙ has_bit-above 32 set (lowest_bit 32 set) (omega arith) (ground (arith, e))))
]
  where
    apart : true ≡ false → ⊥
    apart e = cc

has_bit-rest_of :
    (set i : ℕ)
    → set ≤ 0xFFFFFFFF
    → (set == 0) ≡ false
    → i < 32
    → has_bit (rest_of set) i ≡ (has_bit set i && not (lowest_bit 32 set == i))
has_bit-rest_of set i l z h =
    has_bit-bit_and i set _
    ∙ ap (λ b. has_bit set i && b)
        (has_bit-complement i (signal_bit (low + 1)) h
            (pow_le_ones (low + 1 - 1) (omega (arith, lowest_small set l z)))
          ∙ ap not (has_bit-pow (low + 1 - 1) i ∙ ap (λ k. k == i) index))
  where
    low : ℕ
    low = lowest_bit 32 set

    index : low + 1 - 1 ≡ low
    index = omega arith

-- The next signal is a higher one.
lowest_bit-rest_of :
    (set : ℕ)
    → set ≤ 0xFFFFFFFF
    → (set == 0) ≡ false
    → (rest_of set == 0) ≡ false
    → lowest_bit 32 set < lowest_bit 32 (rest_of set)
lowest_bit-rest_of set l z r =
    let low' = lowest_bit 32 (rest_of set) in
    let fits : rest_of set ≤ 0xFFFFFFFF =
      omega (arith, bit_and_le set (complement (signal_bit (lowest_bit 32 set + 1))), l) in
    above low' (
      sym (has_bit-rest_of set low' l z (lowest_small (rest_of set) fits r))
      ∙ has_bit-lowest_bit 32 (rest_of set) (omega (arith, fits)) r)
  where
    above : (k : ℕ) → (has_bit set k && not (lowest_bit 32 set == k)) ≡ true → lowest_bit 32 set < k
    above k e = elim (Bool-cases (ltb k (lowest_bit 32 set))) [
      | inl b ↦ ground (arith, e, below-lowest_bit 32 set k)
      | inr b ↦ ground (arith, e, b)
    ]

act-Allowed :
    (committed : Bool) (actions : ℕ → Action) (all num : ℕ) (continues : Signals × Outcome)
    (w sent : Signals)
    → has_bit all (num - 1) ≡ true
    → Allowed committed actions all continues.1
    → Allowed committed actions all (act committed continues (actions (num - 1)) num w sent).1
unfolding act act_default
act-Allowed committed actions all num continues w sent b c =
    elim (Bool-cases ((actions (num - 1)).handler == 1)) [
      | inl e ↦ rw e c
      | inr e ↦ elim (Bool-cases ((actions (num - 1)).handler == 0)) [
        | inl f ↦ rw (e, f) (by_default (default_action num) refl f)
        | inr f ↦ elim (Bool-cases committed) [
          | inl g ↦ rw (e, f, g) (refl, b, refl, (f, e))
          | inr g ↦ rw (e, f, g) (inr (refl, refl, (num - 1, b, (f, e))))
        ]
      ]
    ]
  where
    by_default :
        (d : Default)
        → default_action num ≡ d
        → ((actions (num - 1)).handler == 0) ≡ true
        → Allowed committed actions all (act_default d continues w sent num).1
    by_default ignore e f = c
    by_default suspend e f = tt
    by_default terminate e f = inl (b, f, e)

handle_from-Allowed :
    (committed : Bool) (fuel : ℕ) (set all : ℕ) (w : Signals)
    → set ≤ 0xFFFFFFFF
    → (set == 0) ≡ false
    → 32 ≤ lowest_bit 32 set + fuel
    → ((i : ℕ) → i < 32 → has_bit set i ≡ true → has_bit all i ≡ true)
    → Allowed committed
        (w.handlers w.sched.current_process)
        all
        (handle_from committed fuel set w).1
unfolding handle_from clear_signal
handle_from-Allowed committed zero set all w l z f sub =
    absurd (omega (arith, lowest_small set l z))
handle_from-Allowed committed (suc fuel) set all w l z f sub =
    act-Allowed committed (w.handlers w.sched.current_process) all (low + 1) _ _ _
      (ap (has_bit all) index
        ∙ sub low (lowest_small set l z) (has_bit-lowest_bit 32 set (omega arith) z))
      (elim (Bool-cases (rest_of set == 0)) [
        | inl e ↦ rw e tt
        | inr e ↦ rw e (
            handle_from-Allowed committed fuel (rest_of set) all (clear_signal (low + 1) w) fits e
              (omega (arith, lowest_bit-rest_of set l z e, f))
              (λ i h b. sub i h (part _ (has_bit-rest_of set i l z h) b)))
      ])
  where
    low : ℕ
    low = lowest_bit 32 set

    index : low + 1 - 1 ≡ low
    index = omega arith

    fits : rest_of set ≤ 0xFFFFFFFF
    fits = omega (arith, bit_and_le set (complement (signal_bit (low + 1))), l)

    part : {a b : Bool} (c : Bool) → a ≡ (b && c) → a ≡ true → b ≡ true
    part {b = true} c e h = refl
    part {b = false} c e h = cc

deliverable_fits : (w : Signals) → deliverable w ≤ 0xFFFFFFFF
deliverable_fits w =
    omega (
      arith,
      bits_ext (bit_and all open_ones) (bit_and open_ones all) swap,
      bit_and_le open_ones all,
    )
  where
    all : ℕ
    all =
        bit_or (w.sched.threads w.sched.current).sig_pending
          (w.sched.process_pending w.sched.current_process)

    open_ones : ℕ
    open_ones = complement (w.sched.threads w.sched.current).sig_blocked

    swap : (i : ℕ) → has_bit (bit_and all open_ones) i ≡ has_bit (bit_and open_ones all) i
    swap i = has_bit-bit_and i all open_ones ∙ ground arith ∙ sym (has_bit-bit_and i open_ones all)

has_bit-meets : (set : ℕ) → meets set 8 ≡ true → has_bit set 3 ≡ true
has_bit-meets set m = elim (Bool-cases (has_bit set 3)) [
  | inl e ↦ e
  | inr e ↦ absurd (ground (arith, m, bits_ext (bit_and set 8) 0 (bit e)))
]
  where
    bit : has_bit set 3 ≡ false → (i : ℕ) → has_bit (bit_and set (2 ^ 3)) i ≡ has_bit 0 i
    bit e i =
        has_bit-bit_and i set (2 ^ 3)
        ∙ rw (has_bit-pow 3 i, has_bit-zero i) (ground (arith, ap (has_bit set), e))

-- `ProcSignalHandler` always comes to an end or to `SuspendSelf`, after which it begins anew, within
-- 32 turns of its loop. If it ends the process then either it is for a signal that is pending and not
-- blocked, whose handler is SIG_DFL and whose default is to terminate, or it is with SIGSEGV, some
-- signal with a handler of the program's own is pending and not blocked, and the user stack fails its
-- check. If it calls a handler then that is the program's own, of a signal that is pending and not
-- blocked, and the stack passes the check. If it ends the thread then signal 4 is pending and not
-- blocked.
pub signal_handler-Allowed :
    (committed : Bool) (cs : ℕ) (w : Signals)
    → Allowed committed
        (w.handlers w.sched.current_process)
        (deliverable w)
        (signal_handler committed cs w).1
unfolding signal_handler
signal_handler-Allowed committed cs w = elim (Bool-cases (cs == 0x1B)) [
  | inr e ↦ rw e tt
  | inl e ↦ elim (Bool-cases (deliverable w == 0)) [
    | inl f ↦ rw (e, f) tt
    | inr f ↦ elim (Bool-cases (meets (deliverable w) 8)) [
      | inl g ↦ rw (e, f, g) (has_bit-meets (deliverable w) g)
      | inr g ↦ elim (Bool-cases (meets (deliverable w) 18)) [
        | inl k ↦ rw (e, f, g, k) tt
        | inr k ↦
            rw (e, f, g, k)
              (handle_from-Allowed committed 32 (deliverable w) (deliverable w) w
                (deliverable_fits w) f (omega arith) (λ i h b. b))
      ]
    ]
  ]
]
