-- ===== src/Process/Signal/Masks.antt =====
-- `ProcSignalSetMask` and `ProcSignalSetAction`.
use Prim.Native.Nat.{bit_and}
use chaff.Prelude.{
  ℕ, ◌-◌, ◌^◌, ◌≤◌, ◌<◌, ◌≡◌, refl, ap, ◌∙◌, inl, inr, Bool, true, not, ◌&&◌, ◌||◌, List, [], ◌∷◌,
  ◌==◌, arith, Bool-cases, update,
}
use chaff.Prelude.Bits.{
  has_bit, complement, has_bit-bit_and, has_bit-bit_or, has_bit-complement, has_bit-pow,
  pow_le_ones,
}
use chaff.Process.Signal.{
  Signals, Action, set_process_pending, signal_bit, signal_is_ignored, in_range, sig_cont, sig_cld,
  How, block, unblock, set_all, other, new_mask, unblockable, set_mask, set_action, mask_each,
}
use chaff.Process.Scheduler.Invariant.{member}

-- The bits 8 and 18.
pub has_bit-unblockable : (i : ℕ) → has_bit unblockable i ≡ (i == 8 || i == 18)
has_bit-unblockable i =
    has_bit-bit_or i (2 ^ 8) (2 ^ 18) ∙ cong2 (has_bit-pow 8 i) (has_bit-pow 18 i) ∙ ground arith
  where
    cong2 : {a b c d : Bool} → a ≡ b → c ≡ d → (a || c) ≡ (b || d)
    cong2 p q = cc

-- Whether a signal's bit is in the mask asked for, by its bits in the set and in the mask before.
abbrev pub wanted : How → Bool → Bool → Bool
wanted block in_set before = before || in_set
wanted unblock in_set before = before && not in_set
wanted set_all in_set before = in_set
wanted other in_set before = before

has_bit-new_mask :
    (how : How) (set blocked i : ℕ)
    → i < 32
    → set ≤ 0xFFFFFFFF
    → has_bit (new_mask how set blocked) i ≡ wanted how (has_bit set i) (has_bit blocked i)
unfolding new_mask
has_bit-new_mask block set blocked i h l = has_bit-bit_or i blocked set
has_bit-new_mask unblock set blocked i h l =
    has_bit-bit_and i blocked (complement set)
    ∙ ap (λ b. has_bit blocked i && b) (has_bit-complement i set h l)
has_bit-new_mask set_all set blocked i h l = refl
has_bit-new_mask other set blocked i h l = refl

-- After `ProcSignalSetMask`, for a set of 32 bits, a signal is blocked exactly if it would be by the
-- request and it is SIGKILL (bit 8) or SIGSTOP (bit 18).
pub set_mask_lem :
    (w : Signals) (t : ℕ) (how : How) (set i : ℕ)
    → i < 32
    → set ≤ 0xFFFFFFFF
    → has_bit ((set_mask t how set w).sched.threads t).sig_blocked i ≡ (
        wanted how (has_bit set i) (has_bit (w.sched.threads t).sig_blocked i)
        && (i == 8 || i == 18))
unfolding set_mask
set_mask_lem w t how set i h l = rw same (
    has_bit-bit_and i _ unblockable
    ∙ rw (has_bit-new_mask how set _ i h l, has_bit-unblockable i) refl)
  where
    same : (t == t) ≡ true
    same = ground arith

-- The threads of a list lose the bit that a mask lacks, and no thread is given one.
mask_each_lem :
    (mask : ℕ) (ts : List ℕ) (w : Signals) (t i : ℕ)
    → has_bit ((mask_each mask ts w).sched.threads t).sig_pending i
      ≡ (has_bit (w.sched.threads t).sig_pending i && (not (member t ts) || has_bit mask i))
unfolding mask_each
mask_each_lem mask [] w t i = ground arith
mask_each_lem mask (x ∷ xs) w t i = elim (Bool-cases (x == t)) [
  | inl e ↦
      mask_each_lem mask xs _ t i
      ∙ rw (e, has_bit-bit_and i (w.sched.threads x).sig_pending mask)
          (ground (arith, ap (λ u. has_bit (w.sched.threads u).sig_pending i)))
  | inr e ↦ mask_each_lem mask xs _ t i ∙ rw e refl
]

handlers-mask_each :
    (mask : ℕ) (ts : List ℕ) (w : Signals) → (mask_each mask ts w).handlers ≡ w.handlers
unfolding mask_each
handlers-mask_each mask [] w = refl
handlers-mask_each mask (t ∷ ts) w = handlers-mask_each mask ts _

process_pending-mask_each :
    (mask : ℕ) (ts : List ℕ) (w : Signals)
    → (mask_each mask ts w).sched.process_pending ≡ w.sched.process_pending
unfolding mask_each
process_pending-mask_each mask [] w = refl
process_pending-mask_each mask (t ∷ ts) w = process_pending-mask_each mask ts _

-- `ProcSignalSetAction` of an action that ignores the signal, SIG_IGN or the default of a signal that is
-- ignored by default: the action is stored with a mask of no more than SIGKILL and SIGSTOP; the
-- signal is no longer pending for the process or for any thread that the walk over its children
-- gives; and no other signal becomes or stops being pending for the process or for any thread.
pub set_action_lem :
    (w : Signals) (p num : ℕ) (action : Action) (t i : ℕ)
    → in_range num ≡ true
    → (action.handler == 1 || (action.handler == 0 && (num == sig_cont || num == sig_cld))) ≡ true
    → i < 32
    → let w' = set_action p num action w in
      (w'.handlers p (num - 1) ≡ record action { mask = bit_and action.mask unblockable })
      × (has_bit (w'.sched.process_pending p) i
          ≡ (has_bit (w.sched.process_pending p) i && not (num - 1 == i)))
      × (has_bit (w'.sched.threads t).sig_pending i ≡ (
          has_bit (w.sched.threads t).sig_pending i
          && (not (member t (w.children p)) || not (num - 1 == i))))
unfolding set_action signal_is_ignored
set_action_lem w p num action t i r g h =
    rw (same p, same (num - 1), g, r)
      (
        ap (λ f. f p (num - 1)) (handlers-mask_each mask (w.children p) cleared)
            ∙ rw (same p, same (num - 1)) refl,
        ap (λ f. has_bit (f p) i) (process_pending-mask_each mask (w.children p) cleared)
            ∙ rw (same p) (has_bit-bit_and i _ _)
            ∙ ap (λ b. has_bit (w.sched.process_pending p) i && b) mask_bit,
        mask_each_lem mask (w.children p) cleared t i
            ∙ ap
                (λ b.
                  has_bit (w.sched.threads t).sig_pending i && (not (member t (w.children p)) || b))
                mask_bit,
      )
  where
    same : (n : ℕ) → (n == n) ≡ true
    same n = ground arith

    mask : ℕ
    mask = complement (signal_bit num)

    cleared : Signals
    cleared = set_process_pending p (bit_and (w.sched.process_pending p) mask) (record w {
      handlers = update w.handlers p (
          update (w.handlers p) (num - 1)
            (record action { mask = bit_and action.mask unblockable }));
    })

    mask_bit : has_bit (complement (signal_bit num)) i ≡ not (num - 1 == i)
    mask_bit =
        has_bit-complement i _ h (pow_le_ones (num - 1) (ground (arith, r)))
        ∙ ap not (has_bit-pow (num - 1) i)
