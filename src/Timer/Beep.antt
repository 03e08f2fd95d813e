-- ===== src/Timer/Beep.antt =====
-- The reload value of `TimerBeepAdv`.
use native.Mathlib.Nat.{mod-lt, mod-eq_of_lt, div-add-mod}
use chaff.Prelude.{ℕ, ◌/◌, ◌^◌, ◌≤◌, ◌<◌, ◌≡◌, refl, ltb, if◌then◌else◌, arith}
use chaff.Timer.{reload_value, oscillator_rate}

bounds :
    (freq : ℕ)
    → 19 ≤ freq
    → freq ≤ 596591
    → (2 ≤ oscillator_rate / freq) × (oscillator_rate / freq < 65536)
bounds freq a b =
    grind (arith, mod-lt oscillator_rate {m = freq} (omega arith), div-add-mod oscillator_rate freq)

unclamped :
    (freq : ℕ)
    → 19 ≤ freq
    → freq ≤ 596591
    → (if ltb freq 18 then 18 else if ltb 596591 freq then 596591 else freq) ≡ freq
unclamped freq a b = ground arith

clamped :
    (freq : ℕ)
    → freq ≤ 18
    → (if ltb freq 18 then 18 else if ltb 596591 freq then 596591 else freq) ≡ 18
clamped freq h = ground arith

-- From 19 Hz to 596591 Hz the reload value of `TimerBeepAdv` is the oscillator's rate divided by the
-- frequency: it fits the 16 bits of the counter, and is at least 2.
pub reload_value_fits :
    (freq : ℕ)
    → 19 ≤ freq
    → freq ≤ 596591
    → (reload_value freq ≡ oscillator_rate / freq) × (2 ≤ reload_value freq)
unfolding reload_value
reload_value_fits freq a b =
    rw
      (
        unclamped freq a b,
        mod-eq_of_lt {n = oscillator_rate / freq} {m = 2 ^ 16} (omega (arith, bounds freq a b)),
      )
      (refl, (bounds freq a b).0)

-- At 18 Hz, the lowest frequency that `TimerBeepAdv` lets through, and for every one that it raises
-- to that, the counter gets 751.
pub reload_value_wraps : (freq : ℕ) → freq ≤ 18 → reload_value freq ≡ 751
unfolding reload_value
reload_value_wraps freq h = rw (clamped freq h) refl
