-- ===== src/Prelude/Bits.antt =====
-- Sets of 32 bits: `bit_and`, `bit_or` and the complement, bit by bit.
use Prim.Native.Nat.{
  ℕ, zero, suc, ◌+◌, ◌-◌, ◌*◌, ◌/◌, ◌%◌, ◌^◌, ◌≤◌, ◌<◌, min, max, bit_and, bit_or, digits,
  bit_and-bitwise, bit_or-bitwise,
}
use mathlib.Core.Path.{◌≡◌, refl, ap, ◌∙◌, sym}
use mathlib.Core.Logic.{inl, inr}
use mathlib.Core.Bool.{Bool, true, false, not, ◌&&◌, ◌||◌}
use native.Mathlib.Omega.{arith}
use chaff.Prelude.Tests.{◌==◌, Bool-cases, if◌then◌else◌}

-- Whether a number has a bit, counted from the lowest.
abbrev pub has_bit : ℕ → ℕ → Bool
has_bit s zero = s % 2 == 1
has_bit s (suc i) = has_bit (s / 2) i

-- `~` on 32 bits.
abbrev pub complement : ℕ → ℕ
complement s = 0xFFFFFFFF - s

pub has_bit-zero : (i : ℕ) → has_bit 0 i ≡ false
has_bit-zero zero = refl
has_bit-zero (suc i) = has_bit-zero i

-- The digits that the native operations compute, on enough fuel for the first number: each bit is the
-- operation's on the two numbers' bits.
and_of_digits : ℕ → ℕ → ℕ → ℕ
and_of_digits fuel a b = digits (λ c. 0) min fuel a b

or_of_digits : ℕ → ℕ → ℕ → ℕ
or_of_digits fuel a b = digits (λ c. c) max fuel a b

has_bit-and_of_digits :
    (fuel a b i : ℕ) → a ≤ fuel → has_bit (and_of_digits fuel a b) i ≡ (has_bit a i && has_bit b i)
unfolding and_of_digits
has_bit-and_of_digits zero zero b i h = has_bit-zero i ∙ rw (has_bit-zero i) refl
has_bit-and_of_digits zero (suc a) b i h = absurd (omega arith)
has_bit-and_of_digits (suc fuel) zero b i h = has_bit-zero i ∙ rw (has_bit-zero i) refl
has_bit-and_of_digits (suc fuel) (suc a) b zero h = ground arith
has_bit-and_of_digits (suc fuel) (suc a) b (suc i) h =
    ap (λ s. has_bit s i) upper ∙ has_bit-and_of_digits fuel (suc a / 2) (b / 2) i (omega arith)
  where
    upper :
        (digits (λ c. 0) min fuel (suc a / 2) (b / 2) * 2 + min (suc a % 2) (b % 2)) / 2
        ≡ digits (λ c. 0) min fuel (suc a / 2) (b / 2)
    upper = omega arith

has_bit-or_of_digits :
    (fuel a b i : ℕ) → a ≤ fuel → has_bit (or_of_digits fuel a b) i ≡ (has_bit a i || has_bit b i)
unfolding or_of_digits
has_bit-or_of_digits zero zero b i h = rw (has_bit-zero i) refl
has_bit-or_of_digits zero (suc a) b i h = absurd (omega arith)
has_bit-or_of_digits (suc fuel) zero b i h = rw (has_bit-zero i) refl
has_bit-or_of_digits (suc fuel) (suc a) b zero h = ground arith
has_bit-or_of_digits (suc fuel) (suc a) b (suc i) h =
    ap (λ s. has_bit s i) upper ∙ has_bit-or_of_digits fuel (suc a / 2) (b / 2) i (omega arith)
  where
    upper :
        (digits (λ c. c) max fuel (suc a / 2) (b / 2) * 2 + max (suc a % 2) (b % 2)) / 2
        ≡ digits (λ c. c) max fuel (suc a / 2) (b / 2)
    upper = omega arith

pub has_bit-bit_and : (i a b : ℕ) → has_bit (bit_and a b) i ≡ (has_bit a i && has_bit b i)
unfolding and_of_digits
has_bit-bit_and i a b =
    ap (λ s. has_bit s i) (bit_and-bitwise a b) ∙ has_bit-and_of_digits a a b i (omega arith)

pub has_bit-bit_or : (i a b : ℕ) → has_bit (bit_or a b) i ≡ (has_bit a i || has_bit b i)
unfolding or_of_digits
has_bit-bit_or i a b =
    ap (λ s. has_bit s i) (bit_or-bitwise a b) ∙ has_bit-or_of_digits a a b i (omega arith)

and_of_digits_le : (fuel a b : ℕ) → and_of_digits fuel a b ≤ a
unfolding and_of_digits
and_of_digits_le zero a b = omega arith
and_of_digits_le (suc fuel) zero b = omega arith
and_of_digits_le (suc fuel) (suc a) b = omega (arith, and_of_digits_le fuel (suc a / 2) (b / 2))

pub bit_and_le : (a b : ℕ) → bit_and a b ≤ a
unfolding and_of_digits
bit_and_le a b = omega (arith, bit_and-bitwise a b, and_of_digits_le a a b)

abbrev pub pow2 : ℕ → ℕ
pow2 zero = 1
pow2 (suc n) = 2 * pow2 n

has_bit-ones_less :
    (n i s : ℕ) → i < n → s < pow2 n → has_bit (pow2 n - 1 - s) i ≡ not (has_bit s i)
has_bit-ones_less zero i s h l = absurd (omega arith)
has_bit-ones_less (suc n) zero s h l = ground arith
has_bit-ones_less (suc n) (suc i) s h l =
    ap (λ s. has_bit s i) half ∙ has_bit-ones_less n i (s / 2) (omega arith) (omega arith)
  where
    half : (2 * pow2 n - 1 - s) / 2 ≡ pow2 n - 1 - s / 2
    half = omega arith

pub has_bit-complement :
    (i s : ℕ) → i < 32 → s ≤ 0xFFFFFFFF → has_bit (complement s) i ≡ not (has_bit s i)
has_bit-complement i s h l = has_bit-ones_less 32 i s h (omega arith)

-- `1 << k` has the bit k alone.
pub has_bit-pow : (k i : ℕ) → has_bit (2 ^ k) i ≡ (k == i)
has_bit-pow zero zero = refl
has_bit-pow zero (suc i) = has_bit-zero i ∙ ground arith
has_bit-pow (suc k) zero = ground arith
has_bit-pow (suc k) (suc i) = ap (λ s. has_bit s i) half ∙ has_bit-pow k i ∙ ground arith
  where
    half : 2 ^ suc k / 2 ≡ 2 ^ k
    half = omega arith

pow-pow2 : (k n : ℕ) → k ≤ n → 2 ^ k ≤ pow2 n
pow-pow2 zero zero h = omega arith
pow-pow2 zero (suc n) h = omega (arith, pow-pow2 zero n)
pow-pow2 (suc k) zero h = absurd (omega arith)
pow-pow2 (suc k) (suc n) h = omega (arith, pow-pow2 k n)

pub pow_le_ones : (k : ℕ) → k < 32 → 2 ^ k ≤ 0xFFFFFFFF
pow_le_ones k h = omega (arith, pow-pow2 k 31)

-- A set with a bit is not empty.
pub has_bit-nonzero : (s i : ℕ) → has_bit s i ≡ true → (s == 0) ≡ false
has_bit-nonzero zero i h = absurd (true-false (sym h ∙ has_bit-zero i))
  where
    true-false : true ≡ false → ⊥
    true-false e = cc
has_bit-nonzero (suc s) i h = ground arith

-- Numbers with the same bits are equal.
bits_ext_to : (n a b : ℕ) → a + b ≤ n → ((i : ℕ) → has_bit a i ≡ has_bit b i) → a ≡ b
bits_ext_to zero a b h e = omega arith
bits_ext_to (suc n) a b h e = elim (Bool-cases (a + b == 0)) [
  | inl z ↦ ground arith
  | inr z ↦
      omega (arith, bits_ext_to n (a / 2) (b / 2) (halves z) (λ i. e (suc i)), lowest (e zero))
]
  where
    halves : (a + b == 0) ≡ false → a / 2 + b / 2 ≤ n
    halves z = ground arith

    lowest : (a % 2 == 1) ≡ (b % 2 == 1) → a % 2 ≡ b % 2
    lowest q = ground arith

pub bits_ext : (a b : ℕ) → ((i : ℕ) → has_bit a i ≡ has_bit b i) → a ≡ b
bits_ext a b e = bits_ext_to (a + b) a b (omega arith) e

pub has_bit-above : (n s i : ℕ) → s < pow2 n → n ≤ i → has_bit s i ≡ false
has_bit-above zero s i h l = rw zeroed (has_bit-zero i)
  where
    zeroed : s ≡ 0
    zeroed = omega arith
has_bit-above (suc n) s zero h l = absurd (omega arith)
has_bit-above (suc n) s (suc i) h l = has_bit-above n (s / 2) i (omega arith) (omega arith)

-- `__builtin_ctz`, the place of the lowest bit, for a set of at most `n` bits that is not empty.
unfoldable pub lowest_bit : ℕ → ℕ → ℕ
lowest_bit zero set = 0
lowest_bit (suc n) set = let rest = lowest_bit n (set / 2) in if set % 2 == 1 then 0 else suc rest

pub has_bit-lowest_bit :
    (n set : ℕ) → set < pow2 n → (set == 0) ≡ false → has_bit set (lowest_bit n set) ≡ true
unfolding lowest_bit
has_bit-lowest_bit zero set l h = absurd (ground arith)
has_bit-lowest_bit (suc n) set l h = elim (Bool-cases (set % 2 == 1)) [
  | inl e ↦ rw e e
  | inr e ↦ rw e (has_bit-lowest_bit n (set / 2) (omega arith) (ground arith))
]

pub below-lowest_bit : (n set i : ℕ) → i < lowest_bit n set → has_bit set i ≡ false
unfolding lowest_bit
below-lowest_bit zero set i h = absurd (omega arith)
below-lowest_bit (suc n) set zero h = elim (Bool-cases (set % 2 == 1)) [
  | inl e ↦ absurd (ground (arith, h))
  | inr e ↦ e
]
below-lowest_bit (suc n) set (suc i) h = below-lowest_bit n (set / 2) i (ground (arith, h))
