-- ===== src/Mm/Slab/Kalloc.antt =====
-- The caches of `MemKAlloc`.
use native.Mathlib.Nat.{pow-le-pow_right, two-pow-succ}
use chaff.Prelude.{
  ℕ, zero, suc, ◌+◌, ◌-◌, ◌*◌, ◌/◌, ◌^◌, ◌≤◌, ◌<◌, ◌≡◌, refl, ap, sym, ◌∙◌, inl, inr, Bool, true,
  false, ◌||◌, some, ltb, leb, ◌==◌, if◌then◌else◌, arith, Bool-cases,
}
use chaff.Mm.Slab.{highest_bit, bit_scan_reverse, kalloc_index}

highest_bit_lem :
    (fuel n : ℕ)
    → 0 < n
    → n < 2 ^ fuel
    → (2 ^ highest_bit fuel n ≤ n) × (n < 2 ^ highest_bit fuel n + 2 ^ highest_bit fuel n)
unfolding highest_bit
highest_bit_lem zero n p h = absurd (omega (arith, p, h))
highest_bit_lem (suc fuel) n p h = elim (Bool-cases (n / 2 == 0)) [
  | inl e ↦ rw e (omega (arith, p), omega (arith, small e))
  | inr e ↦
      let (a, b) =
        highest_bit_lem fuel (n / 2) (positive e) (omega (arith, h, two-pow-succ fuel)) in
      rw e (
        omega (arith, a, two-pow-succ (highest_bit fuel (n / 2))),
        omega (arith, b, two-pow-succ (highest_bit fuel (n / 2))),
      )
]
  where
    small : (n / 2 == 0) ≡ true → n / 2 ≡ 0
    small e = ground (arith, e)

    positive : (n / 2 == 0) ≡ false → 0 < n / 2
    positive e = ground (arith, e)

-- Powers of two reflect the order.
pow_reflects : (a b : ℕ) → 2 ^ a ≤ 2 ^ b → a ≤ b
pow_reflects a b h = elim (Bool-cases (leb a b)) [
  | inl e ↦ ground (arith, e)
  | inr e ↦ absurd (
      omega
        (arith, h, pow-le-pow_right {n = 2} (omega arith) (above e), two-pow-succ b, positive b))
]
  where
    above : leb a b ≡ false → suc b ≤ a
    above e = ground (arith, e)

    positive : (k : ℕ) → 0 < 2 ^ k
    positive zero = omega arith
    positive (suc k) = omega (arith, positive k, two-pow-succ k)

pow_reflects_lt : (a b : ℕ) → 2 ^ a < 2 ^ b → a < b
pow_reflects_lt a b h = elim (Bool-cases (leb b a)) [
  | inl e ↦ absurd (omega (arith, h, pow-le-pow_right {n = 2} (omega arith) (below e)))
  | inr e ↦ ground (arith, e)
]
  where
    below : leb b a ≡ true → b ≤ a
    below e = ground (arith, e)

-- The smallest of the eleven caches whose objects are large enough: those of cache `i` have 8 * 2^i bytes.
abbrev pub IsSmallest : ℕ → ℕ → Type 0
IsSmallest bytes i = (i ≤ 10) × (bytes ≤ 8 * 2 ^ i) × ((j : ℕ) → bytes ≤ 8 * 2 ^ j → i ≤ j)

pow_double : (k : ℕ) → 2 ^ suc k ≡ 2 ^ k + 2 ^ k
pow_double k = two-pow-succ k

-- Eight times a power of two.
pow_eight : (k : ℕ) → 2 ^ (k + 3) ≡ 8 * 2 ^ k
pow_eight k = ap (λ m. 2 ^ m) three ∙ thrice
  where
    three : k + 3 ≡ suc (suc (suc k))
    three = omega arith

    thrice : 2 ^ suc (suc (suc k)) ≡ 8 * 2 ^ k
    thrice = omega (arith, pow_double k, pow_double (suc k), pow_double (suc (suc k)))

kalloc_large :
    (bytes k : ℕ)
    → bytes ≤ 8 * 2 ^ 10
    → 8 * 2 ^ k ≤ bytes
    → bytes < 8 * 2 ^ k + 8 * 2 ^ k
    → IsSmallest bytes (if 2 ^ (k + 3) == bytes then k else k + 1)
kalloc_large bytes k top low high = elim (Bool-cases (2 ^ (k + 3) == bytes)) [
  | inl e ↦ rw e (
    pow_reflects k 10 (omega (arith, low, top)),
    omega (arith, pow_eight k, same e),
    λ j h. pow_reflects k j (omega (arith, low, h)),
  )
  | inr e ↦ rw e (
    omega (arith, pow_reflects_lt k 10 (omega (arith, pow_eight k, other e, low, top))),
    next,
    λ j h. omega (arith, pow_reflects_lt k j (omega (arith, pow_eight k, other e, low, h))),
  )
]
  where
    same : (2 ^ (k + 3) == bytes) ≡ true → 2 ^ (k + 3) ≡ bytes
    same e = ground (arith, e)

    other : (2 ^ (k + 3) == bytes) ≡ false → ¬ (2 ^ (k + 3) ≡ bytes)
    other e = ground (arith, e)

    one : k + 1 ≡ suc k
    one = omega arith

    next : bytes ≤ 8 * 2 ^ (k + 1)
    next = omega (arith, high, pow_double k, ap (λ m. 2 ^ m) one)

-- The power of two below the size, by its index.
kalloc_power :
    (bytes : ℕ)
    → 8 < bytes
    → bytes ≤ 8192
    → (8 * 2 ^ (28 - bit_scan_reverse bytes) ≤ bytes)
      × (bytes < 8 * 2 ^ (28 - bit_scan_reverse bytes) + 8 * 2 ^ (28 - bit_scan_reverse bytes))
kalloc_power bytes p h = (omega (arith, a, power), omega (arith, b, power))
  where
    bit :
        (2 ^ highest_bit 32 bytes ≤ bytes)
        × (bytes < 2 ^ highest_bit 32 bytes + 2 ^ highest_bit 32 bytes)
    bit = highest_bit_lem 32 bytes (omega (arith, p)) (omega (arith, h))

    a : 2 ^ highest_bit 32 bytes ≤ bytes
    a = bit.0

    b : bytes < 2 ^ highest_bit 32 bytes + 2 ^ highest_bit 32 bytes
    b = bit.1

    at_most : highest_bit 32 bytes ≤ 13
    at_most = pow_reflects (highest_bit 32 bytes) 13 (omega (arith, a, h))

    at_least : 3 < suc (highest_bit 32 bytes)
    at_least =
        pow_reflects_lt 3 (suc (highest_bit 32 bytes))
          (omega (arith, b, p, pow_double (highest_bit 32 bytes)))

    index : 28 - bit_scan_reverse bytes + 3 ≡ highest_bit 32 bytes
    index = omega (arith, at_most, at_least)

    power : 2 ^ highest_bit 32 bytes ≡ 8 * 2 ^ (28 - bit_scan_reverse bytes)
    power = sym (ap (λ m. 2 ^ m) index) ∙ pow_eight (28 - bit_scan_reverse bytes)

-- `MemKAlloc` of 1 to 8192 bytes takes the cache with the smallest objects that are large enough.
pub kalloc_index_lem :
    (bytes : ℕ)
    → 0 < bytes
    → bytes ≤ 8192
    → (i : ℕ) × (kalloc_index bytes ≡ some i) × IsSmallest bytes i
unfolding kalloc_index
kalloc_index_lem bytes p h = elim (Bool-cases (ltb 8 bytes)) [
  | inl e ↦
      let k = 28 - bit_scan_reverse bytes in
      let (low, high) = kalloc_power bytes (above e) h in
      (
        (if 2 ^ (k + 3) == bytes then k else k + 1),
        rw guard (rw e (if-some (2 ^ (k + 3) == bytes) k (k + 1))),
        kalloc_large bytes k h low high,
      )
  | inr e ↦ (0, rw guard (rw e refl), (omega arith, below e, λ j b. omega arith))
]
  where
    guard : (bytes == 0 || ltb (8 * 2 ^ 10) bytes) ≡ false
    guard = ground (arith, p, h)

    above : ltb 8 bytes ≡ true → 8 < bytes
    above e = ground (arith, e)

    below : ltb 8 bytes ≡ false → bytes ≤ 8
    below e = ground (arith, e)

    if-some : (b : Bool) (m n : ℕ) → (if b then some m else some n) ≡ some (if b then m else n)
    if-some true m n = refl
    if-some false m n = refl
