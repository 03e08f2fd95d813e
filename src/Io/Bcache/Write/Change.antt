-- ===== src/Io/Bcache/Write/Change.antt =====
-- A block of the cache and of the device that changes, and the others, which do not.
use native.Mathlib.Nat.{div-add-mod', mul-le-mul_right}
use chaff.Prelude.{
  ℕ, suc, ◌+◌, ◌-◌, ◌*◌, ◌/◌, ◌%◌, ◌≤◌, ◌<◌, ◌≡◌, ◌≢◌, refl, ap, sym, ◌∙◌, ◌⊎◌, inl, inr, true,
  false, Option, some, ◌==◌, arith, Bool-cases, Option-cases, update, subst,
}
use chaff.Io.Bcache.{ready, Block, Cache, put_block, unlock_block, unlock, copy}
use chaff.Io.Bcache.Read.{unlock-found}
use chaff.Io.Bcache.Buffer.{below, copy_inside, copy_outside}
use chaff.Io.Bcache.Write.Idle.{IsIdleBlock, IsIdle}

-- Two blocks of a device have no byte in common.
pub blocks_apart :
    (size at off i : ℕ)
    → 0 < size
    → at % size ≡ 0
    → off % size ≡ 0
    → at ≢ off
    → i < size
    → (off + i < at) ⊎ (at + size ≤ off + i)
blocks_apart size at off i p a o d l = elim (order (at / size) (off / size)) [
  | inl h ↦
      inr
        (omega (arith, mul-le-mul_right size h, div-add-mod' at size, div-add-mod' off size, a, o))
  | inr (inl h) ↦
      inl (
        omega
          (arith, mul-le-mul_right size h, div-add-mod' at size, div-add-mod' off size, a, o, l))
  | inr (inr h) ↦ absurd (
      d (
        sym (div-add-mod' at size)
        ∙ ap (λ m. m + at % size) (ap (λ q. q * size) h)
        ∙ ap (λ m. off / size * size + m) (a ∙ sym o)
        ∙ div-add-mod' off size))
]
  where
    order : (m n : ℕ) → (suc m ≤ n) ⊎ ((suc n ≤ m) ⊎ (m ≡ n))
    order m n = grind arith

-- Unlocking a ready block with at most one lock, which has just been put into the table.
pub unlock_idle :
    (b : Block) (c : Cache)
    → b.phase ≡ ready
    → b.ref_count ≤ 1
    → unlock b.offset (put_block b c) ≡ record c {
      table = update (put_block b c).table b.offset (some (record b { ref_count = 0 }));
    }
unlock_idle b c p l =
    unlock-found b.offset b (put_block b c) (rw same refl)
    ∙ ap (λ o. record c { table = update (put_block b c).table b.offset o }) idle
  where
    same : (b.offset == b.offset) ≡ true
    same = ground arith

    none_left : (b.ref_count == 0) ≡ false → b.ref_count - 1 ≡ 0
    none_left e = omega (arith, l)

    idle : unlock_block b ≡ some (record b { ref_count = 0 })
    idle = elim (Bool-cases (b.ref_count == 0)) [
      | inl e ↦ rw e (ap (λ n. some (record b { ref_count = n })) (ground (arith, e)))
      | inr e ↦
          rw e (rw p (ap (λ n. some (record b { phase = ready; ref_count = n })) (none_left e)))
    ]

-- Copies of the same bytes to the same place, and at two places.
pub copy_same :
    (mem : ℕ → ℕ) (to : ℕ) (bytes bytes' : ℕ → ℕ) (from from' n a : ℕ)
    → ((i : ℕ) → i < n → bytes (from + i) ≡ bytes' (from' + i))
    → copy mem to bytes from n a ≡ copy mem to bytes' from' n a
copy_same mem to bytes bytes' from from' n a same = elim (below a to) [
  | inl l ↦
      copy_outside mem to bytes from n a (inl l)
      ∙ sym (copy_outside mem to bytes' from' n a (inl l))
  | inr l ↦ elim (below a (to + n)) [
    | inl m ↦
        copy_inside mem to bytes from n a l m
        ∙ same (a - to) (omega (arith, l, m))
        ∙ sym (copy_inside mem to bytes' from' n a l m)
    | inr m ↦
        copy_outside mem to bytes from n a (inr m)
        ∙ sym (copy_outside mem to bytes' from' n a (inr m))
  ]
]

pub copy_shift :
    (mem disk bytes : ℕ → ℕ) (to at from n i : ℕ)
    → (i < to ⊎ to + n ≤ i → mem i ≡ disk (at + i))
    → copy mem to bytes from n i ≡ copy disk (at + to) bytes from n (at + i)
copy_shift mem disk bytes to at from n i same = elim (below i to) [
  | inl l ↦ outside (inl l) (inl (omega (arith, l)))
  | inr l ↦ elim (below i (to + n)) [
    | inl m ↦
        copy_inside mem to bytes from n i l m
        ∙ ap (λ k. bytes (from + k)) (omega (arith, l))
        ∙ sym
            (copy_inside disk (at + to) bytes from n (at + i) (omega (arith, l)) (omega (arith, m)))
    | inr m ↦ outside (inr m) (inr (omega (arith, m)))
  ]
]
  where
    outside :
        (i < to) ⊎ (to + n ≤ i)
        → (at + i < at + to) ⊎ (at + to + n ≤ at + i)
        → copy mem to bytes from n i ≡ copy disk (at + to) bytes from n (at + i)
    outside p q =
        copy_outside mem to bytes from n i p
        ∙ same p
        ∙ sym (copy_outside disk (at + to) bytes from n (at + i) q)

-- The table with a written block in it, where the device's bytes have changed in that block only.
pub IsIdle-update :
    (disk disk' : ℕ → ℕ) (at : ℕ) (b : Block) (c : Cache) (old : ℕ → Option Block)
    → at % c.block_size ≡ 0
    → b.offset ≡ at
    → b.phase ≡ ready
    → ((o : ℕ) → at ≢ o → c.table o ≡ old o)
    → ((o : ℕ) → IsIdleBlock disk c.block_size o (old o))
    → ((i : ℕ) → i < c.block_size → b.bytes i ≡ disk' (at + i))
    → ((o i : ℕ) → at ≢ o → o % c.block_size ≡ 0 → i < c.block_size → disk (o + i) ≡ disk' (o + i))
    → IsIdle disk' (record c {
      table = update (put_block b c).table b.offset (some (record b { ref_count = 0 }));
    })
IsIdle-update disk disk' at b c old a place r others idle bytes same o =
    elim (Bool-cases (b.offset == o)) [
      | inl e ↦
          let k = sym place ∙ equal e in
          rw e (
            equal e,
            r,
            refl,
            subst (λ m. m % c.block_size ≡ 0) k a,
            λ i l. bytes i l ∙ ap (λ m. disk' (m + i)) k,
          )
      | inr e ↦
          let d = differ e in
          rw e (
            rw (others o d) (elim (Option-cases (old o)) [
              | inl n ↦ rw n tt
              | inr (x, n) ↦
                  let (p, q, l, z, bs) = subst (IsIdleBlock disk c.block_size o) n (idle o) in
                  rw n (p, q, l, z, λ i h. bs i h ∙ same o i d z h)
            ]))
    ]
  where
    equal : (b.offset == o) ≡ true → b.offset ≡ o
    equal e = ground (arith, e)

    differ : (b.offset == o) ≡ false → at ≢ o
    differ e = ground (arith, e, place)
