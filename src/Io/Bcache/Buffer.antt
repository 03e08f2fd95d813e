-- ===== src/Io/Bcache/Buffer.antt =====
-- `IoBlockCacheReadBuffer` of a cache that agrees with the device.
use native.Mathlib.Nat.{div-add-mod', mul-le-mul_right, mod-lt, div-lt_iff_lt-mul}
use chaff.Prelude.{
  ℕ, zero, suc, ◌+◌, ◌-◌, ◌*◌, ◌/◌, ◌%◌, ◌^◌, ◌≤◌, ◌<◌, ◌≡◌, refl, ap, sym, ◌∙◌, ◌⊎◌, inl, inr,
  true, false, arith, Bool-cases, leb, ltb, ◌&&◌,
}
use chaff.Prelude.Int.{pos}
use chaff.Io.Bcache.{Cache, Device, align, unlock, copy, Outcome, returns, part, read_buffer}
use chaff.Io.Bcache.Read.{IsCoherent, IsReader, IsKept, cache_read_lem}

-- The bytes that are copied, and the others.
pub copy_inside :
    (mem : ℕ → ℕ) (to : ℕ) (bytes : ℕ → ℕ) (from length a : ℕ)
    → to ≤ a
    → a < to + length
    → copy mem to bytes from length a ≡ bytes (from + (a - to))
copy_inside mem to bytes from length a p q = rw (in_range p q) refl
  where
    in_range : to ≤ a → a < to + length → (leb to a && ltb a (to + length)) ≡ true
    in_range p q = ground (arith, p, q)

pub copy_outside :
    (mem : ℕ → ℕ) (to : ℕ) (bytes : ℕ → ℕ) (from length a : ℕ)
    → (a < to) ⊎ (to + length ≤ a)
    → copy mem to bytes from length a ≡ mem a
copy_outside mem to bytes from length a p = rw (out p) refl
  where
    out : (a < to) ⊎ (to + length ≤ a) → (leb to a && ltb a (to + length)) ≡ false
    out p = ground (arith, p)

pub below : (a b : ℕ) → (a < b) ⊎ (b ≤ a)
below a b = elim (Bool-cases (ltb a b)) [
  | inl e ↦ inl (ground (arith, e))
  | inr e ↦ inr (ground (arith, e))
]

pub copy_nothing :
    (mem : ℕ → ℕ) (to : ℕ) (bytes : ℕ → ℕ) (from a : ℕ) → copy mem to bytes from 0 a ≡ mem a
copy_nothing mem to bytes from a = elim (below a to) [
  | inl l ↦ copy_outside mem to bytes from 0 a (inl l)
  | inr l ↦ copy_outside mem to bytes from 0 a (inr (omega (arith, l)))
]

-- A copy in two parts, of which the second is the whole copy's.
pub copy-copy :
    (mem : ℕ → ℕ) (to : ℕ) (bytes disk : ℕ → ℕ) (from off n length a : ℕ)
    → n ≤ length
    → ((i : ℕ) → i < n → bytes (from + i) ≡ disk (off + i))
    → copy (copy mem to bytes from n) (to + n) disk (off + n) (length - n) a
      ≡ copy mem to disk off length a
copy-copy mem to bytes disk from off n length a h same = elim (below a to) [
  | inl l ↦
      copy_outside inner (to + n) disk (off + n) (length - n) a (inl (omega (arith, l)))
      ∙ copy_outside mem to bytes from n a (inl l)
      ∙ sym (copy_outside mem to disk off length a (inl l))
  | inr l ↦ elim (below a (to + n)) [
    | inl m ↦
        copy_outside inner (to + n) disk (off + n) (length - n) a (inl m)
        ∙ copy_inside mem to bytes from n a l m
        ∙ same (a - to) (omega (arith, l, m))
        ∙ sym (copy_inside mem to disk off length a l (omega (arith, m, h)))
    | inr m ↦ elim (below a (to + length)) [
      | inl o ↦
          copy_inside inner (to + n) disk (off + n) (length - n) a m (omega (arith, o, h))
          ∙ ap disk (shift m)
          ∙ sym (copy_inside mem to disk off length a l o)
      | inr o ↦
          copy_outside inner (to + n) disk (off + n) (length - n) a (inr (omega (arith, o, h)))
          ∙ copy_outside mem to bytes from n a (inr m)
          ∙ sym (copy_outside mem to disk off length a (inr o))
    ]
  ]
]
  where
    inner : ℕ → ℕ
    inner = copy mem to bytes from n

    shift : to + n ≤ a → off + n + (a - (to + n)) ≡ off + (a - to)
    shift m = omega (arith, m)

pub align_lem :
    (size off blocks total : ℕ)
    → 0 < size
    → total ≡ blocks * size
    → total ≤ 2 ^ 32
    → off < total
    → (align size off + off % size ≡ off) × (align size off + size ≤ total)
align_lem size off blocks total p t h b =
    rw same (div-add-mod' off size, omega (arith, t, mul-le-mul_right size (inside t b), next))
  where
    same : off % 2 ^ 32 ≡ off
    same = omega (arith, h, b)

    inside : total ≡ blocks * size → off < total → suc (off / size) ≤ blocks
    inside t b = (div-lt_iff_lt-mul p).1 (omega (arith, t, b))

    next : suc (off / size) * size ≡ off / size * size + size
    next = omega arith

pub part_lem :
    (size off more : ℕ)
    → 0 < size
    → (0 < part size off (suc more))
      × (part size off (suc more) ≤ suc more)
      × (off % size + part size off (suc more) ≤ size)
part_lem size off more p = elim (Bool-cases (ltb (suc more) (size - off % size))) [
  | inl e ↦ rw e (omega arith, omega arith, omega (arith, less e))
  | inr e ↦ rw e (omega (arith, mod-lt off p), omega (arith, most e), omega (arith, mod-lt off p))
]
  where
    less : ltb (suc more) (size - off % size) ≡ true → suc more < size - off % size
    less e = ground (arith, e)

    most : ltb (suc more) (size - off % size) ≡ false → size - off % size ≤ suc more
    most e = ground (arith, e)

module _ {ℓ} {D : Type ℓ} (device : Device D) (d : D) (disk : ℕ → ℕ) (blocks total : ℕ) where
  -- What the loop promises: the buffer has the device's bytes, and no lock is left.
  abbrev pub IsFilled : ℕ → ℕ → ℕ → (ℕ → ℕ) → Cache → Outcome D → Type ℓ
  IsFilled off buffer length mem c r =
      (mem' : (ℕ → ℕ)) × (c' : Cache) × (r ≡ returns (pos 0) mem' c' d)
      × ((a : ℕ) → mem' a ≡ copy mem buffer disk off length a)
      × IsKept disk c c'

  -- `IoBlockCacheReadBuffer` of bytes that lie on a device of whole blocks, of 4 GiB at most, whose reads
  -- succeed, into memory that can be written to.
  pub read_buffer_lem :
      (fuel off buffer length : ℕ) (mem : ℕ → ℕ) (c : Cache)
      → length < fuel
      → IsReader device d disk total
      → IsCoherent disk c
      → 0 < c.block_size
      → total ≡ blocks * c.block_size
      → total ≤ 2 ^ 32
      → off + length ≤ total
      → ((a n : ℕ) → device.can_read a n ≡ true)
      → IsFilled off buffer length mem c (read_buffer device fuel off buffer length mem c d)
  unfolding read_buffer
  read_buffer_lem zero off buffer length mem c f reader coherent p t h room ok =
      absurd (omega (arith, f))
  read_buffer_lem (suc fuel) off buffer zero mem c f reader coherent p t h room ok =
      (mem, c, refl, (λ a. sym (copy_nothing mem buffer disk off a)), (coherent, (λ o. refl), refl))
  read_buffer_lem (suc fuel) off buffer (suc more) mem c f reader coherent p t h room ok =
      let n = part c.block_size off (suc more) in
      let (start, inside) = align_lem c.block_size off blocks total p t h (omega (arith, room)) in
      let (some_bytes, at_most, fits) = part_lem c.block_size off more p in
      let (b, c', r, (at, is_ready, bytes, (kept, same_locks, size))) =
        cache_read_lem device d disk total off c reader coherent inside in
      let (mem', c2, r2, filled, (kept2, same_locks2, size2)) =
        read_buffer_lem fuel (off + n) (buffer + n) (suc more - n)
          (copy mem buffer b.bytes (off % c.block_size) n) (unlock b.offset c')
          (omega (arith, f, some_bytes, at_most)) reader kept (rw size p) (rw size t) h
          (omega (arith, room, at_most)) ok in
      (
        mem',
        c2,
        rw (r, read_buffer) (rw (ok buffer n) r2),
        λ a.
            filled a
            ∙ copy-copy mem buffer b.bytes disk (off % c.block_size) off n (suc more) a at_most
                (λ i l.
                  bytes (off % c.block_size + i) (omega (arith, l, fits))
                  ∙ ap disk (place start i)),
        (kept2, (λ o. same_locks2 o ∙ same_locks o), size2 ∙ size),
      )
    where
      place :
          align c.block_size off + off % c.block_size ≡ off
          → (i : ℕ) → align c.block_size off + (off % c.block_size + i) ≡ off + i
      place s i = omega (arith, s)
