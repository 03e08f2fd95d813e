-- ===== src/Io/Bcache/Read.antt =====
-- `IoBlockCacheRead` of a cache that agrees with the device.
use mathlib.Core.Path.{fun_ext}
use chaff.Prelude.{
  ℕ, ◌+◌, ◌-◌, ◌^◌, ◌≤◌, ◌<◌, ◌≡◌, refl, ap, ◌∙◌, inl, inr, Bool, true, false, Option, none, some,
  ◌==◌, if◌then◌else◌, arith, Bool-cases, Option-cases, update, add32, subst,
}
use chaff.Io.Bcache.{
  ready, Block, Cache, Device, align, found, put_block, unlock_block, unlock, read_missing,
  read_present, cache_read,
}

-- A block at an offset is the device's, ready for use, and has room for one more lock.
abbrev pub IsCopy : (ℕ → ℕ) → ℕ → ℕ → Block → Type 0
IsCopy disk size off b =
    (b.offset ≡ off)
    × (b.phase ≡ ready)
    × (b.ref_count + 1 < 2 ^ 32)
    × ((i : ℕ) → i < size → b.bytes i ≡ disk (off + i))

abbrev pub IsCopied : (ℕ → ℕ) → ℕ → ℕ → Option Block → Type 0
IsCopied disk size off none = Unit
IsCopied disk size off (some b) = IsCopy disk size off b

abbrev pub IsCoherent : (ℕ → ℕ) → Cache → Type 0
IsCoherent disk c = (off : ℕ) → IsCopied disk c.block_size off (c.table off)

-- The device reads its first `size` bytes.
abbrev pub IsReader {ℓ} : {D : Type ℓ} → Device D → D → (ℕ → ℕ) → ℕ → Type ℓ
IsReader {D} device d disk size =
    (read : (D → ℕ → ℕ → Option (ℕ → ℕ))) × (device.read ≡ some read)
    × ((off length : ℕ)
        → off + length ≤ size
        → (bytes : (ℕ → ℕ)) × (read d off length ≡ some bytes)
          × ((i : ℕ) → i < length → bytes i ≡ disk (off + i)))

-- How many threads have locked the block at an offset.
abbrev pub locks : Cache → ℕ → ℕ
locks c off = elim (c.table off) [ none ↦ 0 | some b ↦ b.ref_count ]

-- When the block is unlocked, the cache is as it was but for the blocks in it.
abbrev pub IsKept : (ℕ → ℕ) → Cache → Cache → Type 0
IsKept disk c c' =
    IsCoherent disk c' × ((o : ℕ) → locks c' o ≡ locks c o) × (c'.block_size ≡ c.block_size)

-- The block is the device's.
abbrev pub IsRead : (ℕ → ℕ) → ℕ → Cache → Block → Cache → Type 0
IsRead disk off c b c' =
    (b.offset ≡ off)
    × (b.phase ≡ ready)
    × ((i : ℕ) → i < c.block_size → b.bytes i ≡ disk (off + i))
    × IsKept disk c (unlock b.offset c')

-- A cache with a ready block in the table.
abbrev holding : Block → Cache → Cache
holding b c = record c { table = update c.table b.offset (some b) }

abbrev pub lock_block : Block → Block
lock_block b = record b { ref_count = b.ref_count + 1 }

unlock-lock : (b : Block) → b.phase ≡ ready → unlock_block (lock_block b) ≡ some b
unlock-lock b p = rw p (rw held (ap (λ n. some (record b { phase = ready; ref_count = n })) less))
  where
    held : (b.ref_count + 1 == 0) ≡ false
    held = ground arith

    less : b.ref_count + 1 - 1 ≡ b.ref_count
    less = omega arith

pub unlock-found :
    (off : ℕ) (b : Block) (c : Cache)
    → c.table off ≡ some b
    → unlock off c ≡ record c { table = update c.table off (unlock_block b) }
unfolding unlock
unlock-found off b c e = rw (e, unlock) refl

unlock-put :
    (b : Block) (c : Cache)
    → b.phase ≡ ready
    → unlock b.offset (put_block (lock_block b) c) ≡ holding b c
unlock-put b c p =
    unlock-found b.offset (lock_block b) (put_block (lock_block b) c) (rw same refl)
    ∙ rw (unlock-lock b p)
        (ap (λ t. record c { table = t }) (fun_ext (λ o. twice (b.offset == o) (c.table o))))
  where
    same : (b.offset == b.offset) ≡ true
    same = ground arith

    twice :
        (test : Bool) (r : Option Block)
        → (if test then some b else if test then some (lock_block b) else r)
          ≡ (if test then some b else r)
    twice true r = refl
    twice false r = refl

holding-IsCoherent :
    (disk : ℕ → ℕ) (b : Block) (c : Cache)
    → IsCoherent disk c
    → IsCopy disk c.block_size b.offset b
    → IsCoherent disk (holding b c)
holding-IsCoherent disk b c coherent copy off = elim (Bool-cases (b.offset == off)) [
  | inl h ↦ rw h (subst (λ o. IsCopy disk c.block_size o b) (equal h) copy)
  | inr h ↦ rw h (coherent off)
]
  where
    equal : (b.offset == off) ≡ true → b.offset ≡ off
    equal h = ground (arith, h)

locks-holding :
    (b : Block) (c : Cache)
    → b.ref_count ≡ locks c b.offset
    → (o : ℕ) → locks (holding b c) o ≡ locks c o
locks-holding b c l o = elim (Bool-cases (b.offset == o)) [
  | inl h ↦ rw (h, locks) (l ∙ ap (locks c) (equal h))
  | inr h ↦ rw (h, locks) refl
]
  where
    equal : (b.offset == o) ≡ true → b.offset ≡ o
    equal h = ground (arith, h)

-- A block that is locked, and what unlocking it leaves.
IsRead-lock :
    (disk : ℕ → ℕ) (b : Block) (c : Cache)
    → IsCoherent disk c
    → IsCopy disk c.block_size b.offset b
    → b.ref_count ≡ locks c b.offset
    → IsRead disk b.offset c (lock_block b) (put_block (lock_block b) c)
IsRead-lock disk b c coherent (o, p, r, bs) l = (
  refl,
  p,
  bs,
  rw (unlock-put b c p)
      (holding-IsCoherent disk b c coherent (o, p, r, bs), locks-holding b c l, refl),
)

module _ {ℓ} {D : Type ℓ} (device : Device D) (d : D) (disk : ℕ → ℕ) where
  read_present_lem :
      (off : ℕ) (b : Block) (c : Cache)
      → IsCoherent disk c
      → IsCopy disk c.block_size off b
      → c.table off ≡ some b
      → (read_present device b c ≡ found (lock_block b) (put_block (lock_block b) c))
        × IsRead disk off c (lock_block b) (put_block (lock_block b) c)
  unfolding read_present
  read_present_lem off b c coherent (o, p, r, bs) e = (
    rw p (rw (more r) refl),
    subst (λ n. IsRead disk n c (lock_block b) (put_block (lock_block b) c)) o
        (IsRead-lock disk b c coherent (refl, p, r, rw o bs) (rw o (rw (e, locks) refl))),
  )
    where
      more : b.ref_count + 1 < 2 ^ 32 → add32 b.ref_count 1 ≡ b.ref_count + 1
      more r = omega (arith, r)

  read_missing_lem :
      (size off : ℕ) (c : Cache)
      → IsReader device d disk size
      → IsCoherent disk c
      → off + c.block_size ≤ size
      → c.table off ≡ none
      → (b : Block) × (b.ref_count ≡ 0)
        × (read_missing device d off c ≡ found (lock_block b) (put_block (lock_block b) c))
        × IsRead disk off c (lock_block b) (put_block (lock_block b) c)
  unfolding read_missing
  read_missing_lem size off c (read, op, reads) coherent room e =
      let (bytes, got, same) = reads off c.block_size room in
      let b : Block = record {
        offset = off;
        phase = ready;
        ref_count = 0;
        address = device.address_for off;
        bytes = bytes;
      } in
      (
        b,
        refl,
        rw op (rw got refl),
        IsRead-lock disk b c coherent (refl, refl, omega arith, same) (rw (e, locks) refl),
      )

  -- The block, as it is without the new lock.
  pub cache_read_found :
      (size off : ℕ) (c : Cache)
      → IsReader device d disk size
      → IsCoherent disk c
      → align c.block_size off + c.block_size ≤ size
      → (b : Block) × (cache_read device d off c
          ≡ found (lock_block b) (put_block (lock_block b) c))
        × (b.ref_count ≡ locks c (align c.block_size off))
        × IsRead disk (align c.block_size off) c (lock_block b) (put_block (lock_block b) c)
  unfolding cache_read
  cache_read_found size off c reader coherent room =
      let at = align c.block_size off in
      elim (Option-cases (c.table (align c.block_size off))) [
        | inl e ↦
            let (b, n, r, is) = read_missing_lem size at c reader coherent room e in
            (b, rw (e, cache_read) r, rw (e, locks) n, is)
        | inr (b, e) ↦
            let copy = subst (IsCopied disk c.block_size at) e (coherent at) in
            let (r, is) = read_present_lem at b c coherent copy e in
            (b, rw (e, cache_read) r, rw (e, locks) refl, is)
      ]

  -- `IoBlockCacheRead` finds the device's block, and locks it.
  pub cache_read_lem :
      (size off : ℕ) (c : Cache)
      → IsReader device d disk size
      → IsCoherent disk c
      → align c.block_size off + c.block_size ≤ size
      → (b : Block) × (c' : Cache) × (cache_read device d off c ≡ found b c')
        × IsRead disk (align c.block_size off) c b c'
  cache_read_lem size off c reader coherent room =
      let (b, r, l, is) = cache_read_found size off c reader coherent room in
      (lock_block b, put_block (lock_block b) c, r, is)
