-- ===== src/Io/Bcache/Write/Idle.antt =====
-- Caches with no block locked, and the block that `IoBlockCacheWriteBuffer` writes to.
use chaff.Prelude.{
  ℕ, ◌+◌, ◌%◌, ◌≤◌, ◌<◌, ◌≡◌, ◌≢◌, refl, sym, ◌⊎◌, inl, inr, true, false, Option, none, some, ◌==◌,
  arith, Bool-cases, Option-cases, subst, ◌&&◌,
}
use chaff.Io.Bcache.{ready, Block, Cache, Device, align, found, put_block, create_empty_block}
use chaff.Io.Bcache.Read.{IsCoherent, IsReader, locks, lock_block, cache_read_found}
use chaff.Io.Bcache.Write.{pick_block}

-- A block that nobody has locked, at its place, with the device's bytes.
abbrev pub IsIdleBlock : (ℕ → ℕ) → ℕ → ℕ → Option Block → Type 0
IsIdleBlock disk size off none = Unit
IsIdleBlock disk size off (some b) =
    (b.offset ≡ off)
    × (b.phase ≡ ready)
    × (b.ref_count ≡ 0)
    × (off % size ≡ 0)
    × ((i : ℕ) → i < size → b.bytes i ≡ disk (off + i))

abbrev pub IsIdle : (ℕ → ℕ) → Cache → Type 0
IsIdle disk c = (off : ℕ) → IsIdleBlock disk c.block_size off (c.table off)

IsIdle-IsCoherent : (disk : ℕ → ℕ) (c : Cache) → IsIdle disk c → IsCoherent disk c
IsIdle-IsCoherent disk c idle off = elim (Option-cases (c.table off)) [
  | inl e ↦ rw e tt
  | inr (b, e) ↦
      let (o, r, l, p, bs) = subst (IsIdleBlock disk c.block_size off) e (idle off) in
      rw e (o, r, omega (arith, l), bs)
]

IsIdle-locks : (disk : ℕ → ℕ) (c : Cache) → IsIdle disk c → (off : ℕ) → locks c off ≡ 0
IsIdle-locks disk c idle off = elim (Option-cases (c.table off)) [
  | inl e ↦ rw (e, locks) refl
  | inr (b, e) ↦
      let (o, r, l, p, bs) = subst (IsIdleBlock disk c.block_size off) e (idle off) in
      rw (e, locks) l
]

-- What `pick_block` finds: a block that can be written to, whose bytes are the device's unless all of them
-- are to be written.
abbrev pub IsPicked : (ℕ → ℕ) → ℕ → ℕ → ℕ → Cache → Block → Cache → Type 0
IsPicked disk at place n c b c' =
    (b.offset ≡ at)
    × (b.phase ≡ ready)
    × (b.ref_count ≤ 1)
    × ((o : ℕ) → at ≢ o → c'.table o ≡ c.table o)
    × (c'.block_size ≡ c.block_size)
    × (((place ≡ 0) × (n ≡ c.block_size))
        ⊎ ((i : ℕ) → i < c.block_size → b.bytes i ≡ disk (at + i)))

put_block-other :
    (b : Block) (c : Cache) (o : ℕ) → b.offset ≢ o → (put_block b c).table o ≡ c.table o
put_block-other b c o d = rw (differ d) refl
  where
    differ : b.offset ≢ o → (b.offset == o) ≡ false
    differ d = ground (arith, d)

module _ {D : Type 0} (device : Device D) (d : D) (disk : ℕ → ℕ) where
  pub pick_block_lem :
      (total off n : ℕ) (c : Cache)
      → IsReader device d disk total
      → IsIdle disk c
      → align c.block_size off + c.block_size ≤ total
      → (b : Block) × (c' : Cache) × (pick_block device d off n c ≡ found b c')
        × IsPicked disk (align c.block_size off) (off % c.block_size) n c b c'
  unfolding pick_block
  pick_block_lem total off n c reader idle room =
      let at = align c.block_size off in
      elim (Bool-cases (off % c.block_size == 0 && n == c.block_size)) [
        | inl w ↦ elim (Option-cases (c.table (align c.block_size off))) [
          | inl e ↦
              let b = create_empty_block ready (device.address_for at) at in
              (
                b,
                put_block b c,
                rw (w, pick_block) (rw e refl),
                (refl, refl, omega arith, put_block-other b c, refl, inl (whole w)),
              )
          | inr (b, e) ↦
              let (o, r, l, p, bs) = subst (IsIdleBlock disk c.block_size at) e (idle at) in
              (
                b,
                c,
                rw (w, pick_block) (rw e refl),
                (o, r, omega (arith, l), (λ o h. refl), refl, inr bs),
              )
        ]
        | inr w ↦
            let (b, r, l, (o, p, bs, kept)) =
              cache_read_found device d disk total off c reader (IsIdle-IsCoherent disk c idle)
                room in
            (
              lock_block b,
              put_block (lock_block b) c,
              rw (w, pick_block) r,
              (
                o,
                p,
                omega (arith, l, IsIdle-locks disk c idle at),
                (λ q h. put_block-other (lock_block b) c q (subst (λ m. m ≢ q) (sym o) h)),
                refl,
                inr bs,
              ),
            )
      ]
    where
      whole :
          (off % c.block_size == 0 && n == c.block_size) ≡ true
          → (off % c.block_size ≡ 0) × (n ≡ c.block_size)
      whole w = ground (arith, w)
