-- ===== src/Io/Bcache/Write.antt =====
-- `IoBlockCacheWriteBuffer`. Waking the threads that wait for the block changes nothing that is modelled.
pub mod Idle
pub mod Change
pub mod Store
use chaff.Prelude.{
  ℕ, zero, suc, ◌+◌, ◌-◌, ◌%◌, ◌≡◌, refl, ap, ◌∙◌, Bool, true, false, ◌&&◌, Option, none, some,
  ◌==◌, if◌then◌else◌, arith,
}
use chaff.Prelude.Int.{ℤ, pos, negsuc}
use chaff.Io.Bcache.Read.{locks}
use chaff.Io.Bcache.{
  ready, reading, writing, failed, Block, Cache, Device, eio, efault, enosys, align, Fetch, found,
  fails, waits, put_block, create_empty_block, unlock, remove_block, cache_read, copy, Outcome,
  returns, blocked, unfinished, part,
}

abbrev pub is_zero : ℤ → Bool
is_zero (pos zero) = true
is_zero (pos (suc n)) = false
is_zero (negsuc n) = false

-- What follows the device's `write` of a block: the block stays in the table if that went well.
abbrev pub settle_block {ℓ} : {D : Type ℓ} → Block → Cache → D × ℤ → ℤ × Cache × D
settle_block b c (d, res) =
    if is_zero res
    then (res, unlock b.offset (put_block b c), d)
    else (res, remove_block b.offset (put_block b c), d)

module _ {ℓ} {D : Type ℓ} (device : Device D) where
  -- The block to write `n` bytes to: a part of a block is read first, a whole one is not.
  pub pick_block : D → ℕ → ℕ → Cache → Fetch
  pick_block d off n c =
      if off % c.block_size == 0 && n == c.block_size
      then elim (c.table (align c.block_size off)) [
        | some b ↦ found b c
        | none ↦
            let at = align c.block_size off in
            let b = create_empty_block ready (device.address_for at) at in found b (put_block b c)
      ]
      else cache_read device d off c

  -- The rest of a turn of the loop: the status, the cache and the device's contents; `none` where the
  -- thread waits.
  pub write_block :
      (D → ℕ → (ℕ → ℕ) → ℕ → D × ℤ)
      → Block
      → ℕ
      → ℕ
      → ℕ
      → (ℕ → ℕ)
      → Cache
      → D
      → Option (ℤ × Cache × D)
  write_block write b off buffer n mem c d =
      let place = off % c.block_size in
      let bytes = copy b.bytes place mem buffer n in
      elim b.phase [
        | reading ↦ none
        | writing ↦ none
        | failed ↦ some (eio, unlock b.offset c, d)
        | ready ↦
            if device.can_write (b.address + place) n
            then some (
                settle_block (record b { bytes = bytes }) c
                  (write d off (λ i. bytes (place + i)) n))
            else some (efault, unlock b.offset c, d)
      ]

  -- The loop of `IoBlockCacheWriteBuffer`, for as many turns as there is fuel.
  pub write_from : (D → ℕ → (ℕ → ℕ) → ℕ → D × ℤ) → ℕ → ℕ → ℕ → ℕ → (ℕ → ℕ) → Cache → D → Outcome D
  write_from write zero off buffer length mem c d = unfinished
  write_from write (suc fuel) off buffer zero mem c d = returns (pos 0) mem c d
  write_from write (suc fuel) off buffer (suc more) mem c d =
      let n = part c.block_size off (suc more) in
      elim (pick_block d off n c) [
        | waits c' ↦ blocked mem c' d
        | fails e c' ↦ returns e mem c' d
        | found b c' ↦ elim (write_block write b off buffer n mem c' d) [
          | none ↦ blocked mem c' d
          | some (res, c2, d') ↦ elim (is_zero res) [
            | true ↦ write_from write fuel (off + n) (buffer + n) (suc more - n) mem c2 d'
            | false ↦ returns res mem c2 d'
          ]
        ]
      ]

  -- `IoBlockCacheWriteBuffer`
  pub write_buffer : ℕ → ℕ → ℕ → ℕ → (ℕ → ℕ) → Cache → D → Outcome D
  write_buffer fuel off buffer zero mem c d = returns (pos 0) mem c d
  write_buffer fuel off buffer (suc more) mem c d = elim device.write [
    | none ↦ returns enosys mem c d
    | some write ↦ write_from write fuel off buffer (suc more) mem c d
  ]

-- Unlocking a block that has just been put into the table.
unlock-put_ready :
    (b : Block) (c : Cache) (held : ℕ)
    → b.phase ≡ ready
    → b.ref_count ≡ suc held
    → locks (unlock b.offset (put_block b c)) b.offset ≡ held
unfolding unlock
unlock-put_ready b c held r l =
    rw (same, unlock) (rw (locked l) (rw r (rw (same, locks) (omega (arith, l)))))
  where
    same : (b.offset == b.offset) ≡ true
    same = ground arith

    locked : b.ref_count ≡ suc held → (b.ref_count == 0) ≡ false
    locked l = ground (arith, l)

module _ {D : Type 0} (device : Device D) (d d' : D) (write : (D → ℕ → (ℕ → ℕ) → ℕ → D × ℤ)) where
  pub pick_whole :
      (off n : ℕ) (b : Block) (c : Cache)
      → c.block_size ≡ n
      → off % c.block_size ≡ 0
      → c.table (align c.block_size off) ≡ some b
      → pick_block device d off n c ≡ found b c
  unfolding pick_block
  pick_whole off n b c s z e = rw (whole, pick_block) (rw e refl)
    where
      whole : (off % c.block_size == 0 && n == c.block_size) ≡ true
      whole = ground (arith, s, z)

  pub write_ready :
      (b : Block) (off buffer n : ℕ) (mem : ℕ → ℕ) (c : Cache)
      → write d off (λ i. copy b.bytes (off % c.block_size) mem buffer n (off % c.block_size + i)) n
        ≡ (d', pos 0)
      → ((a n : ℕ) → device.can_write a n ≡ true)
      → write_block device write (record b { phase = ready }) off buffer n mem c d
        ≡ some (
          pos 0,
          unlock b.offset (
              put_block
                (record b { phase = ready; bytes = copy b.bytes (off % c.block_size) mem buffer n })
                c),
          d',
        )
  unfolding write_block
  write_ready b off buffer n mem c w ok = rw (ok (b.address + off % c.block_size) n) (rw w refl)

  -- Writing the whole of a block that other threads have locked takes one of their locks away.
  pub write_unlocks :
      (off buffer more held : ℕ) (mem : ℕ → ℕ) (b : Block) (c : Cache)
      → device.write ≡ some write
      → ((n : ℕ) (bytes : ℕ → ℕ) → write d off bytes n ≡ (d', pos 0))
      → ((a n : ℕ) → device.can_write a n ≡ true)
      → c.block_size ≡ suc more
      → off % c.block_size ≡ 0
      → c.table (align c.block_size off) ≡ some b
      → b.phase ≡ ready
      → b.ref_count ≡ suc held
      → (c' : Cache) × (write_buffer device 2 off buffer (suc more) mem c d
          ≡ returns (pos 0) mem c' d')
        × (locks c' b.offset ≡ held)
  unfolding write_buffer write_from
  write_unlocks off buffer more held mem b c op w ok s z e r l =
      let b' : Block = record b {
        phase = ready;
        bytes = copy b.bytes (off % c.block_size) mem buffer (suc more);
      } in
      let e' = e ∙ ap (λ p. some (record b { phase = p })) r in
      (
        unlock b.offset (put_block b' c),
        rw (op, write_buffer)
            (rw (whole s z, write_from)
              (rw (pick_whole off (suc more) (record b { phase = ready }) c s z e') (
                rw (whole s z) (
                  rw
                    (write_ready b off buffer (suc more) mem c
                      (w (suc more) (λ i.
                        copy b.bytes (off % c.block_size) mem buffer (suc more)
                          (off % c.block_size + i)))
                      ok)
                    (rw (rest (whole s z)) refl))))),
        unlock-put_ready b' c held refl l,
      )
    where
      whole :
          c.block_size ≡ suc more
          → off % c.block_size ≡ 0
          → part c.block_size off (suc more) ≡ suc more
      whole s z = ground (arith, s, z)

      rest :
          part c.block_size off (suc more) ≡ suc more
          → suc more - part c.block_size off (suc more) ≡ 0
      rest h = omega (arith, h)
