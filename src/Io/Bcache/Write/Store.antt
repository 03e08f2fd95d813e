-- ===== src/Io/Bcache/Write/Store.antt =====
-- `IoBlockCacheWriteBuffer` with no block locked by other threads.
use native.Mathlib.Nat.{mul-mod_left}
use mathlib.Core.Path.{fun_ext}
use chaff.Prelude.{
  ℕ, zero, suc, ◌+◌, ◌-◌, ◌*◌, ◌/◌, ◌%◌, ◌^◌, ◌≤◌, ◌<◌, ◌≡◌, ◌≢◌, refl, ap, sym, ◌∙◌, ◌⊎◌, inl, inr,
  true, Option, some, arith,
}
use chaff.Prelude.Int.{ℤ, pos}
use chaff.Io.Bcache.{
  ready, Block, Cache, Device, align, put_block, unlock, copy, Outcome, returns, part,
}
use chaff.Io.Bcache.Read.{IsReader}
use chaff.Io.Bcache.Buffer.{copy_inside, copy_outside, copy_nothing, copy-copy, align_lem, part_lem}
use chaff.Io.Bcache.Write.Idle.{IsIdleBlock, IsIdle, IsPicked, pick_block_lem}
use chaff.Io.Bcache.Write.Change.{blocks_apart, unlock_idle, copy_same, copy_shift, IsIdle-update}
use chaff.Io.Bcache.Write.{write_block, write_from, write_buffer, write_ready}

module _ {D : Type 0} (device : Device D) (write : (D → ℕ → (ℕ → ℕ) → ℕ → D × ℤ))
    (contents : D → ℕ → ℕ) (total : ℕ) where
  -- The device writes its first `total` bytes.
  abbrev pub IsWriter : Type 0
  IsWriter =
      (d : D) (off : ℕ) (bytes : ℕ → ℕ) (n : ℕ)
      → off + n ≤ total
      → (d' : D) × (write d off bytes n ≡ (d', pos 0))
        × ((a : ℕ) → contents d' a ≡ copy (contents d) off bytes 0 n a)

  -- The rest of a turn stores the bytes in the block and on the device.
  store_lem :
      (d : D) (off buffer n : ℕ) (mem : ℕ → ℕ) (b : Block) (c : Cache) (old : ℕ → Option Block)
      → IsWriter
      → ((a n : ℕ) → device.can_write a n ≡ true)
      → ((o : ℕ) → IsIdleBlock (contents d) c.block_size o (old o))
      → 0 < c.block_size
      → align c.block_size off + off % c.block_size ≡ off
      → off % c.block_size + n ≤ c.block_size
      → off + n ≤ total
      → IsPicked
          (contents d)
          (align c.block_size off)
          (off % c.block_size)
          n
          (record c { table = old })
          b
          c
      → (c' : Cache) × (d' : D) × (write_block device write b off buffer n mem c d
          ≡ some (pos 0, c', d'))
        × IsIdle (contents d') c'
        × ((a : ℕ) → contents d' a ≡ copy (contents d) off mem buffer n a)
        × (c'.block_size ≡ c.block_size)
  store_lem d off buffer n mem b c old writes ok idle p start fits room (o, r, l, others, s, bs) =
      let place = off % c.block_size in
      let at = align c.block_size off in
      let b' : Block = record b { phase = ready; bytes = copy b.bytes place mem buffer n } in
      let (d', done, stored) =
        writes d off (λ i. copy b.bytes place mem buffer n (place + i)) n room in
      let all : ((a : ℕ) → contents d' a ≡ copy (contents d) off mem buffer n a) = λ a.
        stored a
        ∙ copy_same (contents d) off (λ i. copy b.bytes place mem buffer n (place + i)) mem 0 buffer
            n a (written b) in
      (
        unlock b.offset (put_block b' c),
        d',
        ap (λ q. write_block device write (record b { phase = q }) off buffer n mem c d) r
            ∙ write_ready device d d' write b off buffer n mem c done ok,
        rw (unlock_idle b' c refl l) (
            IsIdle-update (contents d) (contents d') at b' c old
              (mul-mod_left (off % 2 ^ 32 / c.block_size) c.block_size) o refl others idle
              (λ i h.
                copy_shift b.bytes (contents d) mem place at buffer n i (kept b bs h)
                ∙ ap (λ m. copy (contents d) m mem buffer n (at + i)) start
                ∙ sym (all (at + i)))
              (λ q i far z h. sym (
                all (q + i)
                ∙ copy_outside (contents d) off mem buffer n (q + i) (elsewhere q i far z h)))),
        all,
        rw (unlock_idle b' c refl l) refl,
      )
    where
      elsewhere :
          (q i : ℕ)
          → align c.block_size off ≢ q
          → q % c.block_size ≡ 0
          → i < c.block_size
          → (q + i < off) ⊎ (off + n ≤ q + i)
      elsewhere q i far z h =
          elim (blocks_apart c.block_size (align c.block_size off) q i p
            (mul-mod_left (off % 2 ^ 32 / c.block_size) c.block_size) z far h) [
              | inl k ↦ inl (omega (arith, k, start))
              | inr k ↦ inr (omega (arith, k, start, fits))
            ]

      kept :
          (b : Block) {i : ℕ}
          → ((off % c.block_size ≡ 0) × (n ≡ c.block_size))
            ⊎ ((i : ℕ) → i < c.block_size → b.bytes i ≡ contents d (align c.block_size off + i))
          → i < c.block_size
          → (i < off % c.block_size) ⊎ (off % c.block_size + n ≤ i)
          → b.bytes i ≡ contents d (align c.block_size off + i)
      kept b (inl (z, w)) h k = absurd (grind (arith, z, w, h, k))
      kept b (inr bs) h k = bs _ h

      written :
          (b : Block) (i : ℕ)
          → i < n
          → copy b.bytes (off % c.block_size) mem buffer n (off % c.block_size + (0 + i))
            ≡ mem (buffer + i)
      written b i h =
          copy_inside b.bytes (off % c.block_size) mem buffer n (off % c.block_size + (0 + i))
            (omega arith) (omega (arith, h))
          ∙ ap (λ k. mem (buffer + k)) (omega arith)

  -- `IoBlockCacheWriteBuffer` of bytes that lie on a device of whole blocks, of 4 GiB at most, whose reads
  -- and writes succeed.
  abbrev pub IsStored : D → ℕ → ℕ → ℕ → (ℕ → ℕ) → Outcome D → Type 0
  IsStored d off buffer length mem r =
      (c' : Cache) × (d' : D) × (r ≡ returns (pos 0) mem c' d')
      × IsIdle (contents d') c'
      × ((a : ℕ) → contents d' a ≡ copy (contents d) off mem buffer length a)

  write_from_lem :
      (blocks fuel off buffer length : ℕ) (mem : ℕ → ℕ) (c : Cache) (d : D)
      → length < fuel
      → ((d : D) → IsReader device d (contents d) total)
      → IsWriter
      → ((a n : ℕ) → device.can_write a n ≡ true)
      → IsIdle (contents d) c
      → 0 < c.block_size
      → total ≡ blocks * c.block_size
      → total ≤ 2 ^ 32
      → off + length ≤ total
      → IsStored d off buffer length mem (write_from device write fuel off buffer length mem c d)
  unfolding write_from
  write_from_lem blocks zero off buffer length mem c d f reads writes ok idle p t h room =
      absurd (omega (arith, f))
  write_from_lem blocks (suc fuel) off buffer zero mem c d f reads writes ok idle p t h room =
      (c, d, refl, idle, λ a. sym (copy_nothing (contents d) off mem buffer a))
  write_from_lem blocks (suc fuel) off buffer (suc more) mem c d f reads writes ok idle p t h room =
      let n = part c.block_size off (suc more) in
      let (start, inside) = align_lem c.block_size off blocks total p t h (omega (arith, room)) in
      let (some_bytes, at_most, fits) = part_lem c.block_size off more p in
      let (b, c1, picked, is) =
        pick_block_lem device d (contents d) total off n c (reads d) idle inside in
      let (o, r, l, others, size, bs) = is in
      let (c2, d2, stored, idle2, bytes2, size2) =
        store_lem d off buffer n mem b c1 c.table writes ok (rw size idle) (rw size p)
          (rw size start) (rw size fits) (omega (arith, room, at_most))
          (rw size o, r, l, rw size others, refl, rw size bs) in
      let same = size2 ∙ size in
      let (c3, d3, rest, idle3, bytes3) =
        write_from_lem blocks fuel (off + n) (buffer + n) (suc more - n) mem c2 d2
          (omega (arith, f, some_bytes, at_most)) reads writes ok idle2 (rw same p) (rw same t) h
          (omega (arith, room, at_most)) in
      (
        c3,
        d3,
        rw (picked, write_from) (rw stored rest),
        idle3,
        λ a.
            bytes3 a
            ∙ ap (λ m. copy m (off + n) mem (buffer + n) (suc more - n) a) (fun_ext bytes2)
            ∙ copy-copy (contents d) off mem mem buffer buffer n (suc more) a at_most (λ i l. refl),
      )

  -- `IoBlockCacheWriteBuffer` of bytes that lie on a device of whole blocks, of 4 GiB at most, whose reads
  -- and writes succeed, where the memory check passes, with a cache whose blocks are the device's, ready and
  -- not locked: it returns 0, the device has the buffer's bytes and otherwise those it had, and the
  -- cache's blocks are again the device's, ready and not locked.
  pub write_buffer_lem :
      (blocks off buffer length : ℕ) (mem : ℕ → ℕ) (c : Cache) (d : D)
      → device.write ≡ some write
      → ((d : D) → IsReader device d (contents d) total)
      → IsWriter
      → ((a n : ℕ) → device.can_write a n ≡ true)
      → IsIdle (contents d) c
      → 0 < c.block_size
      → total ≡ blocks * c.block_size
      → total ≤ 2 ^ 32
      → off + length ≤ total
      → IsStored d off buffer length mem
          (write_buffer device (suc length) off buffer length mem c d)
  unfolding write_buffer
  write_buffer_lem blocks off buffer zero mem c d op reads writes ok idle p t h room =
      (c, d, refl, idle, λ a. sym (copy_nothing (contents d) off mem buffer a))
  write_buffer_lem blocks off buffer (suc more) mem c d op reads writes ok idle p t h room =
      rw (op, write_buffer)
        (write_from_lem blocks (suc (suc more)) off buffer (suc more) mem c d (omega arith) reads
          writes ok idle p t h room)
