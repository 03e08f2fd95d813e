-- ===== src/Io/Bcache/Locks.antt =====
-- Offsets of 4 GiB and above, and locks that the block cache does not respect.
use chaff.Prelude.{
  ℕ, ◌+◌, ◌*◌, ◌/◌, ◌^◌, ◌≤◌, ◌<◌, ◌≡◌, refl, ap, true, none, [], ◌==◌, arith, subst,
}
use chaff.Io.Bcache.{
  ready, Block, Cache, Device, align, found, put_block, cache_read, read_missing, destroy,
  destroy_from,
}
use chaff.Io.Bcache.Read.{IsCoherent, IsReader, cache_read_lem, locks}

module _ {ℓ} {D : Type ℓ} (device : Device D) (d : D) (disk : ℕ → ℕ) where
  -- `IoBlockCacheRead` at an offset of 4 GiB or more gives the block at the offset's lower 32 bits.
  pub cache_read_wraps :
      (total off k : ℕ) (c : Cache)
      → IsReader device d disk total
      → IsCoherent disk c
      → align c.block_size off + c.block_size ≤ total
      → (b : Block) × (c' : Cache) × (cache_read device d (off + 2 ^ 32 * k) c ≡ found b c')
        × ((i : ℕ) → i < c.block_size → b.bytes i ≡ disk (align c.block_size off + i))
  cache_read_wraps total off k c reader coherent room =
      let (b, c', r, (o, p, bytes, kept)) =
        cache_read_lem device d disk total (off + 2 ^ 32 * k) c reader coherent (rw same room) in
      (b, c', r, subst (λ m. (i : ℕ) → i < c.block_size → b.bytes i ≡ disk (m + i)) same bytes)
    where
      same : align c.block_size (off + 2 ^ 32 * k) ≡ align c.block_size off
      same = ap (λ m. m / c.block_size * c.block_size) (omega arith)

  -- `IoBlockCacheDestroy` of a cache with a block that is locked: no block is ever in the list.
  pub destroy_locked :
      (total off : ℕ) (c : Cache)
      → IsReader device d disk total
      → c.block_list ≡ []
      → c.table (align c.block_size off) ≡ none
      → align c.block_size off + c.block_size ≤ total
      → (b : Block) × (c' : Cache) × (cache_read device d off c ≡ found b c')
        × (locks c' (align c.block_size off) ≡ 1)
        × (destroy c' ≡ (true, c'))
  unfolding cache_read read_missing destroy_from
  destroy_locked total off c (read, op, reads) l e room =
      let at = align c.block_size off in
      let (bytes, got, same) = reads at c.block_size room in
      let b : Block = record {
        offset = at;
        phase = ready;
        ref_count = 1;
        address = device.address_for at;
        bytes = bytes;
      } in
      (
        b,
        put_block b c,
        rw (e, cache_read) (rw (op, read_missing) (rw got refl)),
        rw (itself at, locks) refl,
        rw (l, destroy_from) refl,
      )
    where
      itself : (n : ℕ) → (n == n) ≡ true
      itself n = ground arith
