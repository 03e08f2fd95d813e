-- ===== src/Io/Bcache.antt =====
-- kernel/src/io/bcache.c: a device's cache of blocks. The hash table is the map that it represents, from
-- the offset of a block to the block; the bytes of a block and of the memory are functions of their
-- place. The device's operations, the memory checks and the addresses that blocks get are parameters.
pub mod Read
pub mod Buffer
pub mod Write
pub mod Locks
mod Tests
use Prim.Native.Nat.{bit_and}
use chaff.Prelude.{
  ℕ, zero, suc, ◌+◌, ◌-◌, ◌*◌, ◌/◌, ◌%◌, ◌^◌, Bool, true, false, not, ◌&&◌, ◌||◌, Option, none,
  some, List, [], ◌∷◌, ltb, leb, ◌==◌, if◌then◌else◌, update, add32,
}
use chaff.Prelude.Int.{ℤ, pos, negsuc}

-- `IoBlockState`
pub data Phase : Type 0 where
  ready : Phase
  reading : Phase
  writing : Phase
  failed : Phase

-- `IoBlock`
pub record Block : Type 0 where
  pub offset : ℕ
  pub phase : Phase
  pub ref_count : ℕ
  pub address : ℕ
  pub bytes : ℕ → ℕ

-- `IoBlockCache`
pub record Cache : Type 0 where
  pub block_size : ℕ
  pub table : ℕ → Option Block
  pub block_list : List ℕ

-- The operations of the device and the kernel that the cache calls, for a device whose contents are
-- a `D`. `read` gives `none` where it fails.
pub record Device {ℓ} (D : Type ℓ) : Type ℓ where
  pub read : Option (D → ℕ → ℕ → Option (ℕ → ℕ))
  pub write : Option (D → ℕ → (ℕ → ℕ) → ℕ → D × ℤ)
  pub address_for : ℕ → ℕ
  pub can_read : ℕ → ℕ → Bool
  pub can_write : ℕ → ℕ → Bool

abbrev pub eio : ℤ
eio = negsuc 4

abbrev pub efault : ℤ
efault = negsuc 13

abbrev pub enosys : ℤ
enosys = negsuc 37

-- `off & ~(blockSize - 1)` for a power of two; `blockSize` is an unsigned int.
abbrev pub align : ℕ → ℕ → ℕ
align size off = off % 2 ^ 32 / size * size

-- What `IoBlockCacheRead` comes to; `waits` where the thread has to wait for another one.
pub data Fetch : Type 0 where
  found : Block → Cache → Fetch
  fails : ℤ → Cache → Fetch
  waits : Cache → Fetch

abbrev pub put_block : Block → Cache → Cache
put_block b c = record c { table = update c.table b.offset (some b) }

-- `CreateEmptyBlock`, with the state that its callers set.
abbrev pub create_empty_block : Phase → ℕ → ℕ → Block
create_empty_block phase address off = record {
  offset = off;
  phase = phase;
  ref_count = 1;
  address = address;
  bytes = λ i. 0;
}

abbrev pub has_failed : Phase → Bool
has_failed ready = false
has_failed reading = false
has_failed writing = false
has_failed failed = true

-- `IoBlockCacheUnlock` of a block: `none` if it is erased.
abbrev pub unlock_block : Block → Option Block
unlock_block b =
    if b.ref_count == 0
    then some b
    else if has_failed b.phase && b.ref_count - 1 == 0
    then none
    else some (record b { ref_count = b.ref_count - 1 })

-- `IoBlockCacheUnlock` of a block that is in the table. A block that has failed is in it no more.
pub unlock : ℕ → Cache → Cache
unlock off c = elim (c.table off) [
  | none ↦ c
  | some b ↦ record c { table = update c.table off (unlock_block b) }
]

-- `HashTableRemoveItem` of a block.
abbrev pub remove_block : ℕ → Cache → Cache
remove_block off c = record c { table = update c.table off none }

-- `IoBlockCacheCreate`; the table is what stands in the memory that the cache gets.
pub cache_create : (ℕ → Option Block) → ℕ → Option Cache
cache_create table size =
    if not (bit_and size (size - 1) == 0) || size == 0
    then none
    else some (record { block_size = size; table = table; block_list = [] })

-- The loop of `IoBlockCacheDestroy` over the rest of the list; whether all blocks were unlocked.
pub destroy_from : List ℕ → Cache → Bool × Cache
destroy_from [] c = (true, c)
destroy_from (off ∷ offs) c = elim (c.table off) [
  | none ↦ destroy_from offs c
  | some b ↦
      if b.ref_count == 0
      then destroy_from offs (remove_block off c)
      else (false, (destroy_from offs c).1)
]

-- `IoBlockCacheDestroy`: whether the cache is destroyed.
abbrev pub destroy : Cache → Bool × Cache
destroy c = destroy_from c.block_list c

module _ {ℓ} {D : Type ℓ} (device : Device D) where
  -- `IoBlockCacheRead` of a block that is not in the table.
  pub read_missing : D → ℕ → Cache → Fetch
  read_missing d off c = elim device.read [
    | none ↦ fails enosys c
    | some read ↦
        let empty = create_empty_block reading (device.address_for off) off in
        elim (read d off c.block_size) [
          | none ↦ fails eio (remove_block off (put_block empty c))
          | some bytes ↦
              let b : Block = record empty { phase = ready; bytes = bytes } in
              found b (put_block b c)
        ]
  ]

  -- `IoBlockCacheRead` of a block that is.
  pub read_present : Block → Cache → Fetch
  read_present b c =
      let b' : Block = record b { ref_count = add32 b.ref_count 1 } in
      elim b.phase [
        | reading ↦ waits (put_block b' c)
        | ready ↦ found b' (put_block b' c)
        | writing ↦ found b' (put_block b' c)
        | failed ↦ found b' (put_block b' c)
      ]

  -- `IoBlockCacheRead`
  pub cache_read : D → ℕ → Cache → Fetch
  unfolding read_missing read_present
  cache_read d off c = elim (c.table (align c.block_size off)) [
    | none ↦ read_missing d (align c.block_size off) c
    | some b ↦ read_present b c
  ]

-- `MemCpy` to the memory.
abbrev pub copy : (ℕ → ℕ) → ℕ → (ℕ → ℕ) → ℕ → ℕ → ℕ → ℕ
copy mem to bytes from length a =
    if leb to a && ltb a (to + length) then bytes (from + (a - to)) else mem a

-- What an operation on a buffer comes to: the memory, the cache and the device's contents, with the
-- status that is returned, or with the thread waiting.
pub data Outcome {ℓ} (D : Type ℓ) : Type ℓ where
  returns : ℤ → (ℕ → ℕ) → Cache → D → Outcome D
  blocked : (ℕ → ℕ) → Cache → D → Outcome D
  unfinished : Outcome D

-- The bytes of the block from the offset on, `length` at most.
abbrev pub part : ℕ → ℕ → ℕ → ℕ
part size off length = if ltb length (size - off % size) then length else size - off % size

module _ {ℓ} {D : Type ℓ} (device : Device D) where
  -- The loop of `IoBlockCacheReadBuffer`, for as many turns as there is fuel.
  pub read_buffer : ℕ → ℕ → ℕ → ℕ → (ℕ → ℕ) → Cache → D → Outcome D
  read_buffer zero off buffer length mem c d = unfinished
  read_buffer (suc fuel) off buffer zero mem c d = returns (pos 0) mem c d
  read_buffer (suc fuel) off buffer (suc more) mem c d =
      let n = part c.block_size off (suc more) in
      elim (cache_read device d off c) [
        | waits c' ↦ blocked mem c' d
        | fails e c' ↦ returns e mem c' d
        | found b c' ↦ elim (device.can_read buffer n) [
          | false ↦ returns efault mem (unlock b.offset c') d
          | true ↦
              read_buffer fuel (off + n) (buffer + n) (suc more - n)
                (copy mem buffer b.bytes (off % c.block_size) n) (unlock b.offset c') d
        ]
      ]
