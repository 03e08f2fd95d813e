-- ===== src/Io/Bcache/Tests.antt =====
-- Runs of the block cache, and its theorems at a concrete device.
use chaff.Prelude.{ℕ, ◌+◌, ◌≡◌, refl, true, none, some, [], ◌==◌, if◌then◌else◌, arith}
use chaff.Prelude.Int.{ℤ, pos}
use chaff.Io.Bcache.{
  copy, ready, Block, Cache, Device, fails, enosys, cache_create, cache_read, read_buffer,
}
use chaff.Io.Bcache.Read.{IsReader, IsCoherent}
use chaff.Io.Bcache.Buffer.{IsFilled, read_buffer_lem}
use chaff.Io.Bcache.Write.Store.{IsStored, write_buffer_lem}
use chaff.Io.Bcache.Write.{write_buffer}

abbrev write_ok : ℕ → ℕ → (ℕ → ℕ) → ℕ → ℕ × ℤ
write_ok d off bytes n = (d + 1, pos 0)

-- A device whose bytes are their own offsets, and that counts what is written to it.
abbrev device : Device ℕ
device = record {
  read = some (λ d off n. some (λ i. off + i));
  write = some write_ok;
  address_for = λ off. 0xC0000000 + off;
  can_read = λ a n. true;
  can_write = λ a n. true;
}

abbrev disk : ℕ → ℕ
disk i = i

abbrev cache : Cache
cache = record { block_size = 512; table = λ off. none; block_list = [] }

device-IsReader : IsReader device 0 disk 1024
device-IsReader =
    ((λ d off n. some (λ i. off + i)), refl, λ off n h. ((λ i. off + i), refl, λ i l. refl))

cache-IsCoherent : IsCoherent disk cache
cache-IsCoherent off = tt

create_test : cache_create (λ off. none) 512 ≡ some cache
unfolding cache_create
create_test = refl

create_test_size : cache_create (λ off. none) 513 ≡ none
unfolding cache_create
create_test_size = refl

no_read_test : cache_read (record device { read = none }) 0 700 cache ≡ fails enosys cache
unfolding cache_read
no_read_test = refl

read_buffer_lem_example :
    IsFilled device 0 disk 2 1024 500 4096 100
      (λ a. 0)
      cache
      (read_buffer device 101 500 4096 100 (λ a. 0) cache 0)
read_buffer_lem_example =
    read_buffer_lem device 0 disk 2 1024 101 500 4096 100 (λ a. 0) cache (omega arith)
      device-IsReader cache-IsCoherent (omega arith) refl (omega arith) (omega arith) (λ a n. refl)

-- A block that another thread has locked.
abbrev shared : Block
shared = record {
  offset = 512;
  phase = ready;
  ref_count = 1;
  address = 0xC0000200;
  bytes = λ i. 512 + i;
}

abbrev busy : Cache
busy = record cache { table = λ off. if off == 512 then some shared else none }

abbrev store_bytes : (ℕ → ℕ) → ℕ → (ℕ → ℕ) → ℕ → (ℕ → ℕ) × ℤ
store_bytes d off bytes n = (copy d off bytes 0 n, pos 0)

-- A device that holds bytes.
abbrev memory : Device (ℕ → ℕ)
memory = record {
  read = some (λ d off n. some (λ i. d (off + i)));
  write = some store_bytes;
  address_for = λ off. 0xC0000000 + off;
  can_read = λ a n. true;
  can_write = λ a n. true;
}

abbrev contents : (ℕ → ℕ) → ℕ → ℕ
contents d a = d a

write_buffer_lem_example :
    IsStored memory store_bytes contents 1024 disk 500 4096 100
      (λ a. 7)
      (write_buffer memory 101 500 4096 100 (λ a. 7) cache disk)
write_buffer_lem_example =
    write_buffer_lem memory store_bytes contents 1024 2 500 4096 100 (λ a. 7) cache disk refl
      (λ d. (
        (λ d off n. some (λ i. d (off + i))),
        refl,
        λ off n h. ((λ i. d (off + i)), refl, λ i l. refl),
      ))
      (λ d off bytes n h. (copy d off bytes 0 n, refl, λ a. refl)) (λ a n. refl) (λ off. tt)
      (omega arith) refl (omega arith) (omega arith)
