-- ===== src/Io/Context.antt =====
-- kernel/src/io/iocontext.c: the descriptors of an I/O context, and the operations on open files. A file
-- is its address in a store; descriptors are not negative. What an operation of a file's filesystem
-- returns is an argument, `none` where the filesystem has no such operation; it does not block and
-- leaves the store as it is. `close_result` gives that of `close` by file, 0 where there is none.
pub mod Find
pub mod Transfer
pub mod Duplicate
pub mod Lifetime
mod Tests
use Prim.Native.Nat.{bit_and}
use chaff.Prelude.{
  ℕ, zero, suc, ◌+◌, ◌-◌, Bool, true, false, not, ◌&&◌, ◌||◌, Option, none, some, List, [], ◌∷◌,
  ltb, leb, ◌==◌, if◌then◌else◌, update, add32, sub32, u32_mod, ◌%◌,
}
use chaff.Prelude.Int.{ℤ, pos, negsuc}

-- `IO_MAX_OPEN_FILES`
abbrev pub max_open_files : ℕ
max_open_files = 1024

-- Flags of an open file, of a descriptor and of `IoDup`.
abbrev pub o_rdonly : ℕ
o_rdonly = 0x01

abbrev pub o_wronly : ℕ
o_wronly = 0x02

abbrev pub o_cloexec : ℕ
o_cloexec = 0x40

abbrev pub o_directory : ℕ
o_directory = 0x80

abbrev pub o_fdreserved : ℕ
o_fdreserved = 0x01

abbrev pub dup_at_least : ℕ
dup_at_least = 1

abbrev pub dup_ignore_same : ℕ
dup_ignore_same = 2

-- The negative of an error number that is not 0.
abbrev pub error : ℕ → ℤ
error num = negsuc (num - 1)

abbrev pub ebadf : ℤ
ebadf = error 9

abbrev pub efault : ℤ
efault = error 14

abbrev pub ebusy : ℤ
ebusy = error 16

abbrev pub enotdir : ℤ
enotdir = error 20

abbrev pub eisdir : ℤ
eisdir = error 21

abbrev pub einval : ℤ
einval = error 22

abbrev pub emfile : ℤ
emfile = error 24

abbrev pub enotty : ℤ
enotty = error 25

abbrev pub enosys : ℤ
enosys = error 38

-- The fields of `IoFile` that the code reads or writes itself.
pub record File : Type 0 where
  pub ref_count : ℕ
  pub off : ℕ
  pub flags : ℕ

-- `IoContext`, with the open files and those that have been freed.
pub record Context : Type 0 where
  pub store : ℕ → File
  pub freed : List ℕ
  pub files : ℕ → Option ℕ
  pub descriptor_flags : ℕ → ℕ
  pub next_free_file : ℕ
  pub ref_count : ℕ

abbrev pub has_flag : ℕ → ℕ → Bool
has_flag flags flag = not (bit_and flags flag == 0)

abbrev pub is_file : Option ℕ → ℕ → Bool
is_file none f = false
is_file (some g) f = g == f

abbrev pub is_zero : ℤ → Bool
is_zero (pos n) = n == 0
is_zero (negsuc n) = false

abbrev pub set_file : ℕ → File → Context → Context
set_file f file c = record c { store = update c.store f file }

-- `refCount++` and `refCount--`
abbrev pub take_ref : ℕ → Context → Context
take_ref f c = set_file f (record (c.store f) { ref_count = add32 (c.store f).ref_count 1 }) c

abbrev pub drop_ref : ℕ → Context → Context
drop_ref f c = set_file f (record (c.store f) { ref_count = sub32 (c.store f).ref_count 1 }) c

-- `IoGetFileWithContext`
pub get_file : Context → ℕ → Option ℕ
get_file c fd = if ltb fd max_open_files then c.files fd else none

-- The part of `IoReleaseFile` after the call of `close`.
pub free_file : ℕ → ℕ → Context → Context
free_file f fd c =
    if is_file (c.files fd) f
    then record c {
      freed = f ∷ c.freed;
      files = update c.files fd none;
      next_free_file = if ltb c.next_free_file fd then fd else c.next_free_file;
    }
    else c

-- `IoReleaseFile`
pub release_file : (ℕ → ℤ) → ℕ → ℕ → Context → Context × ℤ
unfolding free_file
release_file close_result f fd c =
    if leb (c.store f).ref_count 1
    then if is_zero (close_result f) then (free_file f fd c, pos 0) else (c, close_result f)
    else (drop_ref f c, pos 0)

-- The loop of `IoFindNextDescriptor` over `n` descriptors from `i` on; `none` is -1.
pub find_from : Context → ℕ → ℕ → Option ℕ
find_from c zero i = none
find_from c (suc n) i =
    let rest = find_from c n (i + 1) in
    let empty = elim (c.files i) as (λ o. Bool) [ none ↦ true | some f ↦ false ] in
    if empty && not (has_flag (c.descriptor_flags i) o_fdreserved) then some i else rest

-- `IoFindNextDescriptor`
pub find_next_descriptor : Context → ℕ → Option ℕ
unfolding find_from
find_next_descriptor c fd =
    let start = if ltb c.next_free_file fd then fd else c.next_free_file in
    find_from c (max_open_files - start) start

-- The body of an operation on a descriptor: `IO_GET_FILE`, what it does with the file, and the release,
-- whose result is not looked at.
abbrev pub with_file : (ℕ → ℤ) → Context → ℕ → (ℕ → Context → Context × ℤ) → Context × ℤ
with_file close_result c fd body = elim (get_file c fd) [
  | none ↦ (c, ebadf)
  | some f ↦
      ((release_file close_result f fd (body f (take_ref f c)).0).0, (body f (take_ref f c)).1)
]

-- `IoClose`
pub close_file : (ℕ → ℤ) → Context → ℕ → Context × ℤ
unfolding get_file release_file
close_file close_result c fd = elim (get_file c fd) [
  | none ↦ (c, ebadf)
  | some f ↦ release_file close_result f fd (drop_ref f (take_ref f c))
]

-- `res = ...; if(res > 0) file->off += res`
pub advance : ℕ → ℤ → Context → Context
advance f (pos n) c = set_file f (record (c.store f) { off = add32 (c.store f).off n }) c
advance f (negsuc n) c = c

-- What `IoRead` and `IoWrite` do with the file: the flag that it must be open with, what the memory
-- check says and the filesystem's operation.
pub transfer : ℕ → Bool → Option ℤ → ℕ → Context → Context × ℤ
unfolding advance
transfer mode memory_ok op f c =
    if not (has_flag (c.store f).flags mode)
    then (c, ebadf)
    else if has_flag (c.store f).flags o_directory
    then (c, eisdir)
    else if not memory_ok
    then (c, efault)
    else elim op [ none ↦ (c, enosys) | some res ↦ (advance f res c, res) ]

-- `IoRead`
pub read : (ℕ → ℤ) → Context → ℕ → Bool → Option ℤ → Context × ℤ
unfolding get_file release_file transfer
read close_result c fd memory_ok op = with_file close_result c fd (transfer o_rdonly memory_ok op)

-- `IoWrite`
pub write : (ℕ → ℤ) → Context → ℕ → Bool → Option ℤ → Context × ℤ
unfolding get_file release_file transfer
write close_result c fd memory_ok op = with_file close_result c fd (transfer o_wronly memory_ok op)

-- What `IoIoctl` and `IoTruncate` do with the file, with the error where there is no operation.
pub forward : ℤ → Option ℤ → ℕ → Context → Context × ℤ
forward missing op f c = elim op [ none ↦ (c, missing) | some res ↦ (c, res) ]

-- `IoIoctl`
pub ioctl : (ℕ → ℤ) → Context → ℕ → Option ℤ → Context × ℤ
unfolding get_file release_file forward
ioctl close_result c fd op = with_file close_result c fd (forward enotty op)

-- `IoTruncate`
pub truncate : (ℕ → ℤ) → Context → ℕ → Option ℤ → Context × ℤ
unfolding get_file release_file forward
truncate close_result c fd op = with_file close_result c fd (forward enosys op)
