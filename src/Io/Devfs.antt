-- ===== src/Io/Devfs.antt =====
-- kernel/src/io/devfs.c: the devices, and the operations of the file system that shows them. A device is an
-- address; its name is the characters that `StrLen` counts. The hash table is the partial map that it stands
-- for. What an operation of a device returns is an argument, `none` where it has none.
pub mod Names
pub mod Sound
pub mod Runs
pub mod First
mod Tests
use Prim.Native.Nat.{bit_and}
use chaff.Prelude.{
  ℕ, zero, suc, ◌+◌, ◌-◌, Bool, true, false, not, ◌&&◌, ◌||◌, Option, none, some, List, [], ◌∷◌,
  ltb, leb, ◌==◌, if◌then◌else◌, update, sub32,
}
use chaff.Prelude.Int.{ℤ, pos, negsuc}
use chaff.Io.Context.{error, enosys, enotty, enotdir}
use chaff.Io.Mode.{Inode, all_types, mode_dir}
use chaff.Io.Path.{enoent, Filesystem}
use chaff.Io.Open.{eexist}

abbrev pub eio : ℤ
eio = error 5

abbrev pub enxio : ℤ
enxio = error 6

abbrev pub enospc : ℤ
enospc = error 28

-- `MAX_DEVICES`
abbrev pub max_devices : ℕ
max_devices = 1024

-- The fields of `IoDevice`.
pub record Device : Type 0 where
  pub name : List ℕ
  pub mode : ℕ
  pub uid : ℕ
  pub gid : ℕ
  pub is_cached : Bool
  pub inode : ℕ

-- The static data and the devices.
pub record Devices : Type 0 where
  pub info : ℕ → Device
  pub devices : ℕ → Option ℕ
  pub files : List ℕ → Option ℕ
  pub next_free_inode : ℕ

abbrev pub is_some : Option ℕ → Bool
is_some none = false
is_some (some d) = true

-- Whether an entry is a device.
abbrev pub is_device : Option ℕ → ℕ → Bool
is_device none d = false
is_device (some e) d = e == d

-- Equality of names.
pub same_name : List ℕ → List ℕ → Bool
same_name [] [] = true
same_name [] (y ∷ ys) = false
same_name (x ∷ xs) [] = false
same_name (x ∷ xs) (y ∷ ys) = x == y && same_name xs ys

abbrev pub set_name : (List ℕ → Option ℕ) → List ℕ → Option ℕ → List ℕ → Option ℕ
set_name files name d other = if same_name name other then d else files other

-- The loop that looks for a free inode, over `n` of them from `i` on; it ends at the last one plus 1.
pub find_free : (ℕ → Option ℕ) → ℕ → ℕ → ℕ
find_free devices zero i = i
find_free devices (suc n) i =
    let rest = find_free devices n (i + 1) in if is_some (devices i) then rest else i

abbrev pub free_inode : Devices → ℕ
free_inode s = find_free s.devices (max_devices - s.next_free_inode) s.next_free_inode

abbrev pub set_inode : ℕ → ℕ → Devices → Devices
set_inode d i s = record s { info = update s.info d (record (s.info d) { inode = i }) }

-- "Add to devices"
abbrev pub add_device : ℕ → ℕ → Devices → Devices
add_device d i s = set_inode d i (record s {
  files = set_name s.files (s.info d).name (some d);
  devices = update s.devices i (some d);
  next_free_inode = i + 1;
})

-- `IoDevFsRegister`
unfoldable pub register : ℕ → Devices → Devices × ℤ
unfolding find_free same_name
register d s =
    let i = free_inode s in
    if i == max_devices
    then (s, enospc)
    else if is_some (s.files (s.info d).name)
    then (s, eexist)
    else (add_device d i s, pos 0)

-- The part of `IoDevFsUnRegister` behind the check.
abbrev pub remove_device : ℕ → Devices → Devices
remove_device d s =
    let i = (s.info d).inode in
    set_inode d 0 (record s {
      files = set_name s.files (s.info d).name none;
      devices = update s.devices i none;
      next_free_inode = if ltb i s.next_free_inode then i else s.next_free_inode;
    })

-- `IoDevFsUnRegister`
unfoldable pub unregister : ℕ → Devices → Devices × ℤ
unfolding same_name
unregister d s =
    if leb max_devices (s.info d).inode || not (is_device (s.devices (s.info d).inode) d)
    then (s, enoent)
    else (remove_device d s, pos 0)

-- `GET_DEVICE`
pub get_device : Devices → ℕ → Option ℕ
get_device s number = if leb max_devices number then none else s.devices number

-- The addresses of `rootDirOps` and `fileOps`.
abbrev pub root_dir_ops : ℕ
root_dir_ops = 1

abbrev pub file_ops : ℕ
file_ops = 2

-- The mode of the root directory.
abbrev pub root_mode : ℕ
root_mode = mode_dir + 0x16D

-- `DevFsReadINode`
unfoldable pub read_inode : Devices → Inode → ℤ × Inode
unfolding get_device
read_inode s i =
    if ltb max_devices i.number
    then (eio, i)
    else if i.number == 0
    then (pos 0, record i { ops = root_dir_ops; mode = root_mode; uid = 0; gid = 0; size = 0 })
    else elim (get_device s i.number) [
      | none ↦ (enxio, i)
      | some d ↦ (
        pos 0,
        record i {
          ops = file_ops;
          mode = (s.info d).mode;
          uid = (s.info d).uid;
          gid = (s.info d).gid;
          size = 0;
        },
      )
    ]

-- `DevFsFindINode`
unfoldable pub find_inode : Devices → ℕ → List ℕ → ℕ → ℤ × ℕ
find_inode s parent name old =
    if parent == 0
    then elim (s.files name) [ none ↦ (enoent, old) | some d ↦ (pos 0, (s.info d).inode) ]
    else (enoent, old)

-- The file system after `DevFsMount`, with no parent.
abbrev pub mounted_root : Devices → Filesystem
mounted_root s = record {
  root_inode = 0;
  flags = 0;
  parent_fs = none;
  parent_inode = 0;
  mount_points = λ i. none;
  read_inode = read_inode s;
  find_inode = find_inode s;
}

-- `DevFsOpen`
pub open_device : (ℕ → Option ℤ) → Devices → ℕ → ℤ
unfolding get_device
open_device open_op s number = elim (get_device s number) [
  | none ↦ enxio
  | some d ↦ elim (open_op d) [ none ↦ enosys | some res ↦ res ]
]

-- `DevFsClose`: the device whose `close` is called.
pub close_device : (ℕ → Bool) → Devices → ℕ → Option ℕ
unfolding get_device
close_device has_close s number = elim (get_device s number) [
  | none ↦ none
  | some d ↦ if has_close d then some d else none
]

-- `IO_ISBLOCK`
abbrev pub is_block : ℕ → Bool
is_block mode = bit_and mode all_types == 0x6000

-- `DevFsRead` and `DevFsWrite`, with what the block cache and the device return.
pub transfer : (ℕ → ℤ) → (ℕ → Option ℤ) → Devices → ℕ → ℤ
unfolding get_device
transfer by_cache by_device s number = elim (get_device s number) [
  | none ↦ enxio
  | some d ↦
      if (s.info d).is_cached && is_block (s.info d).mode
      then by_cache d
      else elim (by_device d) [ none ↦ enosys | some res ↦ res ]
]

-- `DevFsIoCtl`
pub ioctl_device : (ℕ → Option ℤ) → Devices → ℕ → ℤ
unfolding get_device
ioctl_device ioctl_op s number = elim (get_device s number) [
  | none ↦ enxio
  | some d ↦ elim (ioctl_op d) [ none ↦ enotty | some res ↦ res ]
]

-- The loop of `DevFsReadDir`, over `n` inodes from `i` on: what the filler is called with. `count` is what
-- is left of it before a call, taken to be not negative.
pub fill_from : Devices → ℕ → ℕ → ℕ → ℕ → List (ℕ × List ℕ)
fill_from s zero i skip count = []
fill_from s (suc n) i skip count = elim (s.devices i) [
  | none ↦ fill_from s n (i + 1) skip count
  | some d ↦ elim (skip == 0) [
    | true ↦
        (sub32 i 1, (s.info d).name)
        ∷ elim (leb count 1) [ true ↦ [] | false ↦ fill_from s n (i + 1) 0 (count - 1) ]
    | false ↦ fill_from s n (i + 1) (skip - 1) count
  ]
]

-- `DevFsReadDir`; `none` is -ENOTDIR.
pub read_dir : Devices → ℕ → ℕ → ℕ → Option (List (ℕ × List ℕ))
unfolding fill_from
read_dir s number off count =
    if number == 0 then some (fill_from s max_devices 0 off count) else none
