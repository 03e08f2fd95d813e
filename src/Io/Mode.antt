-- ===== src/Io/Mode.antt =====
-- kernel/src/io/mode.c and the constants and tests of kernel/include/io/mode.h; an inode as in fs.h.
use Prim.Native.Nat.{bit_and}
use chaff.Prelude.{ℕ, ◌*◌, Bool, true, not, ◌==◌, if◌then◌else◌}

abbrev pub owner_all : ℕ
owner_all = 448

abbrev pub group_all : ℕ
group_all = 56

abbrev pub world_all : ℕ
world_all = 7

abbrev pub world_read : ℕ
world_read = 4

abbrev pub world_write : ℕ
world_write = 2

abbrev pub world_exec : ℕ
world_exec = 1

abbrev pub mode_fifo : ℕ
mode_fifo = 0x1000

abbrev pub mode_dir : ℕ
mode_dir = 0x4000

abbrev pub mode_regular : ℕ
mode_regular = 0x8000

abbrev pub mode_symlink : ℕ
mode_symlink = 0xA000

abbrev pub mode_socket : ℕ
mode_socket = 0xC000

-- `IO_ALL_TYPES`
abbrev pub all_types : ℕ
all_types = 0xF000

abbrev pub is_dir : ℕ → Bool
is_dir mode = bit_and mode all_types == mode_dir

abbrev pub is_fifo : ℕ → Bool
is_fifo mode = bit_and mode all_types == mode_fifo

abbrev pub is_symlink : ℕ → Bool
is_symlink mode = bit_and mode all_types == mode_symlink

abbrev pub is_socket : ℕ → Bool
is_socket mode = bit_and mode all_types == mode_socket

-- The fields of `IoINode`; the file system and the operations are addresses.
pub record Inode : Type 0 where
  pub number : ℕ
  pub fs : ℕ
  pub ops : ℕ
  pub mode : ℕ
  pub uid : ℕ
  pub gid : ℕ
  pub size : ℕ

-- The ids of `SecContext` that are tested.
pub record SecContext : Type 0 where
  pub euid : ℕ
  pub egid : ℕ

-- `IoModeCanAccess`
unfoldable pub mode_can_access : ℕ → ℕ → ℕ → ℕ → SecContext → Bool
mode_can_access access mode uid gid creds =
    if creds.euid == 0
    then true
    else if creds.euid == uid
    then not (bit_and mode access == 0)
    else if creds.egid == gid
    then not (bit_and mode (access * 8) == 0)
    else not (bit_and mode (access * 64) == 0)

-- `IoModeCanAccessINode`
unfoldable pub can_access : ℕ → Inode → SecContext → Bool
unfolding mode_can_access
can_access access inode creds = mode_can_access access inode.mode inode.uid inode.gid creds
