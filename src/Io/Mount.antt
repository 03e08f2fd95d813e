-- ===== src/Io/Mount.antt =====
-- kernel/src/io/mount.c: mounting and unmounting. A file system, its type and its device are addresses. What the
-- type's `mount` and a file system's `umount` return is an argument, and so is the address of a new file
-- system. A table of mount points is an association list. The registry of types is left out.
pub mod Undo
mod Tests
use chaff.Prelude.{
  ℕ, Bool, true, false, not, ◌&&◌, ◌||◌, Option, none, some, List, [], ◌∷◌, length, ltb, ◌==◌,
  if◌then◌else◌, update, add32, sub32,
}
use chaff.Prelude.Int.{ℤ, pos}
use chaff.Io.Context.{error, is_zero, ebusy, enotdir}
use chaff.Io.Mode.{Inode, is_dir}

-- The fields of `IoFilesystem` that mounting reads or writes.
pub record Mounted : Type 0 where
  pub fs_type : ℕ
  pub device : Option ℕ
  pub flags : ℕ
  pub parent_fs : Option ℕ
  pub parent_inode : ℕ
  pub ref_count : ℕ
  pub mount_points : List (ℕ × ℕ)

-- The file systems, `IoFilesystemRoot`, the reference counts of the types, whether a device is mounted, and the
-- file systems that have been freed.
pub record Mounts : Type 0 where
  pub filesystems : ℕ → Mounted
  pub root : Option ℕ
  pub type_refs : ℕ → ℕ
  pub is_mounted : ℕ → Bool
  pub freed : List ℕ

abbrev pub set_fs : ℕ → Mounted → Mounts → Mounts
set_fs f x s = record s { filesystems = update s.filesystems f x }

abbrev pub set_mounted : Option ℕ → Bool → Mounts → Mounts
set_mounted none b s = s
set_mounted (some d) b s = record s { is_mounted = update s.is_mounted d b }

abbrev pub device_is_mounted : Option ℕ → Mounts → Bool
device_is_mounted none s = false
device_is_mounted (some d) s = s.is_mounted d

-- The table of mount points.
unfoldable pub find_point : ℕ → List (ℕ × ℕ) → Option ℕ
find_point inode [] = none
find_point inode ((i, f) ∷ points) = if i == inode then some f else find_point inode points

pub remove_point : ℕ → List (ℕ × ℕ) → List (ℕ × ℕ)
remove_point inode [] = []
remove_point inode ((i, f) ∷ points) =
    if i == inode then points else (i, f) ∷ remove_point inode points

abbrev pub is_some : Option ℕ → Bool
is_some none = false
is_some (some f) = true

abbrev pub add_type_ref : ℕ → Mounts → Mounts
add_type_ref t s = record s { type_refs = update s.type_refs t (add32 (s.type_refs t) 1) }

abbrev pub drop_type_ref : ℕ → Mounts → Mounts
drop_type_ref t s = record s { type_refs = update s.type_refs t (sub32 (s.type_refs t) 1) }

-- What `IoFilesystemMountInternal` comes to: an error with nothing done, an error of `mount`, or the new file
-- system.
pub data Attempt : Type 0 where
  busy : Attempt
  fails : ℤ → Attempt
  mounts : Mounts → Attempt

-- `IoFilesystemMountInternal`. Where `mount` fails, the state is not given: what its callers do then is
-- undefined.
pub mount_internal : ℤ → ℕ → ℕ → Option ℕ → ℕ → Option ℕ → ℕ → Mounts → Attempt
mount_internal res f t device flags parent inode s =
    if device_is_mounted device s
    then busy
    else if not (is_zero res)
    then fails res
    else mounts (
        set_fs f
          (record {
            fs_type = t;
            device = device;
            flags = flags;
            parent_fs = parent;
            parent_inode = inode;
            ref_count = 0;
            mount_points = [];
          })
          (add_type_ref t (set_mounted device true s)))

-- `IoFilesystemMount`; `none` where the mounting has failed, and the code unmounts a file system by a pointer
-- that it has not set.
unfoldable pub mount : ℤ → ℕ → ℕ → Option ℕ → ℕ → Inode → Mounts → Option (Mounts × ℤ)
unfolding mount_internal find_point
mount res f t device flags onto s =
    let parent = s.filesystems onto.fs in
    if not (is_dir onto.mode)
    then some (s, enotdir)
    else if is_some (find_point onto.number parent.mount_points)
    then some (s, ebusy)
    else elim (mount_internal res f t device flags (some onto.fs) onto.number
        (set_fs onto.fs (record parent { ref_count = add32 parent.ref_count 1 }) s)) [
          | busy ↦ none
          | fails r ↦ none
          | mounts v ↦
              let p = v.filesystems onto.fs in
              some (
                set_fs onto.fs (record p { mount_points = (onto.number, f) ∷ p.mount_points }) v,
                pos 0,
              )
        ]

-- `IoFilesystemMountRoot`; `none` as there.
pub mount_root : ℤ → ℕ → ℕ → Option ℕ → ℕ → Mounts → Option (Mounts × ℤ)
unfolding mount_internal
mount_root res f t device flags s =
    if is_some s.root
    then some (s, ebusy)
    else elim (mount_internal res f t device flags none 0 s) [
      | busy ↦ none
      | fails r ↦ none
      | mounts v ↦ some (record v { root = some f }, pos 0)
    ]

-- The root, where it is the file system.
abbrev pub without_root : ℕ → Option ℕ → Option ℕ
without_root f none = none
without_root f (some r) = if r == f then none else some r

-- "Decrement parent refCount"
pub leave_parent : ℕ → Mounts → Mounts
unfolding remove_point
leave_parent f s = elim (s.filesystems f).parent_fs [
  | none ↦ record s { root = without_root f s.root }
  | some q ↦
      let p = s.filesystems q in
      set_fs q
        (record p {
          ref_count = sub32 p.ref_count 1;
          mount_points = remove_point (s.filesystems f).parent_inode p.mount_points;
        })
        s
]

-- `IoFilesystemUnMount`, with what `umount` returns, 0 where there is none; `none` where there is no device, and
-- the code writes to it through NULL.
unfoldable pub unmount : ℤ → ℕ → Mounts → Option (Mounts × ℤ)
unfolding leave_parent
unmount res f s =
    if ltb 0 (s.filesystems f).ref_count || ltb 0 (length (s.filesystems f).mount_points)
    then some (s, ebusy)
    else if not (is_zero res)
    then some (s, res)
    else elim (s.filesystems f).device [
      | none ↦ none
      | some d ↦
          let v =
            set_mounted (some d) false
              (drop_type_ref (s.filesystems f).fs_type (leave_parent f s)) in
          some (record v { freed = f ∷ v.freed }, pos 0)
    ]
