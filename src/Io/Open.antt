-- ===== src/Io/Open.antt =====
-- kernel/src/io/open.c: `IoOpen`. What the operations of a file system return is an argument, and so is the
-- address of the new file.
pub mod Errors
pub mod Outcome
pub mod Reserved
mod Tests
use Prim.Native.Nat.{bit_and, bit_or}
use chaff.Prelude.{
  ℕ, Bool, true, false, not, ◌&&◌, ◌||◌, Option, none, some, List, [], ◌∷◌, leb, ◌==◌,
  if◌then◌else◌, update, ◌-◌,
}
use chaff.Prelude.Int.{ℤ, pos, negsuc}
use chaff.Utils.{str_len}
use chaff.Io.Context.{
  max_open_files, o_rdonly, o_wronly, o_cloexec, o_directory, o_fdreserved, error, is_zero, enotdir,
  eisdir, einval, enosys, File, Context, has_flag, set_file,
}
use chaff.Io.Mode.{
  Inode, can_access, is_fifo, is_socket, is_symlink, world_read, world_write, owner_all, group_all,
  world_all, mode_regular,
}
use chaff.Io.Path.{name_max, enoent, eacces, is_error, Tree, bytes, Found, lookup_path}

abbrev pub o_creat : ℕ
o_creat = 0x04

abbrev pub o_trunc : ℕ
o_trunc = 0x08

abbrev pub o_append : ℕ
o_append = 0x10

abbrev pub o_excl : ℕ
o_excl = 0x20

abbrev pub o_rdwr : ℕ
o_rdwr = 0x03

abbrev pub o_allflags : ℕ
o_allflags = 0xFF

-- `IO_MOUNT_RDONLY`
abbrev pub mount_rdonly : ℕ
mount_rdonly = 1

abbrev pub eexist : ℤ
eexist = error 17

abbrev pub erofs : ℤ
erofs = error 30

-- What the operations return: `create` of a file system, `none` where it has none, with the number of the new
-- inode; `readINode` after it; the file's `open`, `none` where it has none; and its `truncate`.
pub record FileCalls : Type 0 where
  pub create : ℕ → Option (Inode → List ℕ → ℕ → ℤ × ℕ)
  pub read_created : Inode → ℤ × Inode
  pub open_op : Inode → ℕ → Option ℤ
  pub truncate_op : Inode → ℕ → Option ℤ

-- The fields of `IoFile` that say which file it is.
pub record Place : Type 0 where
  pub fs : ℕ
  pub inode : ℕ
  pub ops : ℕ

-- `IoContext` with the places of its open files.
pub record OpenFiles : Type 0 where
  pub context : Context
  pub places : ℕ → Place

-- What the switch comes to: a result that is returned at once, one that is returned by `returnError`, or an
-- inode to open with flags.
pub data Checked : Type 0 where
  early : ℤ → Checked
  undo : ℤ → Checked
  opens : Inode → ℕ → Checked

-- `(flags & IO_O_CREAT) && (flags & IO_O_EXCL)`
abbrev pub is_exclusive : ℕ → Bool
is_exclusive flags = has_flag flags o_creat && has_flag flags o_excl

abbrev pub all_permissions : ℕ
all_permissions = bit_or (bit_or owner_all group_all) world_all

-- "Read created iNode" and what follows.
abbrev pub created : FileCalls → ℕ → Inode → Checked
created calls flags inode =
    let (res, inode') = calls.read_created inode in
    if not (is_zero res)
    then undo res
    else opens (record inode' { mode = bit_or inode'.mode all_permissions }) flags

-- From "Check for directory only" to the end of the case, for a name that is missing.
abbrev pub create_file : FileCalls → Tree → ℕ → ℕ → Inode → List ℕ → Checked
create_file calls tree flags mode inode name =
    if has_flag flags o_directory
    then early enotdir
    else if has_flag (tree.filesystems inode.fs).flags mount_rdonly
    then early erofs
    else if not (can_access world_write inode tree.creds)
    then early eacces
    else elim (calls.create inode.fs) [
      | none ↦ early enosys
      | some create ↦
          let (res, number) =
            create inode name (bit_or (bit_and mode all_permissions) mode_regular) in
          if not (is_zero res)
          then early res
          else created calls flags (record inode { number = number })
    ]

-- The switch over what `IoLookupPath` found.
pub after_lookup : FileCalls → Tree → (ℕ → ℕ) → ℕ → ℕ → Found → Checked
after_lookup calls tree mem flags mode found =
    if is_zero found.res
    then if has_flag flags o_directory
      then early enotdir
      else if is_exclusive flags
      then early eexist
      else opens found.output flags
    else if is_error 21 found.res
    then if is_exclusive flags
      then early eexist
      else if has_flag flags o_wronly
      then early eisdir
      else opens found.output (bit_or flags o_directory)
    else if is_error 2 found.res
    then elim found.file_start [
      | none ↦ early enoent
      | some start ↦
          if has_flag flags o_creat
          then create_file calls tree flags mode found.output
              (bytes mem start (str_len name_max mem start))
          else early enoent
    ]
    else early found.res

abbrev pub perms_required : ℕ → ℕ
perms_required flags =
    bit_or (if has_flag flags o_rdonly then world_read else 0)
      (if has_flag flags o_wronly then world_write else 0)

-- "Do checks"
pub check_inode : Tree → ℕ → Inode → Checked
check_inode tree flags inode =
    if is_fifo inode.mode || is_socket inode.mode || is_symlink inode.mode
    then undo enosys
    else if has_flag (tree.filesystems inode.fs).flags mount_rdonly && has_flag flags o_wronly
    then undo erofs
    else if not (can_access (perms_required flags) inode tree.creds)
    then undo eacces
    else opens inode flags

-- `returnError`
abbrev pub return_error : ℕ → ℤ → OpenFiles → OpenFiles × ℤ
return_error fd res s = (
  record s {
    context = record s.context { descriptor_flags = update s.context.descriptor_flags fd 0 };
  },
  res,
)

-- The new file at its address.
abbrev pub fill_file : ℕ → ℕ → Inode → OpenFiles → OpenFiles
fill_file f flags inode s = record {
  context =
      set_file f
        (record {
          ref_count = 1;
          off = 0;
          flags = bit_and flags (bit_or (bit_or o_rdwr o_append) o_directory);
        })
        s.context;
  places = update s.places f (record { fs = inode.fs; inode = inode.number; ops = inode.ops });
}

-- `MemKFree(file)`
abbrev pub drop_file : ℕ → OpenFiles → OpenFiles
drop_file f s = record s { context = record s.context { freed = f ∷ s.context.freed } }

-- "Place in context"
abbrev pub place_file : ℕ → ℕ → ℕ → OpenFiles → OpenFiles
place_file f fd flags s = record s {
  context = record s.context {
    files = update s.context.files fd (some f);
    descriptor_flags = update s.context.descriptor_flags fd (bit_and flags o_cloexec);
  };
}

-- "Truncate file", and the end.
pub truncate_file : FileCalls → ℕ → ℕ → ℕ → Inode → OpenFiles → OpenFiles × ℤ
truncate_file calls f fd flags inode s =
    if has_flag flags o_trunc
    then elim (calls.truncate_op inode flags) [
      | none ↦ return_error fd enosys (drop_file f s)
      | some res ↦
          if is_zero res
          then (place_file f fd flags s, pos 0)
          else return_error fd res (drop_file f s)
    ]
    else (place_file f fd flags s, pos 0)

-- From "Create descriptor" on; `none` where the code calls `open` through NULL.
pub create_descriptor : FileCalls → ℕ → ℕ → ℕ → Inode → OpenFiles → Option (OpenFiles × ℤ)
unfolding truncate_file
create_descriptor calls f fd flags inode s =
    let s' = fill_file f flags inode s in
    elim (calls.open_op inode flags) [
      | none ↦ none
      | some res ↦
          if not (is_zero res)
          then some (return_error fd res (drop_file f s'))
          else some (truncate_file calls f fd flags inode s')
    ]

abbrev pub finish_open : FileCalls → ℕ → ℕ → Checked → OpenFiles → Option (OpenFiles × ℤ)
finish_open calls f fd (early res) s = some (s, res)
finish_open calls f fd (undo res) s = some (return_error fd res s)
finish_open calls f fd (opens inode flags) s = create_descriptor calls f fd flags inode s

-- The checks, where there is an inode to open.
abbrev pub then_check : Tree → Checked → Checked
then_check tree (early res) = early res
then_check tree (undo res) = undo res
then_check tree (opens inode flags) = check_inode tree flags inode

abbrev pub is_some : Option ℕ → Bool
is_some none = false
is_some (some f) = true

-- "Check if fd exists and is not reserved"
abbrev pub is_taken : Context → ℕ → Bool
is_taken c fd =
    leb max_open_files fd || is_some (c.files fd) || has_flag (c.descriptor_flags fd) o_fdreserved

-- The flags without those that are unknown, and without IO_O_TRUNC where the file is not to be written.
abbrev pub trim_flags : ℕ → ℕ
trim_flags flags =
    let known = bit_and flags o_allflags in
    if has_flag known o_wronly then known else bit_and known (o_allflags - o_trunc)

abbrev pub reserve : ℕ → OpenFiles → OpenFiles
reserve fd s = record s {
  context = record s.context {
    descriptor_flags = update s.context.descriptor_flags fd o_fdreserved;
  };
}

-- `IoOpen`; `none` where the fuel of the lookup does not last, or `open` is called through NULL.
pub open_file :
    ℕ → FileCalls → Tree → (ℕ → ℕ) → ℕ → ℕ → ℕ → ℕ → ℕ → Inode → OpenFiles → Option (OpenFiles × ℤ)
unfolding after_lookup check_inode create_descriptor
open_file fuel calls tree mem path flags mode fd f output s =
    if is_taken s.context fd
    then some (s, einval)
    else if not (has_flag (bit_and flags o_allflags) o_rdwr)
    then some (s, einval)
    else let flags' = trim_flags flags in
      elim (lookup_path fuel tree mem path output) [
        | none ↦ none
        | some found ↦
            finish_open calls f fd (then_check tree (after_lookup calls tree mem flags' mode found))
              (reserve fd s)
      ]
