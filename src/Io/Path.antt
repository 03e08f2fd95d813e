-- ===== src/Io/Path.antt =====
-- kernel/src/io/open.c: `IoLookupPath`. Memory is a function from addresses to bytes. What the operations of
-- a file system return is an argument. The loop takes fuel.
pub mod Elements
pub mod Scan
pub mod Walk
pub mod Dot
use chaff.Prelude.{
  ℕ, zero, suc, ◌+◌, ◌-◌, Bool, true, false, not, ◌&&◌, ◌||◌, Option, none, some, List, [], ◌∷◌,
  length, ◌==◌, if◌then◌else◌,
}
use chaff.Prelude.Int.{ℤ, pos, negsuc}
use chaff.Io.Context.{error, is_zero, enotdir, eisdir}
use chaff.Io.Mode.{Inode, SecContext, can_access, is_dir, world_exec}

-- `IO_NAME_MAX`
abbrev pub name_max : ℕ
name_max = 255

abbrev pub enoent : ℤ
enoent = error 2

abbrev pub eacces : ℤ
eacces = error 13

abbrev pub enametoolong : ℤ
enametoolong = error 36

-- Whether a result is the negative of an error number.
abbrev pub is_error : ℕ → ℤ → Bool
is_error num (pos n) = false
is_error num (negsuc n) = suc n == num

-- The fields of `IoFilesystem` that are read here, and its operations `readINode`, which fills in an inode, and
-- `findINode`, given the parent, the name and what is at the place for the number.
pub record Filesystem : Type 0 where
  pub root_inode : ℕ
  pub flags : ℕ
  pub parent_fs : Option ℕ
  pub parent_inode : ℕ
  pub mount_points : ℕ → Option ℕ
  pub read_inode : Inode → ℤ × Inode
  pub find_inode : ℕ → List ℕ → ℕ → ℤ × ℕ

-- What a lookup reads: the file systems by address, `IoFilesystemRoot`, the current directory and the
-- security context.
pub record Tree : Type 0 where
  pub filesystems : ℕ → Filesystem
  pub root : Option ℕ
  pub cdir_fs : ℕ
  pub cdir_inode : ℕ
  pub creds : SecContext

-- `currFs`, `currINode` and `*output`.
pub record Position : Type 0 where
  pub fs : ℕ
  pub inode : ℕ
  pub output : Inode

-- What one element comes to: an error, no such name, or the position at it.
pub data Entered : Type 0 where
  failed : ℤ → Inode → Entered
  missing : Inode → Entered
  at : Position → Entered

-- Reading the inode of a position, and the check where `checked`.
unfoldable pub read_checked : (Inode → Bool) → Tree → ℕ → ℕ → Inode → Entered
read_checked checked tree fs inode output =
    let (res, output') =
      (tree.filesystems fs).read_inode (record output { fs = fs; number = inode }) in
    if not (is_zero res)
    then failed res output'
    else if checked output' && not (can_access world_exec output' tree.creds)
    then failed eacces output'
    else at (record { fs = fs; inode = inode; output = output' })

-- "Handle mount points"
abbrev pub mounted : Tree → ℕ → ℕ → ℕ × ℕ
mounted tree fs inode = elim ((tree.filesystems fs).mount_points inode) [
  | none ↦ (fs, inode)
  | some m ↦ (m, (tree.filesystems m).root_inode)
]

-- From "Lookup this name" to the checks.
unfoldable pub look_up : Tree → List ℕ → Position → Entered
unfolding read_checked
look_up tree name at_dir =
    let (res, inode) = (tree.filesystems at_dir.fs).find_inode at_dir.inode name at_dir.inode in
    if is_error 2 res
    then missing at_dir.output
    else if not (is_zero res)
    then failed res at_dir.output
    else let (fs', inode') = mounted tree at_dir.fs inode in
      read_checked (λ i. is_dir i.mode) tree fs' inode' at_dir.output

-- "." and ".."
abbrev pub is_dot : List ℕ → Bool
is_dot [] = false
is_dot (a ∷ []) = a == 46
is_dot (a ∷ b ∷ cs) = false

abbrev pub is_dot_dot : List ℕ → Bool
is_dot_dot [] = false
is_dot_dot (a ∷ []) = false
is_dot_dot (a ∷ b ∷ []) = a == 46 && b == 46
is_dot_dot (a ∷ b ∷ c ∷ ds) = false

-- One that is not empty, in a directory: `inl` where it is skipped as "." or as ".." in the root.
pub data Stepped : Type 0 where
  skipped : Stepped
  looked : Entered → Stepped

unfoldable pub enter : Tree → List ℕ → Position → Stepped
unfolding look_up read_checked
enter tree name p =
    let f = tree.filesystems p.fs in
    if is_dot name
    then skipped
    else if is_dot_dot name && p.inode == f.root_inode
    then elim f.parent_fs [
      | none ↦ skipped
      | some q ↦ elim (read_checked (λ i. true) tree q f.parent_inode p.output) [
        | failed res output ↦ looked (failed res output)
        | missing output ↦ looked (missing output)
        | at up ↦ looked (look_up tree name up)
      ]
    ]
    else looked (look_up tree name p)

-- The length of the element at an address, as far as it is looked for.
pub element_length : ℕ → (ℕ → ℕ) → ℕ → ℕ
element_length zero mem path = 0
element_length (suc n) mem path =
    let rest = element_length n mem (path + 1) in
    if mem path == 0 || mem path == 47 then 0 else suc rest

pub bytes : (ℕ → ℕ) → ℕ → ℕ → List ℕ
bytes mem path zero = []
bytes mem path (suc n) = mem path ∷ bytes mem (path + 1) n

-- The result, `*output` and `*fileStart`.
pub record Found : Type 0 where
  pub res : ℤ
  pub output : Inode
  pub file_start : Option ℕ

abbrev pub stop : ℤ → Inode → Found
stop res output = record { res = res; output = output; file_start = none }

-- A turn of the loop: the result, or the path and the position of the next turn.
pub data Turn : Type 0 where
  ends : Found → Turn
  continues : ℕ → Position → Turn

-- The end of a turn, after the element of the length.
abbrev pub after_element : (ℕ → ℕ) → ℕ → ℕ → Position → Stepped → Turn
after_element mem path len p skipped = continues (path + len + 1) p
after_element mem path len p (looked (failed res output)) = ends (stop res output)
after_element mem path len p (looked (missing output)) = ends (record {
  res = enoent;
  output = output;
  file_start = if mem (path + len) == 0 then some path else none;
})
after_element mem path len p (looked (at q)) =
    if mem (path + len) == 0 then ends (stop (pos 0) q.output) else continues (path + len + 1) q

-- A turn, at an element of a length.
pub turn_at : Tree → (ℕ → ℕ) → ℕ → ℕ → List ℕ → Position → Turn
unfolding enter
turn_at tree mem path len name p =
    if len == name_max
    then ends (stop enametoolong p.output)
    else if len == 0
    then if mem path == 0
      then ends (stop (if is_dir p.output.mode then eisdir else enotdir) p.output)
      else continues (path + 1) p
    else if not (is_dir p.output.mode)
    then ends (stop enotdir p.output)
    else after_element mem path len p (enter tree name p)

pub turn : Tree → (ℕ → ℕ) → ℕ → Position → Turn
unfolding element_length bytes turn_at
turn tree mem path p =
    let len = element_length name_max mem path in turn_at tree mem path len (bytes mem path len) p

-- The loop; `none` if the fuel does not last.
pub walk : ℕ → Tree → (ℕ → ℕ) → ℕ → Position → Option Found
unfolding turn
walk zero tree mem path p = none
walk (suc fuel) tree mem path p = elim (turn tree mem path p) [
  | ends found ↦ some found
  | continues path' q ↦ walk fuel tree mem path' q
]

-- The top level directory, and the first byte of the path behind it.
pub start_walk : ℕ → Tree → (ℕ → ℕ) → ℕ → ℕ → ℕ → Inode → Option Found
unfolding walk read_checked
start_walk fuel tree mem path fs inode output =
    elim (read_checked (λ i. true) tree fs inode output) [
      | failed res output' ↦ some (stop res output')
      | missing output' ↦ some (stop enoent output')
      | at p ↦ walk fuel tree mem path p
    ]

-- `IoLookupPath`; `output` is what is at the place for the inode before.
pub lookup_path : ℕ → Tree → (ℕ → ℕ) → ℕ → Inode → Option Found
unfolding start_walk
lookup_path fuel tree mem path output =
    if mem path == 0
    then some (stop enoent output)
    else if mem path == 47
    then elim tree.root [
      | none ↦ some (stop enoent output)
      | some r ↦ start_walk fuel tree mem (path + 1) r (tree.filesystems r).root_inode output
    ]
    else start_walk fuel tree mem path tree.cdir_fs tree.cdir_inode output
