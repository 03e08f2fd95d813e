-- ===== src/Io/Open/Tests.antt =====
-- A file system with a file "a" in its root: lookups and opens in it, and the theorems at them.
use chaff.Prelude.{
  ℕ, zero, suc, ◌+◌, ◌≡◌, refl, true, false, Bool, none, some, List, [], ◌∷◌, ◌==◌, if◌then◌else◌,
  arith,
}
use chaff.Prelude.Int.{ℤ, pos}
use chaff.Io.Context.{einval}
use chaff.Io.Mode.{can_access, Inode, mode_dir, mode_regular}
use chaff.Io.Path.{read_checked, enter, Filesystem, Tree, Position, enoent, lookup_path}
use chaff.Io.Path.Elements.{last_name, resolve, resolve_path, one_name, IsPath, absolute, relative}
use chaff.Io.Path.Walk.{lookup_path-resolve}
use chaff.Io.Path.Dot.{lookup_path-dot}
use chaff.Io.Open.{FileCalls, OpenFiles, open_file}
use chaff.Io.Open.Outcome.{Outcome, open_file-Outcome}
use chaff.Io.Open.Reserved.{open_file-reserved}

-- A string at address 0, with zeros behind it.
abbrev memory : List ℕ → ℕ → ℕ
memory [] i = 0
memory (c ∷ cs) zero = c
memory (c ∷ cs) (suc i) = memory cs i

abbrev inode : ℕ → ℕ → Inode
inode number mode = record {
  number = number;
  fs = 1;
  ops = 9;
  mode = mode;
  uid = 0;
  gid = 0;
  size = 0;
}

abbrev is_a : List ℕ → Bool
is_a [] = false
is_a (c ∷ []) = c == 97
is_a (c ∷ d ∷ ds) = false

-- Inode 2 is the root directory, 5 the file.
abbrev filesystem : Filesystem
filesystem = record {
  root_inode = 2;
  flags = 0;
  parent_fs = none;
  parent_inode = 0;
  mount_points = λ i. none;
  read_inode =
      λ i. (pos 0, inode i.number (if i.number == 2 then mode_dir + 493 else mode_regular + 420));
  find_inode = λ parent name old. if is_a name then (pos 0, 5) else (enoent, old);
}

abbrev tree : Tree
tree = record {
  filesystems = λ f. filesystem;
  root = some 1;
  cdir_fs = 1;
  cdir_inode = 2;
  creds = record { euid = 0; egid = 0 };
}

abbrev calls : FileCalls
calls = record {
  create = λ f. none;
  read_created = λ i. (pos 0, i);
  open_op = λ i flags. some (pos 0);
  truncate_op = λ i flags. none;
}

-- An I/O context with no open file.
abbrev no_files : OpenFiles
no_files = record {
  context = record {
    store = λ f. record { ref_count = 0; off = 0; flags = 0 };
    freed = [];
    files = λ fd. none;
    descriptor_flags = λ fd. 0;
    next_free_file = 0;
    ref_count = 1;
  };
  places = λ f. record { fs = 0; inode = 0; ops = 0 };
}

-- "/a" and "b"
abbrev slash_a : ℕ → ℕ
slash_a = memory (47 ∷ 97 ∷ [])

abbrev just_b : ℕ → ℕ
just_b = memory (98 ∷ [])

slash_a-IsPath : IsPath slash_a 0 1 (last_name 1 (97 ∷ [])) true
slash_a-IsPath =
    absolute refl
      (one_name (ground arith, ground arith, (refl, ground arith, ground arith, tt)) refl refl refl)

just_b-IsPath : IsPath just_b 0 1 (last_name 0 (98 ∷ [])) false
just_b-IsPath =
    relative (ground arith) (ground arith)
      (one_name (ground arith, ground arith, (refl, ground arith, ground arith, tt)) refl refl refl)

lookup_path-resolve_example :
    lookup_path 4 tree slash_a 0 (inode 0 0)
    ≡ some (resolve_path tree true (last_name 1 (97 ∷ [])) (inode 0 0))
lookup_path-resolve_example =
    lookup_path-resolve 4 1 tree slash_a 0 (inode 0 0) (last_name 1 (97 ∷ [])) true slash_a-IsPath
      (ground arith)

-- A "." with "a" behind the zero.
abbrev dot_a : ℕ → ℕ
dot_a = memory (46 ∷ 0 ∷ 97 ∷ [])

abbrev at_root : Position
at_root = record { fs = 1; inode = 2; output = inode 2 (mode_dir + 493) }

lookup_path-dot_example :
    lookup_path 4 tree dot_a 0 (inode 0 0) ≡ some (resolve tree (last_name 2 (97 ∷ [])) at_root)
unfolding read_checked can_access
lookup_path-dot_example =
    lookup_path-dot 4 1 tree dot_a 0 (inode 0 0) at_root (last_name 2 (97 ∷ [])) (refl, refl) refl
      refl
      (one_name (ground arith, ground arith, (refl, ground arith, ground arith, tt)) refl refl refl)
      (ground arith)

open_file-Outcome_example :
    (v : OpenFiles × ℤ) × (open_file 4 calls tree slash_a 0 1 0 3 0xA000 (inode 0 0) no_files
      ≡ some v)
    × Outcome 0xA000 3 no_files v
open_file-Outcome_example =
    open_file-Outcome 4 1 calls tree slash_a 0 1 0 3 0xA000 (inode 0 0) no_files
      (last_name 1 (97 ∷ [])) true slash_a-IsPath (ground arith) (λ i flags. (pos 0, refl))

open_file-reserved_example :
    (v : OpenFiles) × (open_file 4 calls tree just_b 0 1 0 3 0xA000 (inode 0 0) no_files
      ≡ some (v, enoent))
    × ((later : Tree) (place flags' mode' f' : ℕ)
        → open_file 4 calls later just_b place flags' mode' 3 f' (inode 0 0) v ≡ some (v, einval))
unfolding resolve read_checked enter can_access
open_file-reserved_example =
    open_file-reserved 4 1 calls tree just_b 0 1 0 3 0xA000 (inode 0 0) no_files
      (last_name 0 (98 ∷ [])) false just_b-IsPath (ground arith) refl refl refl refl
