-- ===== src/Io/Mount/Tests.antt =====
-- A file system that is mounted onto a directory of the root and unmounted again.
use chaff.Prelude.{◌≡◌, refl, none, some, [], ◌∷◌, ◌==◌, arith}
use chaff.Prelude.Int.{pos}
use chaff.Io.Mode.{Inode, mode_dir}
use chaff.Io.Mount.{find_point, Mounts, mount, unmount}
use chaff.Io.Mount.Undo.{IsRestored, unmount-mount}

-- File system 1 is the root, with device 50 and one file system mounted onto inode 4.
abbrev one_mounted : Mounts
one_mounted = record {
  filesystems = λ f. record {
    fs_type = 20;
    device = some 50;
    flags = 0;
    parent_fs = none;
    parent_inode = 0;
    ref_count = 3;
    mount_points = (4, 2) ∷ [];
  };
  root = some 1;
  type_refs = λ t. 1;
  is_mounted = λ d. d == 50;
  freed = [];
}

abbrev directory : Inode
directory = record { number = 6; fs = 1; ops = 0; mode = mode_dir; uid = 0; gid = 0; size = 0 }

unmount-mount_example :
    (v : Mounts) × (w : Mounts) × (mount (pos 0) 3 21 (some 60) 0 directory one_mounted
      ≡ some (v, pos 0))
    × (unmount (pos 0) 3 v ≡ some (w, pos 0))
    × IsRestored 3 one_mounted w
unfolding find_point
unmount-mount_example =
    unmount-mount 3 21 60 0 directory one_mounted refl refl refl (ground arith) (omega arith)
      (omega arith)
