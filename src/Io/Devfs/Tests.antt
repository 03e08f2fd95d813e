-- ===== src/Io/Devfs/Tests.antt =====
-- Two devices, "tty" and "hda", and the theorems where they are registered.
use chaff.Prelude.{
  ℕ, ◌≡◌, ◌≢◌, refl, false, none, some, List, [], ◌∷◌, ◌==◌, if◌then◌else◌, arith, ◌⊎◌,
}
use chaff.Prelude.Int.{pos}
use chaff.Io.Mode.{Inode}
use chaff.Io.Path.{Tree, lookup_path, stop}
use chaff.Io.Path.Elements.{one_name, absolute}
use chaff.Io.Devfs.{Devices, register, find_inode, read_inode, mounted_root}
use chaff.Io.Devfs.Sound.{IsSound}
use chaff.Io.Devfs.Runs.{registers, unregisters, run, run-IsSound}
use chaff.Io.Devfs.First.{
  IsRootDir, IsDeviceFile, IsEmpty, IsEmpty-IsSound, find_inode-read_inode, lookup_path-first,
}

abbrev tty : List ℕ
tty = 116 ∷ 116 ∷ 121 ∷ []

abbrev hda : List ℕ
hda = 104 ∷ 100 ∷ 97 ∷ []

-- Device 7 is "tty", every other one "hda".
abbrev none_registered : Devices
none_registered = record {
  info = λ d. record {
    name = if d == 7 then tty else hda;
    mode = 0x21B6;
    uid = 0;
    gid = 0;
    is_cached = false;
    inode = 0;
  };
  devices = λ i. none;
  files = λ name. none;
  next_free_inode = 0;
}

none_registered-IsEmpty : IsEmpty none_registered
none_registered-IsEmpty = (refl, (λ i. refl), (λ name. refl))

run-IsSound_example : IsSound (run (registers 8 ∷ registers 7 ∷ unregisters 8 ∷ []) none_registered)
run-IsSound_example =
    run-IsSound (registers 8 ∷ registers 7 ∷ unregisters 8 ∷ []) none_registered
      (IsEmpty-IsSound none_registered none_registered-IsEmpty)

-- "hda" has inode 0, and "tty" inode 1.
abbrev both : Devices
both = run (registers 8 ∷ registers 7 ∷ []) none_registered

abbrev blank : Inode
blank = record { number = 0; fs = 1; ops = 0; mode = 0; uid = 0; gid = 0; size = 0 }

find_inode-read_inode_example :
    (find_inode both 0 tty 0 ≡ (pos 0, (both.info 7).inode))
    × ((read_inode both (record blank { number = (both.info 7).inode })).0 ≡ pos 0)
    × ((((both.info 7).inode ≡ 0)
          × IsRootDir (read_inode both (record blank { number = (both.info 7).inode })).1)
        ⊎ (((both.info 7).inode ≢ 0)
            × IsDeviceFile
                (both.info 7)
                (read_inode both (record blank { number = (both.info 7).inode })).1))
unfolding run register
find_inode-read_inode_example =
    find_inode-read_inode both tty 7 0 blank
      (run-IsSound (registers 8 ∷ registers 7 ∷ []) none_registered
        (IsEmpty-IsSound none_registered none_registered-IsEmpty))
      refl

-- The path "/hda".
abbrev slash_hda : ℕ → ℕ
slash_hda i =
    if i == 0 then 47 else if i == 1 then 104 else if i == 2 then 100 else if i == 3 then 97 else 0

abbrev tree : Tree
tree = record {
  filesystems = λ f. mounted_root (register 8 none_registered).0;
  root = some 1;
  cdir_fs = 1;
  cdir_inode = 0;
  creds = record { euid = 5; egid = 5 };
}

lookup_path-first_example :
    (i : Inode) × (lookup_path 2 tree slash_hda 0 blank ≡ some (stop (pos 0) i)) × IsRootDir i
lookup_path-first_example =
    lookup_path-first 2 1 tree slash_hda 0 1 1 8 blank none_registered none_registered-IsEmpty refl
      refl
      (absolute refl (
        one_name
          (
            ground arith,
            ground arith,
            (
              refl,
              ground arith,
              ground arith,
              (refl, ground arith, ground arith, (refl, ground arith, ground arith, tt)),
            ),
          )
          refl refl refl))
      (ground arith)
