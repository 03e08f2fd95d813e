-- ===== src/Io/Devfs/First.antt =====
-- Devices found by their names, and the first one, which has the inode of the root directory.
use chaff.Prelude.{
  ℕ, suc, ◌-◌, ◌<◌, ◌≤◌, ◌≡◌, ◌≢◌, refl, ap, sym, ◌∙◌, ◌⊎◌, inl, inr, Bool, true, false, Option,
  none, some, List, ltb, leb, ◌==◌, Bool-cases, arith,
}
use chaff.Prelude.Int.{pos}
use chaff.Io.Mode.{Inode, is_dir, SecContext, can_access, mode_can_access, world_exec}
use chaff.Io.Path.{
  Tree, Position, Entered, failed, missing, Found, enoent, at, read_checked, is_dot, is_dot_dot,
  look_up, enter, looked, mounted, stop, lookup_path,
}
use chaff.Io.Path.Elements.{
  last_name, Written, extra_slash, resolve, resolve_from, resolve_path, IsPath, absolute, one_name,
}
use chaff.Io.Path.Walk.{lookup_path-resolve}
use chaff.Io.Devfs.{
  max_devices, Device, Devices, find_free, free_inode, add_device, register, get_device,
  root_dir_ops, file_ops, root_mode, read_inode, find_inode, mounted_root,
}
use chaff.Io.Devfs.Names.{none≢some, set_name-same, same_name_refl, update_same}
use chaff.Io.Devfs.Sound.{IsSound}

-- What `DevFsReadINode` says of the root directory and of a device.
abbrev pub IsRootDir : Inode → Type 0
IsRootDir i = (i.number ≡ 0) × (i.ops ≡ root_dir_ops) × (i.mode ≡ root_mode)

abbrev pub IsDeviceFile : Device → Inode → Type 0
IsDeviceFile d i = (i.ops ≡ file_ops) × (i.mode ≡ d.mode) × (i.uid ≡ d.uid) × (i.gid ≡ d.gid)

abbrev root_dir : Inode → Inode
root_dir i = record i { ops = root_dir_ops; mode = root_mode; uid = 0; gid = 0; size = 0 }

abbrev device_file : Device → Inode → Inode
device_file d i = record i { ops = file_ops; mode = d.mode; uid = d.uid; gid = d.gid; size = 0 }

read_root :
    (s : Devices) (i : Inode) → (i.number == 0) ≡ true → read_inode s i ≡ (pos 0, root_dir i)
unfolding read_inode
read_root s i z = rw (small i.number z, read_inode) (rw z refl)
  where
    small : (n : ℕ) → (n == 0) ≡ true → ltb max_devices n ≡ false
    small n z = ground (arith, z)

read_device :
    (s : Devices) (i : Inode) (d : ℕ)
    → (i.number == 0) ≡ false
    → i.number < max_devices
    → s.devices i.number ≡ some d
    → read_inode s i ≡ (pos 0, device_file (s.info d) i)
unfolding read_inode get_device
read_device s i d z l h =
    rw (low i.number l, read_inode) (rw z (rw (below i.number l, get_device) (rw h refl)))
  where
    low : (n : ℕ) → n < max_devices → ltb max_devices n ≡ false
    low n l = ground (arith, l)

    below : (n : ℕ) → n < max_devices → leb max_devices n ≡ false
    below n l = ground (arith, l)

-- Where the names and the inodes of the devices belong together, `DevFsFindINode` of a registered name in the
-- root directory finds the inode of its device. `DevFsReadINode` of it gives the device's mode and
-- owner, unless it is inode 0, of which it gives the root directory.
pub find_inode-read_inode :
    (s : Devices) (name : List ℕ) (d old : ℕ) (i : Inode)
    → IsSound s
    → s.files name ≡ some d
    → (find_inode s 0 name old ≡ (pos 0, (s.info d).inode))
      × ((read_inode s (record i { number = (s.info d).inode })).0 ≡ pos 0)
      × ((((s.info d).inode ≡ 0)
            × IsRootDir (read_inode s (record i { number = (s.info d).inode })).1)
          ⊎ (((s.info d).inode ≢ 0)
              × IsDeviceFile (s.info d) (read_inode s (record i { number = (s.info d).inode })).1))
unfolding find_inode
find_inode-read_inode s name d old i sound h =
    let (n, at_inode) = sound.found name d h in
    let (f, e, l) = sound.back _ d at_inode in
    elim (Bool-cases ((s.info d).inode == 0)) [
      | inl z ↦
          rw (read_root s (record i { number = (s.info d).inode }) z)
            (rw (h, find_inode) refl, refl, inl (zero_of _ z, (zero_of _ z, refl, refl)))
      | inr z ↦
          rw (read_device s (record i { number = (s.info d).inode }) d z l at_inode)
            (rw (h, find_inode) refl, refl, inr (nonzero _ z, (refl, refl, refl, refl)))
    ]
  where
    zero_of : (n : ℕ) → (n == 0) ≡ true → n ≡ 0
    zero_of n z = ground (arith, z)

    nonzero : (n : ℕ) → (n == 0) ≡ false → n ≢ 0
    nonzero n z = ground (arith, z)

-- No device is registered, as after the start.
abbrev pub IsEmpty : Devices → Type 0
IsEmpty s =
    (s.next_free_inode ≡ 0)
    × ((i : ℕ) → s.devices i ≡ none)
    × ((name : List ℕ) → s.files name ≡ none)

pub IsEmpty-IsSound : (s : Devices) → IsEmpty s → IsSound s
IsEmpty-IsSound s (n, e, f) = record {
  found = λ name d h. absurd (none≢some d (sym (f name) ∙ h));
  back = λ i d h. absurd (none≢some d (sym (e i) ∙ h));
  next = ground (arith, n);
}

find_free-here :
    (devices : ℕ → Option ℕ) (n i : ℕ) → devices i ≡ none → find_free devices (suc n) i ≡ i
unfolding find_free
find_free-here devices n i e = rw (e, find_free) refl

free_inode-IsEmpty : (s : Devices) → IsEmpty s → free_inode s ≡ 0
free_inode-IsEmpty s (n, e, f) =
    ap (λ k. find_free s.devices (max_devices - k) k) n ∙ find_free-here s.devices 1023 0 (e 0)

-- The first device that is registered has inode 0.
register_first : (s : Devices) (d : ℕ) → IsEmpty s → register d s ≡ (add_device d 0 s, pos 0)
unfolding register
register_first s d h = rw (free_inode-IsEmpty s h, register) (rw (h.2 (s.info d).name) refl)

everyone :
    (creds : SecContext) (i : Inode)
    → i.mode ≡ root_mode
    → i.uid ≡ 0
    → i.gid ≡ 0
    → can_access world_exec i creds ≡ true
unfolding can_access mode_can_access
everyone creds i m u g = elim (Bool-cases (creds.euid == 0)) [
  | inl a ↦ rw (a, can_access) refl
  | inr a ↦ elim (Bool-cases (creds.egid == 0)) [
    | inl b ↦ rw (m, u, g, can_access) (rw a (rw b refl))
    | inr b ↦ rw (m, u, g, can_access) (rw a (rw b refl))
  ]
]

-- The position at the root directory, and reading it.
abbrev at_root : ℕ → Inode → Position
at_root r output = record {
  fs = r;
  inode = 0;
  output = root_dir (record output { fs = r; number = 0 });
}

read_checked-root :
    (checked : Inode → Bool) (tree : Tree) (r : ℕ) (output : Inode) (s : Devices)
    → tree.filesystems r ≡ mounted_root s
    → checked (root_dir (record output { fs = r; number = 0 })) ≡ true
    → read_checked checked tree r 0 output ≡ at (at_root r output)
unfolding read_checked
read_checked-root checked tree r output s e c =
    rw (e, read_checked)
      (rw (read_root s (record output { fs = r; number = 0 }) refl) (
        rw (c, everyone tree.creds (root_dir (record output { fs = r; number = 0 })) refl refl refl)
          refl))

look_up-root :
    (tree : Tree) (r d : ℕ) (name : List ℕ) (output : Inode) (s : Devices)
    → tree.filesystems r ≡ mounted_root s
    → s.files name ≡ some d
    → (s.info d).inode ≡ 0
    → look_up tree name (at_root r output) ≡ at (at_root r (at_root r output).output)
unfolding look_up find_inode
look_up-root tree r d name output s e h z =
    rw (e, look_up)
      (rw (h, find_inode)
        (rw (z, mounted-root)
          (read_checked-root (λ i. is_dir i.mode) tree r (at_root r output).output s e refl)))
  where
    mounted-root : mounted tree r 0 ≡ (r, 0)
    mounted-root = rw (e, mounted) refl

-- The last name of a path is not "." or "..".
last_name-plain :
    {mem : ℕ → ℕ} {path n start : ℕ} {name : List ℕ}
    → Written mem path n (last_name start name)
    → (is_dot name ≡ false) × (is_dot_dot name ≡ false)
last_name-plain (extra_slash e w) = last_name-plain w
last_name-plain (one_name h z a b) = (a, b)

enter-root :
    (tree : Tree) (r d : ℕ) (name : List ℕ) (output : Inode) (s : Devices)
    → tree.filesystems r ≡ mounted_root s
    → s.files name ≡ some d
    → (s.info d).inode ≡ 0
    → is_dot name ≡ false
    → is_dot_dot name ≡ false
    → enter tree name (at_root r output) ≡ looked (at (at_root r (at_root r output).output))
unfolding enter
enter-root tree r d name output s e h z a b =
    rw (a, enter) (rw b (rw (look_up-root tree r d name output s e h z) refl))

resolve-root :
    (tree : Tree) (r d start : ℕ) (name : List ℕ) (output : Inode) (s : Devices)
    → tree.root ≡ some r
    → tree.filesystems r ≡ mounted_root s
    → s.files name ≡ some d
    → (s.info d).inode ≡ 0
    → is_dot name ≡ false
    → is_dot_dot name ≡ false
    → resolve_path tree true (last_name start name) output
      ≡ stop (pos 0) (at_root r (at_root r output).output).output
unfolding resolve
resolve-root tree r d start name output s root e h z a b =
    ap from_root root
    ∙ ap (λ f. resolve_from tree r f.root_inode output (last_name start name)) e
    ∙ ap from_entered (read_checked-root (λ i. true) tree r output s e refl)
    ∙ rw (enter-root tree r d name output s e h z a b, resolve) refl
  where
    from_root : Option ℕ → Found
    from_root none = stop enoent output
    from_root (some q) =
        resolve_from tree q (tree.filesystems q).root_inode output (last_name start name)

    from_entered : Entered → Found
    from_entered (failed res output') = stop res output'
    from_entered (missing output') = stop enoent output'
    from_entered (at p) = resolve tree (last_name start name) p

-- Where devfs is the root file system and a device is the first that is registered, `IoLookupPath` of the name
-- of the device in the root directory succeeds, and finds the root directory.
pub lookup_path-first :
    (fuel n : ℕ) (tree : Tree) (mem : ℕ → ℕ) (path start r d : ℕ) (output : Inode) (s : Devices)
    → IsEmpty s
    → tree.root ≡ some r
    → tree.filesystems r ≡ mounted_root (register d s).0
    → IsPath mem path n (last_name start (s.info d).name) true
    → n ≤ fuel
    → (i : Inode) × (lookup_path fuel tree mem path output ≡ some (stop (pos 0) i)) × IsRootDir i
lookup_path-first fuel n tree mem path start r d output s empty root e w l =
    let (a, b) = plain w in
    (
      (at_root r (at_root r output).output).output,
      lookup_path-resolve fuel n tree mem path output (last_name start (s.info d).name) true w l
          ∙ ap (λ x. some x)
              (resolve-root tree r d start (s.info d).name output (add_device d 0 s) root
                (e ∙ ap (λ x. mounted_root x.0) (register_first s d empty))
                (set_name-same s.files (s.info d).name (s.info d).name (some d)
                  (same_name_refl (s.info d).name))
                (ap (λ x. x.inode) (update_same s.info d (record (s.info d) { inode = 0 }))) a b),
      (refl, refl, refl),
    )
  where
    plain :
        IsPath mem path n (last_name start (s.info d).name) true
        → (is_dot (s.info d).name ≡ false) × (is_dot_dot (s.info d).name ≡ false)
    plain (absolute c w) = last_name-plain w
