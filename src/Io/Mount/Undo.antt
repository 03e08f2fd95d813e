-- ===== src/Io/Mount/Undo.antt =====
-- Unmounting undoes mounting.
use chaff.Prelude.{
  ℕ, ◌<◌, ◌≡◌, ◌≢◌, refl, ap, subst, sym, ◌∙◌, true, false, none, some, [], ◌∷◌, ◌==◌, Bool-cases,
  update, add32, sub32, u32_mod, arith, inl, inr,
}
use chaff.Prelude.Int.{pos}
use chaff.Io.Mode.{Inode, is_dir}
use chaff.Io.Mount.{
  Mounted, Mounts, set_fs, set_mounted, find_point, remove_point, add_type_ref, drop_type_ref,
  mount_internal, mount, leave_parent, unmount,
}

-- The new file system.
abbrev new_fs : ℕ → ℕ → ℕ → Inode → Mounted
new_fs t d flags onto = record {
  fs_type = t;
  device = some d;
  flags = flags;
  parent_fs = some onto.fs;
  parent_inode = onto.number;
  ref_count = 0;
  mount_points = [];
}

-- The parent while the file system is mounted onto it.
abbrev with_child : ℕ → Inode → Mounted → Mounted
with_child f onto p = record p {
  ref_count = add32 p.ref_count 1;
  mount_points = (onto.number, f) ∷ p.mount_points;
}

-- The parent while `mount` is called, and the table of file systems behind it.
abbrev locked : Mounted → Mounted
locked p = record p { ref_count = add32 p.ref_count 1 }

abbrev locked_table : ℕ → Mounts → ℕ → Mounted
locked_table q s = update s.filesystems q (locked (s.filesystems q))

abbrev table : ℕ → ℕ → ℕ → ℕ → Inode → Mounts → ℕ → Mounted
table f t d flags onto s = update (locked_table onto.fs s) f (new_fs t d flags onto)

-- The state before the mount point is added, and after.
abbrev attempted : ℕ → ℕ → ℕ → ℕ → Inode → Mounts → Mounts
attempted f t d flags onto s = record (add_type_ref t (set_mounted (some d) true s)) {
  filesystems = table f t d flags onto s;
}

abbrev after_mount : ℕ → ℕ → ℕ → ℕ → Inode → Mounts → Mounts
after_mount f t d flags onto s =
    set_fs onto.fs (with_child f onto (s.filesystems onto.fs)) (attempted f t d flags onto s)

update_same {ℓ} : {A : Type ℓ} (g : ℕ → A) (i : ℕ) (v : A) → update g i v i ≡ v
update_same g i v = rw (itself i) refl
  where
    itself : (n : ℕ) → (n == n) ≡ true
    itself n = ground arith

update_other {ℓ} : {A : Type ℓ} (g : ℕ → A) (i j : ℕ) (v : A) → i ≢ j → update g i v j ≡ g j
update_other g i j v d = rw (differ i j d) refl
  where
    differ : (i j : ℕ) → i ≢ j → (i == j) ≡ false
    differ i j d = ground (arith, d)

-- An entry that is set and set back is as before.
update_back {ℓ} :
    {A : Type ℓ} (g : ℕ → A) (i : ℕ) (v w : A)
    → w ≡ g i
    → (j : ℕ) → update (update g i v) i w j ≡ g j
update_back g i v w e j = elim (Bool-cases (i == j)) [
  | inl h ↦ rw h (e ∙ ap g (equal i j h))
  | inr h ↦ rw h refl
]
  where
    equal : (i j : ℕ) → (i == j) ≡ true → i ≡ j
    equal i j h = ground (arith, h)

mount-after :
    (f t d flags : ℕ) (onto : Inode) (s : Mounts)
    → is_dir onto.mode ≡ true
    → find_point onto.number (s.filesystems onto.fs).mount_points ≡ none
    → s.is_mounted d ≡ false
    → f ≢ onto.fs
    → mount (pos 0) f t (some d) flags onto s ≡ some (after_mount f t d flags onto s, pos 0)
unfolding mount mount_internal
mount-after f t d flags onto s dir free idle fresh =
    rw (dir, mount)
      (rw free (
        rw idle (
          ap
            (λ p. some (
              set_fs onto.fs (record p { mount_points = (onto.number, f) ∷ p.mount_points })
                  (attempted f t d flags onto s),
              pos 0,
            ))
            parent)))
  where
    parent :
        (attempted f t d flags onto s).filesystems onto.fs
        ≡ record (s.filesystems onto.fs) { ref_count = add32 (s.filesystems onto.fs).ref_count 1 }
    parent =
        update_other (locked_table onto.fs s) f onto.fs (new_fs t d flags onto) fresh
        ∙ update_same s.filesystems onto.fs (locked (s.filesystems onto.fs))

-- The parent with the child and after it, and the state after the unmounting.
abbrev without_child : ℕ → Mounted → Mounted
without_child inode p = record p {
  ref_count = sub32 p.ref_count 1;
  mount_points = remove_point inode p.mount_points;
}

abbrev after_unmount : ℕ → ℕ → ℕ → Inode → Mounts → Mounts
after_unmount f t d onto v =
    let w =
      set_mounted (some d) false
        (drop_type_ref t (set_fs onto.fs (without_child onto.number (v.filesystems onto.fs)) v)) in
    record w { freed = f ∷ w.freed }

leave_parent-new :
    (f t d flags : ℕ) (onto : Inode) (v : Mounts)
    → v.filesystems f ≡ new_fs t d flags onto
    → leave_parent f v ≡ set_fs onto.fs (without_child onto.number (v.filesystems onto.fs)) v
unfolding leave_parent
leave_parent-new f t d flags onto v e =
    rw (ap (λ x. x.parent_fs) e, leave_parent) (rw (ap (λ x. x.parent_inode) e) refl)

unmount-new :
    (f t d flags : ℕ) (onto : Inode) (v : Mounts)
    → v.filesystems f ≡ new_fs t d flags onto
    → unmount (pos 0) f v ≡ some (after_unmount f t d onto v, pos 0)
unfolding unmount
unmount-new f t d flags onto v e =
    rw (ap (λ x. x.ref_count) e, unmount)
      (rw (ap (λ x. x.mount_points) e) (
        rw (ap (λ x. x.device) e)
          (rw (ap (λ x. x.fs_type) e, leave_parent-new f t d flags onto v e) refl)))

new_fs-after :
    (f t d flags : ℕ) (onto : Inode) (s : Mounts)
    → f ≢ onto.fs
    → (after_mount f t d flags onto s).filesystems f ≡ new_fs t d flags onto
new_fs-after f t d flags onto s fresh =
    update_other (table f t d flags onto s) onto.fs f (with_child f onto (s.filesystems onto.fs))
      (λ e. fresh (sym e))
    ∙ update_same (locked_table onto.fs s) f (new_fs t d flags onto)

without_child-with_child :
    (f : ℕ) (onto : Inode) (p : Mounted)
    → p.ref_count < u32_mod
    → without_child onto.number (with_child f onto p) ≡ p
unfolding remove_point
without_child-with_child f onto p l = rw (counted p.ref_count l) (rw (itself onto.number) refl)
  where
    counted : (n : ℕ) → n < u32_mod → sub32 (add32 n 1) 1 ≡ n
    counted n l = omega (arith, l)

    itself : (n : ℕ) → (n == n) ≡ true
    itself n = ground arith

-- What unmounting puts back: every file system but the one that was new, the reference counts of the types, the
-- devices, and the root unless the file system was it.
abbrev pub IsRestored : ℕ → Mounts → Mounts → Type 0
IsRestored f s w =
    ((q : ℕ) → q ≢ f → w.filesystems q ≡ s.filesystems q)
    × ((t : ℕ) → w.type_refs t ≡ s.type_refs t)
    × ((d : ℕ) → w.is_mounted d ≡ s.is_mounted d)
    × (w.root ≡ s.root)

-- Where the directory `onto` is not mounted onto, nor the device mounted, and the counts do not overflow,
-- `IoFilesystemMount` of the device onto the directory succeeds if the type's `mount` does. If `umount`
-- succeeds too, `IoFilesystemUnMount` then puts everything back that was there before.
pub unmount-mount :
    (f t d flags : ℕ) (onto : Inode) (s : Mounts)
    → is_dir onto.mode ≡ true
    → find_point onto.number (s.filesystems onto.fs).mount_points ≡ none
    → s.is_mounted d ≡ false
    → f ≢ onto.fs
    → (s.filesystems onto.fs).ref_count < u32_mod
    → s.type_refs t < u32_mod
    → (v : Mounts) × (w : Mounts) × (mount (pos 0) f t (some d) flags onto s ≡ some (v, pos 0))
      × (unmount (pos 0) f v ≡ some (w, pos 0))
      × IsRestored f s w
unmount-mount f t d flags onto s dir free idle fresh refs types =
    let v = after_mount f t d flags onto s in
    let P = onto.fs in
    (
      v,
      after_unmount f t d onto v,
      mount-after f t d flags onto s dir free idle fresh,
      unmount-new f t d flags onto v (new_fs-after f t d flags onto s fresh),
      (
        (λ q n. back q n),
        update_back s.type_refs t (add32 (s.type_refs t) 1) (sub32 (v.type_refs t) 1) (
            ap (λ k. sub32 k 1) (update_same s.type_refs t (add32 (s.type_refs t) 1))
            ∙ counted (s.type_refs t) types),
        update_back s.is_mounted d true false (sym idle),
        refl,
      ),
    )
  where
    counted : (n : ℕ) → n < u32_mod → sub32 (add32 n 1) 1 ≡ n
    counted n l = omega (arith, l)

    equal : (i j : ℕ) → (i == j) ≡ true → i ≡ j
    equal i j h = ground (arith, h)

    apart : (i j : ℕ) → (i == j) ≡ false → i ≢ j
    apart i j h = ground (arith, h)

    mounted_table : ℕ → Mounted
    mounted_table = (after_mount f t d flags onto s).filesystems

    child_gone : Mounted
    child_gone = without_child onto.number (mounted_table onto.fs)

    at_parent :
        (after_unmount f t d onto (after_mount f t d flags onto s)).filesystems onto.fs
        ≡ s.filesystems onto.fs
    at_parent =
        update_same mounted_table onto.fs child_gone
        ∙ ap (λ x. without_child onto.number x)
            (update_same (table f t d flags onto s) onto.fs
              (with_child f onto (s.filesystems onto.fs)))
        ∙ without_child-with_child f onto (s.filesystems onto.fs) refs

    back :
        (q : ℕ)
        → q ≢ f
        → (after_unmount f t d onto (after_mount f t d flags onto s)).filesystems q
          ≡ s.filesystems q
    back q n = elim (Bool-cases (onto.fs == q)) [
      | inl h ↦
          subst
            (λ j.
              (after_unmount f t d onto (after_mount f t d flags onto s)).filesystems j
              ≡ s.filesystems j)
            (equal onto.fs q h) at_parent
      | inr h ↦
          update_other mounted_table onto.fs q child_gone (apart onto.fs q h)
          ∙ update_other (table f t d flags onto s) onto.fs q
              (with_child f onto (s.filesystems onto.fs)) (apart onto.fs q h)
          ∙ update_other (locked_table onto.fs s) f q (new_fs t d flags onto) (λ e. n (sym e))
          ∙ update_other s.filesystems onto.fs q (locked (s.filesystems onto.fs))
              (apart onto.fs q h)
    ]
