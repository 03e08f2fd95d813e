-- ===== src/Io/Open/Outcome.antt =====
-- What `IoOpen` leaves in the I/O context, on every way through it.
use chaff.Prelude.{
  ℕ, ◌≤◌, ◌≡◌, ◌≢◌, refl, ap, ◌∙◌, ◌⊎◌, inl, inr, Bool, true, false, not, Option, none, some, ◌==◌,
  if◌then◌else◌, Bool-cases, update, arith,
}
use Prim.Native.Nat.{bit_and}
use chaff.Prelude.Int.{ℤ, pos}
use chaff.Io.Context.{o_cloexec, o_fdreserved, is_zero, enosys, einval, has_flag}
use chaff.Io.Mode.{Inode}
use chaff.Io.Path.{Tree}
use chaff.Io.Path.Elements.{Elements, IsPath, resolve_path}
use chaff.Io.Path.Walk.{lookup_path-resolve}
use chaff.Io.Open.{
  o_rdwr, o_trunc, o_allflags, FileCalls, OpenFiles, Checked, early, undo, opens, after_lookup,
  return_error, truncate_file, create_descriptor, finish_open, then_check, is_taken, trim_flags,
  reserve, open_file, fill_file, place_file, drop_file,
}
use chaff.Io.Open.Errors.{
  IsError, early_error, undo_error, no_error, then_check-IsError, after_lookup-IsError,
}

-- No descriptor but the one given has other flags.
abbrev pub AreFlagsKept : ℕ → OpenFiles → OpenFiles → Type 0
AreFlagsKept fd s v =
    (other : ℕ) → other ≢ fd → v.context.descriptor_flags other ≡ s.context.descriptor_flags other

-- What is opened: the file at the descriptor, with one reference, at offset 0.
abbrev pub IsOpened : ℕ → ℕ → OpenFiles → OpenFiles → Type 0
IsOpened f fd s v =
    (v.context.files ≡ update s.context.files fd (some f))
    × ((v.context.store f).ref_count ≡ 1)
    × ((v.context.store f).off ≡ 0)
    × ((flags : ℕ) × (v.context.descriptor_flags fd ≡ bit_and flags o_cloexec))
    × AreFlagsKept fd s v

-- What is not: no descriptor has another file.
abbrev pub IsRefused : ℕ → OpenFiles → OpenFiles → Type 0
IsRefused fd s v = (v.context.files ≡ s.context.files) × AreFlagsKept fd s v

abbrev pub Outcome : ℕ → ℕ → OpenFiles → OpenFiles × ℤ → Type 0
Outcome f fd s (v, res) =
    ((res ≡ pos 0) × IsOpened f fd s v) ⊎ ((is_zero res ≡ false) × IsRefused fd s v)

-- A change of one entry of an array leaves the others.
update_other {ℓ} : {A : Type ℓ} (g : ℕ → A) (i j : ℕ) (v : A) → j ≢ i → update g i v j ≡ g j
update_other g i j v d = rw (differ i j d) refl
  where
    differ : (i j : ℕ) → j ≢ i → (i == j) ≡ false
    differ i j d = ground (arith, d)

update_same {ℓ} : {A : Type ℓ} (g : ℕ → A) (i : ℕ) (v : A) → update g i v i ≡ v
update_same g i v = rw (itself i) refl
  where
    itself : (n : ℕ) → (n == n) ≡ true
    itself n = ground arith

-- A result with an error, after the flags of the descriptor have been set twice.
refused :
    (f fd a b : ℕ) (s v : OpenFiles) (res : ℤ)
    → is_zero res ≡ false
    → v.context.files ≡ s.context.files
    → v.context.descriptor_flags ≡ update (update s.context.descriptor_flags fd a) fd b
    → Outcome f fd s (v, res)
refused f fd a b s v res e files flags = inr (
  e,
  (
    files,
    λ other d.
        ap (λ g. g other) flags
        ∙ update_other (update s.context.descriptor_flags fd a) fd other b d
        ∙ update_other s.context.descriptor_flags fd other a d,
  ),
)

truncate_file-Outcome :
    (calls : FileCalls) (f fd flags : ℕ) (inode : Inode) (s : OpenFiles)
    → Outcome f fd s (truncate_file calls f fd flags inode (fill_file f flags inode (reserve fd s)))
unfolding truncate_file
truncate_file-Outcome calls f fd flags inode s = elim (Bool-cases (has_flag flags o_trunc)) [
  | inr e ↦ rw (e, truncate_file) placed
  | inl e ↦ rw (e, truncate_file) (by_call (calls.truncate_op inode flags))
]
  where
    v : OpenFiles
    v = fill_file f flags inode (reserve fd s)

    placed : Outcome f fd s (place_file f fd flags v, pos 0)
    placed = inl (
      refl,
      (
        refl,
        ap (λ x. x.ref_count) (update_same s.context.store f _),
        ap (λ x. x.off) (update_same s.context.store f _),
        (flags, update_same (update s.context.descriptor_flags fd o_fdreserved) fd _),
        λ other d.
            update_other (update s.context.descriptor_flags fd o_fdreserved) fd other _ d
            ∙ update_other s.context.descriptor_flags fd other _ d,
      ),
    )

    by_call :
        (o : Option ℤ)
        → Outcome f fd s (elim o as (λ x. OpenFiles × ℤ) [
          | none ↦ return_error fd enosys (drop_file f v)
          | some res ↦
              if is_zero res
              then (place_file f fd flags v, pos 0)
              else return_error fd res (drop_file f v)
        ])
    by_call none =
        refused f fd o_fdreserved 0 s (return_error fd enosys (drop_file f v)).0 enosys refl refl
          refl
    by_call (some res) = elim (Bool-cases (is_zero res)) [
      | inl e ↦ rw e placed
      | inr e ↦
          rw e
            (refused f fd o_fdreserved 0 s (return_error fd res (drop_file f v)).0 res e refl refl)
    ]

create_descriptor-Outcome :
    (calls : FileCalls) (f fd flags : ℕ) (inode : Inode) (s : OpenFiles) (r : ℤ)
    → calls.open_op inode flags ≡ some r
    → (v : OpenFiles × ℤ) × (create_descriptor calls f fd flags inode (reserve fd s) ≡ some v)
      × Outcome f fd s v
unfolding create_descriptor
create_descriptor-Outcome calls f fd flags inode s r o = elim (Bool-cases (is_zero r)) [
  | inl e ↦ (
    truncate_file calls f fd flags inode v,
    rw (o, create_descriptor) (rw e refl),
    truncate_file-Outcome calls f fd flags inode s,
  )
  | inr e ↦ (
    return_error fd r (drop_file f v),
    rw (o, create_descriptor) (rw e refl),
    refused f fd o_fdreserved 0 s (return_error fd r (drop_file f v)).0 r e refl refl,
  )
]
  where
    v : OpenFiles
    v = fill_file f flags inode (reserve fd s)

finish_open-Outcome :
    (calls : FileCalls) (f fd : ℕ) (c : Checked) (s : OpenFiles)
    → IsError c
    → ((inode : Inode) (flags : ℕ) → (r : ℤ) × (calls.open_op inode flags ≡ some r))
    → (v : OpenFiles × ℤ) × (finish_open calls f fd c (reserve fd s) ≡ some v) × Outcome f fd s v
finish_open-Outcome calls f fd (early _) s (early_error {res} e) h = (
  (reserve fd s, res),
  refl,
  inr (e, (refl, λ other d. update_other s.context.descriptor_flags fd other _ d)),
)
finish_open-Outcome calls f fd (undo _) s (undo_error {res} e) h = (
  return_error fd res (reserve fd s),
  refl,
  refused f fd o_fdreserved 0 s (return_error fd res (reserve fd s)).0 res e refl refl,
)
finish_open-Outcome calls f fd (opens inode flags) s no_error h =
    create_descriptor-Outcome calls f fd flags inode s (h inode flags).0 (h inode flags).1

-- `IoOpen` of a path whose last element is not "." or "..", with enough fuel, where every file has an `open`: it
-- ends, and either it returns 0 and the descriptor has a file with one reference at offset 0, or it
-- returns an error and every descriptor has the file it had. The flags of every other descriptor
-- stay.
pub open_file-Outcome :
    (fuel n : ℕ) (calls : FileCalls) (tree : Tree) (mem : ℕ → ℕ) (path flags mode fd f : ℕ)
    (output : Inode) (s : OpenFiles) (elements : Elements) (from_root : Bool)
    → IsPath mem path n elements from_root
    → n ≤ fuel
    → ((inode : Inode) (flags : ℕ) → (r : ℤ) × (calls.open_op inode flags ≡ some r))
    → (v : OpenFiles × ℤ) × (open_file fuel calls tree mem path flags mode fd f output s ≡ some v)
      × Outcome f fd s v
unfolding open_file
open_file-Outcome fuel n calls tree mem path flags mode fd f output s elements from_root w l h =
    elim (Bool-cases (is_taken s.context fd)) [
      | inl e ↦ ((s, einval), rw (e, open_file) refl, kept)
      | inr e ↦ elim (Bool-cases (not (has_flag (bit_and flags o_allflags) o_rdwr))) [
        | inl g ↦ ((s, einval), rw (e, open_file) (rw g refl), kept)
        | inr g ↦
            let found = resolve_path tree from_root elements output in
            let checked =
              then_check tree (after_lookup calls tree mem (trim_flags flags) mode found) in
            let (v, r, k) =
              finish_open-Outcome calls f fd checked s
                (then_check-IsError tree _
                  (after_lookup-IsError calls tree mem (trim_flags flags) mode found))
                h in
            (
              v,
              rw (e, open_file)
                  (rw g (
                    rw (lookup_path-resolve fuel n tree mem path output elements from_root w l) r)),
              k,
            )
      ]
    ]
  where
    kept : Outcome f fd s (s, einval)
    kept = inr (refl, (refl, λ other d. refl))
