-- ===== src/Io/Context/Transfer.antt =====
-- `IoRead` and `IoWrite`.
use chaff.Prelude.{
  ℕ, ◌+◌, ◌<◌, ◌≡◌, refl, ap, ◌∙◌, inl, inr, Bool, true, false, not, Option, none, some, ◌==◌,
  if◌then◌else◌, arith, Bool-cases, u32_mod,
}
use chaff.Prelude.Int.{ℤ, pos, negsuc}
use chaff.Io.Context.{
  File, Context, max_open_files, has_flag, o_rdonly, o_wronly, o_directory, ebadf, eisdir, efault,
  enosys, take_ref, with_file, release_file, advance, transfer, read, write,
}
use chaff.Io.Context.Duplicate.{drop_ref-take_ref, release_file-shared, with_file-open}

-- The result by the flags of the file, the memory check and the filesystem's operation.
abbrev pub outcome : ℕ → ℕ → Bool → Option ℤ → ℤ
outcome mode flags memory_ok op =
    if not (has_flag flags mode)
    then ebadf
    else if has_flag flags o_directory
    then eisdir
    else if not memory_ok
    then efault
    else elim op [ none ↦ enosys | some res ↦ res ]

transfer-outcome :
    (mode : ℕ) (memory_ok : Bool) (op : Option ℤ) (f : ℕ) (c : Context)
    → transfer mode memory_ok op f c ≡ (
      advance f (outcome mode (c.store f).flags memory_ok op) c,
      outcome mode (c.store f).flags memory_ok op,
    )
unfolding transfer advance
transfer-outcome mode memory_ok op f c = elim (Bool-cases (has_flag (c.store f).flags mode)) [
  | inr e ↦ rw e refl
  | inl e ↦ elim (Bool-cases (has_flag (c.store f).flags o_directory)) [
    | inl d ↦ rw (e, d) refl
    | inr d ↦ rw (e, d) (checked memory_ok op)
  ]
]
  where
    checked :
        (ok : Bool) (o : Option ℤ)
        → (if not ok then (c, efault) else elim o as (λ x. Context × ℤ) [
          | none ↦ (c, enosys)
          | some res ↦ (advance f res c, res)
        ])
          ≡ (
            advance f
                (if not ok then efault else elim o as (λ x. ℤ) [ none ↦ enosys | some res ↦ res ])
                c,
            if not ok then efault else elim o as (λ x. ℤ) [ none ↦ enosys | some res ↦ res ],
          )
    checked false o = refl
    checked true none = refl
    checked true (some res) = refl

store_path :
    (c : Context) (s t : ℕ → File)
    → ((g : ℕ) → s g ≡ t g)
    → record c { store = s } ≡ record c { store = t }
store_path c s t h = ap (λ s. record c { store = s }) (λ i g. h g i)

advance-take_ref :
    (f : ℕ) (res : ℤ) (c : Context) → advance f res (take_ref f c) ≡ take_ref f (advance f res c)
unfolding advance
advance-take_ref f (negsuc n) c = refl
advance-take_ref f (pos n) c = store_path c _ _ same
  where
    itself : (f == f) ≡ true
    itself = ground arith

    same :
        (g : ℕ)
        → (advance f (pos n) (take_ref f c)).store g ≡ (take_ref f (advance f (pos n) c)).store g
    same g = elim (Bool-cases (f == g)) [ inl e ↦ rw (e, itself) refl | inr e ↦ rw e refl ]

ref_count-advance :
    (f : ℕ) (res : ℤ) (c : Context) → ((advance f res c).store f).ref_count ≡ (c.store f).ref_count
unfolding advance
ref_count-advance f (negsuc n) c = refl
ref_count-advance f (pos n) c = rw itself refl
  where
    itself : (f == f) ≡ true
    itself = ground arith

-- The body of `IoRead` or `IoWrite` on an open descriptor.
with_file-transfer :
    (close_result : ℕ → ℤ) (c : Context) (fd f mode : ℕ) (memory_ok : Bool) (op : Option ℤ)
    → fd < max_open_files
    → c.files fd ≡ some f
    → 0 < (c.store f).ref_count
    → (c.store f).ref_count + 1 < u32_mod
    → with_file close_result c fd (transfer mode memory_ok op) ≡ (
      advance f (outcome mode (c.store f).flags memory_ok op) c,
      outcome mode (c.store f).flags memory_ok op,
    )
with_file-transfer close_result c fd f mode memory_ok op small e used room =
    with_file-open close_result c fd f (transfer mode memory_ok op) small e
    ∙ ap (λ r. ((release_file close_result f fd r.0).0, r.1))
        (transfer-outcome mode memory_ok op f (take_ref f c)
          ∙ ap (λ r. (advance f r (take_ref f c), r)) same_flags
          ∙ ap (λ d. (d, res)) (advance-take_ref f res c))
    ∙ ap (λ r. (r.0, res))
        (release_file-shared close_result (take_ref f (advance f res c)) f fd many)
    ∙ ap (λ d. (d, res)) (drop_ref-take_ref f (advance f res c) few)
  where
    res : ℤ
    res = outcome mode (c.store f).flags memory_ok op

    itself : (f == f) ≡ true
    itself = ground arith

    same_flags : outcome mode ((take_ref f c).store f).flags memory_ok op ≡ res
    same_flags = rw itself refl

    few : ((advance f res c).store f).ref_count + 1 < u32_mod
    few = omega (arith, ref_count-advance f res c, room)

    many : 1 < ((take_ref f (advance f res c)).store f).ref_count
    many = rw itself (omega (arith, ref_count-advance f res c, used, room))

-- `IoRead` and `IoWrite` on an open descriptor of a file with at least one reference: the result is
-- EBADF if the file is not open for that, else EISDIR if it is a directory, else EFAULT if the memory
-- check fails, else ENOSYS if the filesystem has no such operation, and else what that returns; the
-- file's offset moves on by a result that is not negative, and nothing else changes, the reference
-- count included.
pub read_write_lem :
    (close_result : ℕ → ℤ) (c : Context) (fd f : ℕ) (memory_ok : Bool) (op : Option ℤ)
    → fd < max_open_files
    → c.files fd ≡ some f
    → 0 < (c.store f).ref_count
    → (c.store f).ref_count + 1 < u32_mod
    → let reads = outcome o_rdonly (c.store f).flags memory_ok op in
      let writes = outcome o_wronly (c.store f).flags memory_ok op in
      (read close_result c fd memory_ok op ≡ (advance f reads c, reads))
      × (write close_result c fd memory_ok op ≡ (advance f writes c, writes))
unfolding read write
read_write_lem close_result c fd f memory_ok op small e used room = (
  with_file-transfer close_result c fd f o_rdonly memory_ok op small e used room,
  with_file-transfer close_result c fd f o_wronly memory_ok op small e used room,
)
