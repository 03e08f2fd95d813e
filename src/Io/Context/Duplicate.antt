-- ===== src/Io/Context/Duplicate.antt =====
-- `IoDup`, and closing one of two descriptors of a file.
use Prim.Native.Nat.{bit_and}
use chaff.Prelude.{
  ℕ, ◌+◌, ◌<◌, ◌≡◌, ◌≢◌, refl, ap, sym, ◌∙◌, inl, inr, true, false, not, none, some, ◌∷◌, ltb, leb,
  ◌==◌, if◌then◌else◌, arith, Bool-cases, update, add32, sub32, u32_mod,
}
use chaff.Prelude.Int.{ℤ, pos}
use chaff.Io.Context.{
  Context, max_open_files, has_flag, dup_at_least, dup_ignore_same, o_fdreserved, o_cloexec,
  is_zero, ebadf, ebusy, einval, emfile, take_ref, drop_ref, get_file, release_file, free_file,
  with_file, close_file, find_next_descriptor,
}

-- The descriptor to use, or the result where the call stops.
pub data Target : Type 0 where
  to : ℕ → Target
  stops : ℤ → Target

-- The part of `IoDup` under "Determine new descriptor".
pub dup_target : (ℕ → ℤ) → ℕ → ℕ → ℕ → Context → Context × Target
unfolding close_file find_next_descriptor
dup_target close_result fd new_fd flags c =
    let closed = close_file close_result c new_fd in
    if has_flag flags dup_at_least
    then elim (find_next_descriptor c new_fd) [ none ↦ (c, stops emfile) | some n ↦ (c, to n) ]
    else if fd == new_fd
    then (c, stops (if has_flag flags dup_ignore_same then pos 0 else einval))
    else if not (ltb new_fd max_open_files)
    then (c, stops ebadf)
    else if has_flag (c.descriptor_flags new_fd) o_fdreserved
    then (c, stops ebusy)
    else elim (c.files new_fd) [
      | none ↦ (c, to new_fd)
      | some g ↦ if is_zero closed.1 then (closed.0, to new_fd) else (closed.0, stops closed.1)
    ]

-- The part under "If ok, Duplicate reference".
pub dup_into : ℕ → ℕ → Context × Target → Context × ℤ
dup_into f flags (c, to n) = (
  take_ref f (record c {
    files = update c.files n (some f);
    descriptor_flags = update c.descriptor_flags n (bit_and flags o_cloexec);
  }),
  pos 0,
)
dup_into f flags (c, stops res) = (c, res)

-- `IoDup`
pub dup : (ℕ → ℤ) → Context → ℕ → ℕ → ℕ → Context × ℤ
unfolding get_file release_file dup_target dup_into
dup close_result c fd new_fd flags =
    with_file close_result c fd
      (λ f c'. dup_into f flags (dup_target close_result fd new_fd flags c'))

-- A reference that is taken and given back.
pub drop_ref-take_ref :
    (f : ℕ) (c : Context) → (c.store f).ref_count + 1 < u32_mod → drop_ref f (take_ref f c) ≡ c
drop_ref-take_ref f c h = ap (λ s. record c { store = s }) (λ i g. same g i)
  where
    same : (g : ℕ) → (drop_ref f (take_ref f c)).store g ≡ c.store g
    same g = elim (Bool-cases (f == g)) [
      | inl e ↦ rw (e, itself, count) (ap c.store (eq e))
      | inr e ↦ rw e refl
    ]
      where
        eq : (f == g) ≡ true → f ≡ g
        eq e = ground arith

        itself : (f == f) ≡ true
        itself = ground arith

        count : sub32 (add32 (c.store f).ref_count 1) 1 ≡ (c.store f).ref_count
        count = omega (arith, h)

pub get_file-some :
    (c : Context) (fd f : ℕ) → fd < max_open_files → c.files fd ≡ some f → get_file c fd ≡ some f
unfolding get_file
get_file-some c fd f h e = ground (arith, e)

pub release_file-shared :
    (close_result : ℕ → ℤ) (c : Context) (f fd : ℕ)
    → 1 < (c.store f).ref_count
    → release_file close_result f fd c ≡ (drop_ref f c, pos 0)
unfolding release_file
release_file-shared close_result c f fd h = rw more refl
  where
    more : leb (c.store f).ref_count 1 ≡ false
    more = ground (arith, h)

pub with_file-open :
    (close_result : ℕ → ℤ) (c : Context) (fd f : ℕ) (body : ℕ → Context → Context × ℤ)
    → fd < max_open_files
    → c.files fd ≡ some f
    → with_file close_result c fd body
      ≡ ((release_file close_result f fd (body f (take_ref f c)).0).0, (body f (take_ref f c)).1)
with_file-open close_result c fd f body small e =
    ap
      (λ o. elim o as (λ x. Context × ℤ) [
        | none ↦ (c, ebadf)
        | some g ↦ (
          (release_file close_result g fd (body g (take_ref g c)).0).0,
          (body g (take_ref g c)).1,
        )
      ])
      (get_file-some c fd f small e)

-- `IoClose` of an open descriptor is its release.
close_file-release :
    (close_result : ℕ → ℤ) (c : Context) (fd f : ℕ)
    → fd < max_open_files
    → c.files fd ≡ some f
    → (c.store f).ref_count + 1 < u32_mod
    → close_file close_result c fd ≡ release_file close_result f fd c
unfolding close_file
close_file-release close_result c fd f small e h =
    rw (close_file, get_file-some c fd f small e)
      (ap (release_file close_result f fd) (drop_ref-take_ref f c h))

dup_target-free :
    (close_result : ℕ → ℤ) (c : Context) (fd n : ℕ)
    → fd ≢ n
    → n < max_open_files
    → c.files n ≡ none
    → has_flag (c.descriptor_flags n) o_fdreserved ≡ false
    → dup_target close_result fd n 0 c ≡ (c, to n)
unfolding dup_target
dup_target-free close_result c fd n ne small empty free =
    rw (dup_target, other, inside, free, empty) refl
  where
    other : (fd == n) ≡ false
    other = ground (arith, ne)

    inside : ltb n max_open_files ≡ true
    inside = ground (arith, small)

-- The context in which a second descriptor leads to a file.
abbrev pub shared : Context → ℕ → ℕ → Context
shared c f n = record c {
  files = update c.files n (some f);
  descriptor_flags = update c.descriptor_flags n 0;
}

module _ (close_result : ℕ → ℤ) (c : Context) (fd n f : ℕ) (small : fd < max_open_files)
    (small' : n < max_open_files) (at_fd : c.files fd ≡ some f) (at_n : c.files n ≡ none)
    (free : has_flag (c.descriptor_flags n) o_fdreserved ≡ false) (used : 0 < (c.store f).ref_count)
    (room : (c.store f).ref_count + 2 < u32_mod) where
  differ : fd ≢ n
  differ e = none-some (sym at_n ∙ ap c.files (sym e) ∙ at_fd)
    where
      none-some : none ≡ some f → ⊥
      none-some e = cc

  itself : (k : ℕ) → (k == k) ≡ true
  itself k = ground arith

  -- `IoDup` without flags of an open descriptor to one that is neither open nor reserved: it returns 0,
  -- the file has one reference more, and both descriptors lead to it; nothing else changes.
  pub dup_lem : dup close_result c fd n 0 ≡ (take_ref f (shared c f n), pos 0)
  unfolding dup dup_into
  dup_lem =
      with_file-open close_result c fd f (λ g d. dup_into g 0 (dup_target close_result fd n 0 d))
        small at_fd
      ∙ ap (λ r. ((release_file close_result f fd (dup_into f 0 r).0).0, (dup_into f 0 r).1))
          (dup_target-free close_result (take_ref f c) fd n differ small' at_n free)
      ∙ ap (λ d. (d, pos 0))
          (ap (λ r. r.0)
              (release_file-shared close_result (take_ref f (shared (take_ref f c) f n)) f fd many)
            ∙ drop_ref-take_ref f (shared (take_ref f c) f n) few)
    where
      many : 1 < ((take_ref f (shared (take_ref f c) f n)).store f).ref_count
      many = rw (itself f) (omega (arith, used, room))

      few : ((shared (take_ref f c) f n).store f).ref_count + 1 < u32_mod
      few = rw (itself f) (omega (arith, room))

  first_close : close_file close_result (take_ref f (shared c f n)) n ≡ (shared c f n, pos 0)
  first_close =
      close_file-release close_result (take_ref f (shared c f n)) n f small' (rw (itself n) refl)
        (rw (itself f) (omega (arith, room)))
      ∙ release_file-shared close_result (take_ref f (shared c f n)) f n
          (rw (itself f) (omega (arith, used, room)))
      ∙ ap (λ d. (d, pos 0)) (drop_ref-take_ref f (shared c f n) (omega (arith, room)))

  second_close :
      (c.store f).ref_count ≡ 1
      → is_zero (close_result f) ≡ true
      → close_file close_result (shared c f n) n ≡ (free_file f n (shared c f n), pos 0)
  unfolding release_file
  second_close one closes =
      close_file-release close_result (shared c f n) n f small' (rw (itself n) refl)
        (omega (arith, room))
      ∙ last
    where
      last : release_file close_result f n (shared c f n) ≡ (free_file f n (shared c f n), pos 0)
      last = rw (one, closes) refl

  freed : free_file f n (shared c f n) ≡ record (shared c f n) {
    freed = f ∷ c.freed;
    files = update (shared c f n).files n none;
    next_free_file = if ltb c.next_free_file n then n else c.next_free_file;
  }
  unfolding free_file
  freed = rw (itself n, itself f) refl

  other : (n == fd) ≡ false
  other = ground (arith, differ)

  -- A descriptor of a file with one reference, whose closing succeeds, is duplicated, and the new
  -- descriptor closed twice. The first `IoClose` returns 0 and leaves the descriptor open; the second
  -- frees the file, to which the first descriptor still leads.
  pub dup_close_close :
      (c.store f).ref_count ≡ 1
      → is_zero (close_result f) ≡ true
      → let once = close_file close_result (dup close_result c fd n 0).0 n in
        let twice = close_file close_result once.0 n in
        (once.1 ≡ pos 0)
        × (once.0.files n ≡ some f)
        × (twice.1 ≡ pos 0)
        × (twice.0.files n ≡ none)
        × (twice.0.files fd ≡ some f)
        × (twice.0.freed ≡ f ∷ c.freed)
  dup_close_close one closes =
      rw (dup_lem, first_close, second_close one closes)
        (
          refl,
          rw (itself n) refl,
          refl,
          rw (freed, itself n) refl,
          rw (freed, other) at_fd,
          rw freed refl,
        )
