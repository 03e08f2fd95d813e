-- ===== src/Io/Context/Lifetime.antt =====
-- Creating, cloning and deleting I/O contexts, and `IoCloseForExec`. Contexts share the store of files.
use chaff.Prelude.{
  ℕ, zero, suc, ◌+◌, ◌≤◌, ◌<◌, ◌≡◌, refl, ap, ◌∙◌, inl, inr, Bool, true, false, Option, none, some,
  List, leb, ◌==◌, if◌then◌else◌, arith, Bool-cases, Option-cases, update, add32, sub32, u32_mod,
}
use chaff.Prelude.Int.{ℤ}
use chaff.Io.Context.{
  File, Context, max_open_files, has_flag, is_file, o_cloexec, set_file, take_ref, release_file,
  close_file,
}
use chaff.Io.Context.Duplicate.{release_file-shared}

-- `IoContextCreate`; `none` if there is no root filesystem. The current directory is not modelled.
pub create : Bool → (ℕ → File) → List ℕ → Option Context
create has_root store freed =
    if has_root
    then some (record {
      store = store;
      freed = freed;
      files = λ fd. none;
      descriptor_flags = λ fd. 0;
      next_free_file = 0;
      ref_count = 1;
    })
    else none

-- The loop of `IoContextClone` over `n` descriptors from `i` on.
pub take_from : ℕ → ℕ → Context → Context
take_from zero i c = c
take_from (suc n) i c =
    take_from n (i + 1) (elim (c.files i) as (λ o. Context) [ none ↦ c | some f ↦ take_ref f c ])

-- `IO_MAX_OPEN_FILES`, as the bound of the loops.
pub open_limit : ℕ
open_limit = max_open_files

-- `IoContextClone`: the new context; the old one has the same store.
pub clone : Context → Context
unfolding take_from
clone c = take_from open_limit 0 (record c { ref_count = 1 })

-- The loop of `IoContextDeleteReference`, which does not look at the results.
pub release_from : (ℕ → ℤ) → ℕ → ℕ → Context → Context
unfolding release_file
release_from close_result zero i c = c
release_from close_result (suc n) i c =
    release_from close_result n (i + 1) (elim (c.files i) as (λ o. Context) [
      | none ↦ c
      | some f ↦ (release_file close_result f i c).0
    ])

-- `IoContextDeleteReference`; the flag says whether the context is freed.
pub delete_reference : (ℕ → ℤ) → Context → Context × Bool
unfolding release_from
delete_reference close_result c =
    if leb c.ref_count 1
    then (release_from close_result open_limit 0 c, true)
    else (record c { ref_count = sub32 c.ref_count 1 }, false)

-- `IoCloseForExec`
pub close_for_exec : (ℕ → ℤ) → ℕ → ℕ → Context → Context
unfolding close_file
close_for_exec close_result zero i c = c
close_for_exec close_result (suc n) i c =
    close_for_exec close_result n (i + 1) (elim (c.files i) as (λ o. Context) [
      | none ↦ c
      | some f ↦
          if has_flag (c.descriptor_flags i) o_cloexec then (close_file close_result c i).0 else c
    ])

-- How many of `n` descriptors from `i` on lead to a file.
count_from : (ℕ → Option ℕ) → ℕ → ℕ → ℕ → ℕ
count_from files zero i g = 0
count_from files (suc n) i g = (if is_file (files i) g then 1 else 0) + count_from files n (i + 1) g

count_from_le : (files : ℕ → Option ℕ) (n i g : ℕ) → count_from files n i g ≤ n
unfolding count_from
count_from_le files zero i g = omega arith
count_from_le files (suc n) i g = ground (arith, count_from_le files n (i + 1) g)

-- The context with other reference counts.
abbrev with_counts : Context → (ℕ → ℕ) → Context
with_counts c counts = record c { store = λ g. record (c.store g) { ref_count = counts g } }

same_counts :
    (c : Context) (a b : ℕ → ℕ) → ((g : ℕ) → a g ≡ b g) → with_counts c a ≡ with_counts c b
same_counts c a b h = ap (with_counts c) (λ i g. h g i)

-- A file is open in the context.
abbrev pub IsOpen : Context → ℕ → Type 0
IsOpen c f = (i : ℕ) × (c.files i ≡ some f)

-- An assignment to one reference count.
set_count :
    (f v : ℕ) (c : Context) (counts : ℕ → ℕ)
    → set_file f (record (c.store f) { ref_count = v }) (with_counts c counts)
      ≡ with_counts c (update counts f v)
set_count f v c counts = ap (λ s. record c { store = s }) (λ i g. same g i)
  where
    same :
        (g : ℕ)
        → update (with_counts c counts).store f (record (c.store f) { ref_count = v }) g
          ≡ record (c.store g) { ref_count = update counts f v g }
    same g = elim (Bool-cases (f == g)) [
      | inl e ↦ rw e (ap (λ h. record (c.store h) { ref_count = v }) (eq e))
      | inr e ↦ rw e refl
    ]
      where
        eq : (f == g) ≡ true → f ≡ g
        eq e = ground (arith, e)

take_from_lem :
    (n i : ℕ) (c : Context) (counts : ℕ → ℕ)
    → ((f : ℕ) → IsOpen c f → counts f + n < u32_mod)
    → take_from n i (with_counts c counts)
      ≡ with_counts c (λ g. counts g + count_from c.files n i g)
unfolding take_from count_from
take_from_lem zero i c counts h = same_counts c _ _ (λ g. omega arith)
take_from_lem (suc n) i c counts h = elim (Option-cases (c.files i)) [
  | inl e ↦
      rw (take_from, e)
        (take_from_lem n (i + 1) c counts (λ f o. omega (arith, h f o))
          ∙ same_counts c _ _ (λ g. omega arith))
  | inr (f, e) ↦
      rw (take_from, e)
        (ap (take_from n (i + 1)) (set_count f (add32 (counts f) 1) c counts)
          ∙ take_from_lem n (i + 1) c (update counts f (add32 (counts f) 1)) (λ u o. room f e u o)
          ∙ same_counts c _ _ (λ g. point f e g))
]
  where
    room :
        (f : ℕ)
        → c.files i ≡ some f
        → (u : ℕ) → IsOpen c u
        → update counts f (add32 (counts f) 1) u + n < u32_mod
    room f e u o = ground (arith, h u o, h f (i, e))

    point :
        (f : ℕ)
        → c.files i ≡ some f
        → (g : ℕ)
        → update counts f (add32 (counts f) 1) g + count_from c.files n (i + 1) g
          ≡ counts g + ((if f == g then 1 else 0) + count_from c.files n (i + 1) g)
    point f e g = ground (arith, ap counts, h f (i, e))

release_from_lem :
    (close_result : ℕ → ℤ) (n i : ℕ) (c : Context) (counts : ℕ → ℕ)
    → ((f : ℕ) → IsOpen c f → (0 < counts f) × (counts f + n < u32_mod))
    → release_from close_result n i (with_counts c (λ g. counts g + count_from c.files n i g))
      ≡ with_counts c counts
unfolding release_from count_from
release_from_lem close_result zero i c counts h = same_counts c _ _ (λ g. omega arith)
release_from_lem close_result (suc n) i c counts h = elim (Option-cases (c.files i)) [
  | inl e ↦
      rw (release_from, e)
        (ap (release_from close_result n (i + 1)) (same_counts c _ _ (λ g. rw e (omega arith)))
          ∙ release_from_lem close_result n (i + 1) c counts
              (λ f o. ((h f o).0, omega (arith, (h f o).1))))
  | inr (f, e) ↦
      rw (release_from, e)
        (ap (release_from close_result n (i + 1)) (
            ap (λ r. r.0) (release_file-shared close_result (with_counts c before) f i (many f e))
            ∙ set_count f (sub32 (before f) 1) c before
            ∙ same_counts c _ _ (λ g. point f e g))
          ∙ release_from_lem close_result n (i + 1) c counts
              (λ u o. ((h u o).0, omega (arith, (h u o).1))))
]
  where
    before : ℕ → ℕ
    before g = counts g + count_from c.files (suc n) i g

    before_eq :
        (f : ℕ)
        → c.files i ≡ some f
        → (g : ℕ)
        → before g ≡ counts g + ((if f == g then 1 else 0) + count_from c.files n (i + 1) g)
    before_eq f e g = rw (count_from, e) refl

    many : (f : ℕ) → c.files i ≡ some f → 1 < before f
    many f e = ground (arith, before_eq f e f, h f (i, e))

    point :
        (f : ℕ)
        → c.files i ≡ some f
        → (g : ℕ)
        → update before f (sub32 (before f) 1) g ≡ counts g + count_from c.files n (i + 1) g
    point f e g = ground (
      arith,
      before_eq f e g,
      before_eq f e f,
      ap counts,
      h f (i, e),
      ap (count_from c.files n (i + 1)),
      count_from_le c.files n (i + 1) f,
    )

-- `IoContextDeleteReference` of a clone that `IoContextClone` has just made, where each open file of the
-- context has at least one reference and room for one more by each descriptor: the clone is freed,
-- no file is closed, and every file has as many references as before the clone was made.
pub delete_reference-clone :
    (close_result : ℕ → ℤ) (c : Context)
    → ((f : ℕ)
        → IsOpen c f
        → (0 < (c.store f).ref_count) × ((c.store f).ref_count + max_open_files < u32_mod))
    → delete_reference close_result (clone c) ≡ (record c { ref_count = 1 }, true)
delete_reference-clone close_result c h = ap (delete_reference close_result) cloned ∙ deleted
  where
    one_ref : Context
    one_ref = record c { ref_count = 1 }

    counts : ℕ → ℕ
    counts g = (c.store g).ref_count

    room : (f : ℕ) → IsOpen c f → (0 < counts f) × (counts f + open_limit < u32_mod)
    room f o = unfold open_limit in h f o

    cloned : clone c ≡ with_counts one_ref (λ g. counts g + count_from c.files open_limit 0 g)
    cloned = unfold clone in take_from_lem open_limit 0 one_ref counts (λ f o. (room f o).1)

    deleted :
        delete_reference close_result
          (with_counts one_ref (λ g. counts g + count_from c.files open_limit 0 g))
        ≡ (one_ref, true)
    deleted =
        unfold delete_reference in
        ap (λ d. (d, true)) (release_from_lem close_result open_limit 0 one_ref counts room)
