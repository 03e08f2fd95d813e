-- ===== src/Io/Context/Find.antt =====
-- `IoFindNextDescriptor`
use chaff.Prelude.{
  ℕ, zero, suc, ◌+◌, ◌-◌, ◌≤◌, ◌<◌, ◌≡◌, ap, sym, subst, ◌∙◌, inl, inr, Bool, true, false, not,
  ◌&&◌, Option, none, some, ltb, ◌==◌, if◌then◌else◌, arith, Bool-cases,
}
use chaff.Io.Context.{
  Context, max_open_files, has_flag, o_fdreserved, find_from, find_next_descriptor,
}

-- A descriptor that is neither open nor reserved.
abbrev pub is_free : Context → ℕ → Bool
is_free c i =
    elim (c.files i) as (λ o. Bool) [ none ↦ true | some f ↦ false ]
    && not (has_flag (c.descriptor_flags i) o_fdreserved)

-- The first free descriptor from `lo` up to `hi`, or that there is none.
abbrev pub IsFirstFree : Context → ℕ → ℕ → Option ℕ → Type 0
IsFirstFree c lo hi none = (i : ℕ) → lo ≤ i → i < hi → is_free c i ≡ false
IsFirstFree c lo hi (some n) =
    (lo ≤ n) × (n < hi) × (is_free c n ≡ true) × ((i : ℕ) → lo ≤ i → i < n → is_free c i ≡ false)

first_of_rest :
    (c : Context) (lo hi : ℕ) (o : Option ℕ)
    → is_free c lo ≡ false
    → IsFirstFree c (lo + 1) hi o
    → IsFirstFree c lo hi o
first_of_rest c lo hi none e r = skip
  where
    skip : (i : ℕ) → lo ≤ i → i < hi → is_free c i ≡ false
    skip i a b = elim (Bool-cases (lo == i)) [
      | inl q ↦ ap (is_free c) (sym (same q)) ∙ e
      | inr q ↦ r i (ground (arith, a, q)) b
    ]
      where
        same : (lo == i) ≡ true → lo ≡ i
        same q = ground (arith, q)
first_of_rest c lo hi (some n) e r = (omega (arith, r.0), r.1, r.2, skip)
  where
    skip : (i : ℕ) → lo ≤ i → i < n → is_free c i ≡ false
    skip i a b = elim (Bool-cases (lo == i)) [
      | inl q ↦ ap (is_free c) (sym (same q)) ∙ e
      | inr q ↦ r.3 i (ground (arith, a, q)) b
    ]
      where
        same : (lo == i) ≡ true → lo ≡ i
        same q = ground (arith, q)

find_from_lem : (c : Context) (n lo : ℕ) → IsFirstFree c lo (lo + n) (find_from c n lo)
unfolding find_from
find_from_lem c zero lo = λ i a b. absurd (omega (arith, a, b))
find_from_lem c (suc n) lo = elim (Bool-cases (is_free c lo)) [
  | inl e ↦ rw e (omega arith, omega arith, e, λ i a b. absurd (omega (arith, a, b)))
  | inr e ↦ rw e (
      first_of_rest c lo (lo + suc n) (find_from c n (lo + 1)) e
        (further (find_from c n (lo + 1)) (find_from_lem c n (lo + 1))))
]
  where
    further :
        (o : Option ℕ)
        → IsFirstFree c (lo + 1) (lo + 1 + n) o
        → IsFirstFree c (lo + 1) (lo + suc n) o
    further none r = λ i a b. r i a (omega (arith, b))
    further (some m) r = (r.0, omega (arith, r.1), r.2, r.3)

-- `IoFindNextDescriptor` gives the least descriptor that is neither open nor reserved, of those that
-- are not below the one asked for or `nextFreeFile`; it gives -1 if there is none among them.
pub find_next_descriptor_lem :
    (c : Context) (fd : ℕ)
    → c.next_free_file ≤ max_open_files
    → fd ≤ max_open_files
    → IsFirstFree c
        (if ltb c.next_free_file fd then fd else c.next_free_file)
        max_open_files
        (find_next_descriptor c fd)
unfolding find_next_descriptor
find_next_descriptor_lem c fd h l =
    subst (λ hi. IsFirstFree c start hi (find_from c (max_open_files - start) start)) whole
      (find_from_lem c (max_open_files - start) start)
  where
    start : ℕ
    start = if ltb c.next_free_file fd then fd else c.next_free_file

    whole : start + (max_open_files - start) ≡ max_open_files
    whole = ground (arith, h, l)
