-- ===== src/Mm/Physical/Count.antt =====
-- `MemPhysicalFreePages` against the page state table: how each operation keeps the count of free
-- pages in step with the pages whose reference count is 0.
use chaff.Prelude.{
  ℕ, zero, suc, ◌+◌, ◌≤◌, ◌<◌, ◌≡◌, refl, sym, ap, ◌∙◌, ◌&&◌, inl, inr, false, ltb, leb, ◌==◌,
  if◌then◌else◌, arith, Bool-cases, update, sub32, add32, u32_mod,
}
use mathlib.Core.Path.{fun_ext}
use chaff.Mm.Physical.{State, alloc, allocated, fill, add_ref, delete_ref, delete_ref_one, free}
use chaff.Mm.Physical.Found.{HeadsInside, fill_lem, IsAllocated, alloc-IsAllocated}

-- The free pages among the first `n` of the table.
unfoldable pub count_free : (ℕ → ℕ) → ℕ → ℕ
count_free ref_count zero = 0
count_free ref_count (suc n) = count_free ref_count n + (if ref_count n == 0 then 1 else 0)

-- The count is that of the table's `pages` entries, and every reference count is a 32-bit number.
pub record IsCounted (pages : ℕ) (s : State) : Type 0 where
  pub counted : s.free_pages ≡ count_free s.ref_count pages
  pub words : (p : ℕ) → s.ref_count p < u32_mod

count_free-le : (f : ℕ → ℕ) (n : ℕ) → count_free f n ≤ n
unfolding count_free
count_free-le f zero = omega arith
count_free-le f (suc n) = ground (arith, count_free-le f n)

-- Outside the range that is counted, a write does not matter; inside, it counts for its page.
count_free-update_above :
    (f : ℕ → ℕ) (p v n : ℕ) → n ≤ p → count_free (update f p v) n ≡ count_free f n
unfolding count_free
count_free-update_above f p v zero h = refl
count_free-update_above f p v (suc n) h = ground (arith, count_free-update_above f p v n)

abbrev free_bit : ℕ → ℕ
free_bit r = if r == 0 then 1 else 0

count_free-update :
    (f : ℕ → ℕ) (p v n : ℕ)
    → p < n
    → count_free (update f p v) n + free_bit (f p) ≡ count_free f n + free_bit v
unfolding count_free
count_free-update f p v zero h = absurd (omega arith)
count_free-update f p v (suc n) h =
    ground (arith, count_free-update f p v n, count_free-update_above f p v n)

count_free-used-lt : (f : ℕ → ℕ) (p n : ℕ) → p < n → (f p == 0) ≡ false → count_free f n < n
unfolding count_free
count_free-used-lt f p zero h e = absurd (omega arith)
count_free-used-lt f p (suc n) h e = ground (arith, count_free-used-lt f p n, count_free-le f n)

-- A write of one page's count keeps the state counted if the number of free pages follows it.
write-IsCounted :
    (pages page v new : ℕ) (s : State)
    → page < pages
    → v < u32_mod
    → new + free_bit (s.ref_count page) ≡ s.free_pages + free_bit v
    → IsCounted pages s
    → IsCounted pages (record s { ref_count = update s.ref_count page v; free_pages = new })
write-IsCounted pages page v new s h w e c = record {
  counted = omega (arith, count_free-update s.ref_count page v pages h);
  words = λ p. ground (arith, c.words p);
}

delete_ref_one-IsCounted :
    (pages page : ℕ) (s : State)
    → pages < u32_mod
    → page < pages
    → IsCounted pages s
    → IsCounted pages (delete_ref_one page s)
unfolding delete_ref_one
delete_ref_one-IsCounted pages page s small h c = elim (Bool-cases (ltb 0 (s.ref_count page))) [
  | inl e ↦ rw e (
      write-IsCounted pages page (sub32 (s.ref_count page) 1) _ s h (omega arith)
        (ground (arith, room)) c)
  | inr e ↦ rw e c
]
  where
    room : count_free s.ref_count pages + (if s.ref_count page == 0 then 0 else 1) ≤ pages
    room =
        ground (arith, count_free-used-lt s.ref_count page pages h, count_free-le s.ref_count pages)

-- `MemPhysicalDeleteRef` on pages of the table (of fewer than 2^32) keeps the count of free pages right.
pub delete_ref-IsCounted :
    (pages page n : ℕ) (s : State)
    → pages < u32_mod
    → page + n ≤ pages
    → IsCounted pages s
    → IsCounted pages (delete_ref page n s)
unfolding delete_ref
delete_ref-IsCounted pages page zero s small h c = c
delete_ref-IsCounted pages page (suc n) s small h c =
    delete_ref-IsCounted pages (page + 1) n (delete_ref_one page s) small (omega arith)
      (delete_ref_one-IsCounted pages page s small (omega arith) c)

-- Each of the `n` pages from `page` on has a count for which `P` holds.
abbrev pub Each : (ℕ → Type 0) → (ℕ → ℕ) → ℕ → ℕ → Type 0
Each P f page n = (q : ℕ) → page ≤ q → q < page + n → P (f q)

abbrev pub IsUsed : ℕ → Type 0
IsUsed r = 0 < r

-- In use, with room for one more reference.
abbrev pub IsShareable : ℕ → Type 0
IsShareable r = (0 < r) × (r + 1 < u32_mod)

Each-update :
    (P : ℕ → Type 0) (f : ℕ → ℕ) (page n v : ℕ)
    → Each P f page (suc n)
    → Each P (update f page v) (page + 1) n
Each-update P f page n v r q a b = rw other (r q (omega arith) (omega arith))
  where
    other : (page == q) ≡ false
    other = ground arith

-- `MemPhysicalFree` on pages of the table that are in use keeps the count of free pages right.
pub free-IsCounted :
    (pages page n : ℕ) (s : State)
    → pages < u32_mod
    → page + n ≤ pages
    → Each IsUsed s.ref_count page n
    → IsCounted pages s
    → IsCounted pages (free page n s)
unfolding free
free-IsCounted pages page zero s small h r c = c
free-IsCounted pages page (suc n) s small h r c =
    free-IsCounted pages (page + 1) n _ small (omega arith)
      (Each-update IsUsed s.ref_count page n 0 r)
      (write-IsCounted pages page 0 (add32 s.free_pages 1) s (omega arith) (omega arith)
        (ground (arith, used, count_free-used-lt s.ref_count page pages)) c)
  where
    used : 0 < s.ref_count page
    used = r page (omega arith) (omega arith)

-- `MemPhysicalAddRef` on pages of the table that are in use, none of them at the highest count,
-- keeps the count of free pages right.
pub add_ref-IsCounted :
    (pages page n : ℕ) (s : State)
    → page + n ≤ pages
    → Each IsShareable s.ref_count page n
    → IsCounted pages s
    → IsCounted pages (add_ref page n s)
unfolding add_ref
add_ref-IsCounted pages page zero s h r c = c
add_ref-IsCounted pages page (suc n) s h r c =
    add_ref-IsCounted pages (page + 1) n _ (omega arith)
      (Each-update IsShareable s.ref_count page n (add32 (s.ref_count page) 1) r)
      (write-IsCounted pages page (add32 (s.ref_count page) 1) s.free_pages s (omega arith)
        (omega arith) (ground (arith, shareable)) c)
  where
    shareable : IsShareable (s.ref_count page)
    shareable = r page (omega arith) (omega arith)

-- Filling a series of free pages takes them out of the count.
count_free-fill :
    (pages n page : ℕ) (f : ℕ → ℕ)
    → page + n ≤ pages
    → Each (λ r. r ≡ 0) f page n
    → count_free (fill n page 1 f) pages + n ≡ count_free f pages
unfolding fill
count_free-fill pages zero page f h r = omega arith
count_free-fill pages (suc n) page f h r = ground (
  arith,
  count_free-fill pages n (page + 1) (update f page 1) (omega arith)
      (Each-update (λ r. r ≡ 0) f page n 1 r),
  count_free-update f page 1 pages (omega arith),
  r page (omega arith) (omega arith),
)

-- When `MemPhysicalAlloc` returns a series of pages of the table that were all free, for a request of
-- fewer than 2^32 pages in a state whose head pointers lie inside their zones, the number of free
-- pages stays that of the table (of fewer than 2^32 pages).
pub alloc-IsCounted :
    (pages fuel number zone : ℕ) (s : State) {p : ℕ} {t : State}
    → pages < u32_mod
    → number < u32_mod
    → HeadsInside s
    → alloc fuel number zone s ≡ allocated p t
    → p + number ≤ pages
    → Each (λ r. r ≡ 0) s.ref_count p number
    → IsCounted pages s
    → IsCounted pages t
alloc-IsCounted pages fuel number zone s {p} {t} small few v e h r c = record {
  counted = omega (
    arith,
    a.counted,
    c.counted,
    count_free-fill pages number p s.ref_count h r,
    ap (λ f. count_free f pages) same,
    count_free-le s.ref_count pages,
  );
  words = λ q. ground (arith, a.claimed q, c.words q);
}
  where
    a : IsAllocated number zone s p t
    a = alloc-IsAllocated fuel number zone s few v e

    same : t.ref_count ≡ fill number p 1 s.ref_count
    same = fun_ext (λ q. a.claimed q ∙ sym (fill_lem number p 1 s.ref_count q))

-- `MemPhysicalFree` sets the counts of its pages to 0 and leaves the others.
free_lem :
    (page n : ℕ) (s : State) (q : ℕ)
    → (free page n s).ref_count q ≡ (if leb page q && ltb q (page + n) then 0 else s.ref_count q)
unfolding free
free_lem page zero s q = ground arith
free_lem page (suc n) s q = ground (
  arith,
  free_lem (page + 1) n
      (record s { ref_count = update s.ref_count page 0; free_pages = add32 s.free_pages 1 }) q,
)

free_pages-free :
    (page n : ℕ) (s : State)
    → s.free_pages + n < u32_mod
    → (free page n s).free_pages ≡ s.free_pages + n
unfolding free
free_pages-free page zero s h = omega arith
free_pages-free page (suc n) s h = omega (
  arith,
  free_pages-free (page + 1) n
      (record s { ref_count = update s.ref_count page 0; free_pages = add32 s.free_pages 1 })
      (omega arith),
)

-- `MemPhysicalFree` undoes `MemPhysicalAlloc`, for a series of pages that were all free, in a state
-- whose head pointers lie inside their zones and that counts at least as many free pages: every
-- reference count and the number of free pages are as before the allocation.
pub free-alloc :
    (fuel number zone : ℕ) (s : State) {p : ℕ} {t : State}
    → number < u32_mod
    → HeadsInside s
    → alloc fuel number zone s ≡ allocated p t
    → Each (λ r. r ≡ 0) s.ref_count p number
    → number ≤ s.free_pages
    → s.free_pages < u32_mod
    → ((q : ℕ) → (free p number t).ref_count q ≡ s.ref_count q)
      × ((free p number t).free_pages ≡ s.free_pages)
free-alloc fuel number zone s {p} {t} few v e r enough word = (
  λ q. ground (arith, free_lem p number t q, a.claimed q, r q),
  omega (arith, free_pages-free p number t (omega (arith, a.counted)), a.counted),
)
  where
    a : IsAllocated number zone s p t
    a = alloc-IsAllocated fuel number zone s few v e
