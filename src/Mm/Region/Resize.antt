-- ===== src/Mm/Region/Resize.antt =====
-- `MemRegionResize`, and the loops that unmap pages.
use chaff.Prelude.{
  ℕ, zero, suc, ◌+◌, ◌*◌, ◌/◌, ◌%◌, ◌≤◌, ◌<◌, ◌≡◌, refl, ap, ◌∙◌, true, false, Option, List, [],
  ◌∷◌, ltb, leb, ◌==◌, arith, add32, u32_mod,
}
use chaff.Mm.Region.{
  Region, kernel_base, page_size, page_fuel, is_collision, pages_between, resize_one,
  next_collision, region_resize, head_region, region_free_pages,
}
use chaff.Mm.Region.Find.{region_end-user, IsUser, contains}

-- Pages in a row.
abbrev pub page_list : ℕ → ℕ → List ℕ
page_list a zero = []
page_list a (suc n) = a ∷ page_list (a + page_size) n

pages_between-page_list :
    (fuel a n : ℕ)
    → n ≤ fuel
    → a + page_size * n < u32_mod
    → pages_between fuel a (a + page_size * n) ≡ page_list a n
unfolding pages_between
pages_between-page_list zero a zero h l = refl
pages_between-page_list zero a (suc n) h l = absurd (omega arith)
pages_between-page_list (suc fuel) a zero h l = ground arith
pages_between-page_list (suc fuel) a (suc n) h l =
    rw (go_on, next)
      (ap (λ ps. a ∷ ps)
        (ap (pages_between fuel (a + page_size)) same
          ∙ pages_between-page_list fuel (a + page_size) n (omega arith) (omega arith)))
  where
    go_on : ltb a (a + page_size * suc n) ≡ true
    go_on = ground arith

    next : add32 a page_size ≡ a + page_size
    next = omega arith

    same : a + page_size * suc n ≡ a + page_size + page_size * n
    same = omega arith

-- `MemRegionResize` to fewer whole pages, of a region in the user's memory: the region gets the new
-- length, and exactly the pages that it loses are unmapped, in their order.
pub resize_one_shrink :
    (fuel : ℕ) (r : Region) (next : Option Region) (new_length n : ℕ)
    → page_fuel ≤ fuel
    → IsUser r
    → new_length % page_size ≡ 0
    → 0 < n
    → r.length ≡ new_length + page_size * n
    → resize_one fuel r next new_length ≡ (new_length, page_list (r.start + new_length) n)
unfolding resize_one
resize_one_shrink fuel r next new_length n f u a p e =
    rw (aligned, less, region_end-user r u, bottom, top)
      (ap (λ ps. (new_length, ps))
        (pages_between-page_list fuel (r.start + new_length) n (omega (arith, f, u, e))
          (omega (arith, u, e))))
  where
    aligned : (new_length % page_size == 0) ≡ true
    aligned = ground (arith, a)

    less : ltb new_length r.length ≡ true
    less = ground (arith, e, p)

    bottom : add32 r.start new_length ≡ r.start + new_length
    bottom = omega (arith, u, e)

    top : r.start + r.length ≡ r.start + new_length + page_size * n
    top = omega (arith, e)

-- `MemRegionResize` to more whole pages, up to the kernel's memory, of a region that ends before the
-- next one begins: the new length is accepted, though with it the region may reach past the beginning
-- of the next one, which then lies in both.
pub region_resize_overlaps :
    (fuel : ℕ) (r next : Region) (rs : List Region) (new_length : ℕ)
    → IsUser r
    → r.start + r.length < next.start
    → new_length % page_size ≡ 0
    → next.start < r.start + new_length
    → r.start + new_length ≤ kernel_base
    → (region_resize fuel r.node new_length (r ∷ next ∷ rs)
        ≡ (record r { length = new_length } ∷ next ∷ rs, []))
      × (contains (record r { length = new_length }) next.start ≡ true)
unfolding region_resize resize_one head_region next_collision is_collision
region_resize_overlaps fuel r next rs new_length u gap a over low = (
  rw (same, aligned, longer, region_end-user r u, reach, no_wrap, user, apart, no_wrap') refl,
  ground (arith, gap, over),
)
  where
    same : (r.node == r.node) ≡ true
    same = ground arith

    aligned : (new_length % page_size == 0) ≡ true
    aligned = ground (arith, a)

    longer : ltb new_length r.length ≡ false
    longer = ground (arith, gap, over)

    reach : add32 r.start new_length ≡ r.start + new_length
    reach = omega (arith, low)

    no_wrap : ltb (r.start + new_length) r.start ≡ false
    no_wrap = ground arith

    user : ltb kernel_base (r.start + new_length) ≡ false
    user = ground (arith, low)

    apart : ltb (r.start + r.length) next.start ≡ true
    apart = ground (arith, gap)

    no_wrap' : leb r.start (r.start + r.length) ≡ true
    no_wrap' = ground arith

-- `MemRegionFreePages` of at most 4096 whole pages of a region in the user's memory: one page is
-- unmapped, at the address that is the number of the first page.
pub region_free_pages_one :
    (fuel : ℕ) (r : Region) (p n : ℕ)
    → page_fuel ≤ fuel
    → IsUser r
    → r.start ≤ page_size * p
    → page_size * p + page_size * n ≤ r.start + r.length
    → 0 < n
    → n ≤ 4096
    → region_free_pages fuel r (page_size * p) (page_size * n) ≡ p ∷ []
unfolding region_free_pages pages_between
region_free_pages_one fuel r p n f u low high some_page few =
    rw (region_end-user r u, above, below, first, last) (one_turn fuel f)
  where
    above : ltb (page_size * p) r.start ≡ false
    above = ground (arith, low)

    below : leb (r.start + r.length) (page_size * p) ≡ false
    below = ground (arith, high, some_page)

    first : add32 (page_size * p) 4095 / page_size ≡ p
    first = omega (arith, u, high, some_page)

    last : add32 (page_size * p) (page_size * n) / page_size ≡ p + n
    last = omega (arith, u, high)

    one_turn : (turns : ℕ) → page_fuel ≤ turns → pages_between turns p (p + n) ≡ p ∷ []
    one_turn zero h = absurd (omega (arith, h))
    one_turn (suc zero) h = absurd (omega (arith, h))
    one_turn (suc (suc turns)) h = rw (pages_between, on, step, off) refl
      where
        on : ltb p (p + n) ≡ true
        on = ground (arith, some_page)

        step : add32 p page_size ≡ p + page_size
        step = omega (arith, u, high, some_page)

        off : ltb (p + page_size) (p + n) ≡ false
        off = ground (arith, few)
