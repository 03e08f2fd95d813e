-- ===== src/Mm/Physical/Tests.antt =====
-- Runs of physical.c on a small machine, and the theorems at such runs.
use chaff.Prelude.{ℕ, ◌≡◌, ◌≢◌, refl, update, arith}
use chaff.Mm.Physical.{
  Zone, State, no_zone, scan, take_run, allocated, hang, alloc, add_ref, delete_ref, free,
}
use chaff.Mm.Physical.Scan.{IsInside, IsFree}
use chaff.Mm.Physical.Found.{HeadsInside, IsAllocated, alloc-IsAllocated}
use chaff.Mm.Physical.Zones.{HeadsPastStart, Covers, NoneFree, alloc_single, alloc_ends}
use chaff.Mm.Physical.Overrun.{alloc_overruns}
use chaff.Mm.Physical.Count.{
  IsCounted, count_free, Each, alloc-IsCounted, free-IsCounted, add_ref-IsCounted, free-alloc,
}

-- Two zones: pages 0 to 3, and pages 4 to 7; 0, 4 and 5 are in use.
abbrev small_zones : ℕ → Zone
small_zones =
    update (update (λ _. no_zone) 0 (record { head = 1; start = 0; end = 4 })) 1
      (record { head = 5; start = 4; end = 8 })

abbrev used : ℕ → ℕ
used = update (update (update (λ _. 0) 0 1) 4 2) 5 1

abbrev small : State
small = record { ref_count = used; zones = small_zones; free_pages = 5 }

small-HeadsPastStart : HeadsPastStart small
small-HeadsPastStart i h = ground arith

small-HeadsInside : HeadsInside small
small-HeadsInside i h = ground arith

small-Covers : Covers 4 small
small-Covers i = ground arith

small-IsCounted : IsCounted 8 small
unfolding count_free
small-IsCounted = record { counted = refl; words = λ p. ground arith }

abbrev after_alloc : State
after_alloc = take_run 2 1 6 7 small

alloc-small : alloc 4 2 1 small ≡ allocated 6 after_alloc
unfolding alloc scan
alloc-small = refl

pages_free : Each (λ r. r ≡ 0) used 6 2
pages_free q a b = ground arith

alloc-IsAllocated_example : IsAllocated 2 1 small 6 after_alloc
alloc-IsAllocated_example =
    alloc-IsAllocated 4 2 1 small (omega arith) small-HeadsInside alloc-small

alloc_single_example :
    (q : ℕ) × (t : State) × (alloc 4 1 1 small ≡ allocated q t)
    × IsInside (small.zones 1) q
    × IsFree small.ref_count q
alloc_single_example =
    alloc_single 4 1 6 small (omega arith) small-HeadsInside (omega arith) refl (omega arith)

alloc_ends_example : alloc 4 5 1 small ≢ hang
alloc_ends_example = alloc_ends 4 5 1 small small-HeadsPastStart small-Covers

-- The upper zone is full.
abbrev full : State
full = record small { ref_count = update (update used 6 1) 7 1; free_pages = 3 }

full-NoneFree : NoneFree full.ref_count (full.zones 1)
full-NoneFree p i = ground arith

-- The upper zone is full, and its head pointer is back at its first page.
abbrev rewound : State
rewound = record full { zones = update small_zones 1 (record { head = 4; start = 4; end = 8 }) }

-- The head pointer of the lower zone is at its last page, 3, and page 4 has two references.
abbrev last_page : State
last_page = record small {
  ref_count = update used 0 0;
  zones = update small_zones 0 (record { head = 3; start = 0; end = 4 });
}

alloc_overruns_example :
    (t : State) × (alloc 4 2 0 last_page ≡ allocated 3 t)
    × (t.ref_count 4 ≡ 1)
    × (t.ref_count 0 ≡ 0)
alloc_overruns_example =
    alloc_overruns 4 0 last_page (omega arith) (omega arith) (omega arith) (omega arith) refl refl

alloc-IsCounted_example : IsCounted 8 after_alloc
alloc-IsCounted_example =
    alloc-IsCounted 8 4 2 1 small (omega arith) (omega arith) small-HeadsInside alloc-small
      (omega arith) pages_free small-IsCounted

delete_ref_run : ((delete_ref 4 2 small).ref_count 4 ≡ 1) × ((delete_ref 4 2 small).free_pages ≡ 6)
unfolding delete_ref
delete_ref_run = (refl, refl)

free-small : IsCounted 8 (free 4 2 small)
free-small =
    free-IsCounted 8 4 2 small (omega arith) (omega arith) (λ q a b. ground arith) small-IsCounted

add_ref-small : IsCounted 8 (add_ref 4 2 small)
add_ref-small = add_ref-IsCounted 8 4 2 small (omega arith) (λ q a b. ground arith) small-IsCounted

free-alloc_example :
    ((q : ℕ) → (free 6 2 after_alloc).ref_count q ≡ used q)
    × ((free 6 2 after_alloc).free_pages ≡ 5)
free-alloc_example =
    free-alloc 4 2 1 small (omega arith) small-HeadsInside alloc-small pages_free (omega arith)
      (omega arith)
