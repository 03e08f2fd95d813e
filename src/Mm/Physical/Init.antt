-- ===== src/Mm/Physical/Init.antt =====
-- `MemPhysicalInit`: the zones that it sets up.
use chaff.Prelude.{ℕ, ◌≤◌, ◌<◌, ◌≡◌, leb, if◌then◌else◌, arith}
use chaff.Mm.Physical.{init_zones, kfixed_max_page}
use chaff.Mm.Physical.Scan.{IsInside}
use chaff.Mm.Physical.Found.{HeadsInside}

-- After `MemPhysicalInit` the head pointer of each zone that exists lies inside it.
pub init_zones-HeadsInside :
    (highest free_pages : ℕ) (ref_count : ℕ → ℕ)
    → HeadsInside
        (record { ref_count = ref_count; zones = init_zones highest; free_pages = free_pages })
unfolding init_zones
init_zones-HeadsInside highest free_pages ref_count i h = ground arith

zone_of : ℕ → ℕ
zone_of p = if leb 0x1000 p then (if leb kfixed_max_page p then 2 else 1) else 0

-- The zones that `MemPhysicalInit` sets up divide the table: each of its pages lies in exactly one
-- of the three.
pub init_zones_divide :
    (highest p : ℕ)
    → p < highest
    → (i : ℕ) × (i ≤ 2)
      × IsInside (init_zones highest i) p
      × ((j : ℕ) → IsInside (init_zones highest j) p → j ≡ i)
unfolding init_zones zone_of
init_zones_divide highest p h = (zone_of p, ground arith, ground arith, λ j i. ground arith)
