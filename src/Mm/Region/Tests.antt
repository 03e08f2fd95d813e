-- ===== src/Mm/Region/Tests.antt =====
-- Runs of region.c, and the theorems at such runs.
use chaff.Prelude.{ℕ, ◌≡◌, false, ◌&&◌, none, some, List, [], ◌∷◌, if◌then◌else◌, arith}
use chaff.Mm.Region.{Region, region_find, region_create}
use chaff.Mm.Region.Find.{IsSpaced, contains, lookup, region_find-lookup}
use chaff.Mm.Region.Create.{region_of, is_allowed, apart_from_all, region_create_lem}

abbrev code : Region
code = record { node = 1; flags = 5; start = 0x8000; length = 0x3000 }

abbrev stack : Region
stack = record { node = 2; flags = 3; start = 0x10000; length = 0x2000 }

abbrev two_regions : List Region
two_regions = code ∷ stack ∷ []

two_regions-IsSpaced : IsSpaced two_regions
two_regions-IsSpaced = (omega arith, omega arith, (omega arith, tt, tt))

region_find-lookup_example : region_find false two_regions 0x10FFF ≡ lookup two_regions 0x10FFF
region_find-lookup_example = region_find-lookup two_regions 0x10FFF two_regions-IsSpaced

-- What the code reads behind the context: an address of the kernel.
abbrev behind : Region
behind = record { node = 0; flags = 0; start = 0xC0100000; length = 0 }

region_create_lem_example :
    let new = region_of 3 0x20000 0x1000 3 in
    let (made, rs) = region_create false behind 3 0x20000 0x1000 3 two_regions in
    let allowed = is_allowed 0x20000 0x1000 && apart_from_all new two_regions in
    (made ≡ (if allowed then some new else none))
    × IsSpaced rs
    × ((addr : ℕ)
        → lookup rs addr
          ≡ (if allowed && contains new addr then some new else lookup two_regions addr))
region_create_lem_example =
    region_create_lem behind 3 0x20000 0x1000 3 two_regions (omega arith) (omega arith)
      (omega arith) two_regions-IsSpaced
