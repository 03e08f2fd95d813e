-- ===== src/Mm/Region.antt =====
-- kernel/src/mm/region.c: the regions of a user memory context, in the order of its list. A region is
-- its address with its fields. The calls of `MemIntUnmapUserPageAndFree` are returned as the addresses
-- that they get.
pub mod Find
pub mod Create
pub mod Resize
mod Tests
use Prim.Native.Nat.{bit_and}
use chaff.Prelude.{
  ℕ, zero, suc, ◌+◌, ◌-◌, ◌*◌, ◌/◌, ◌%◌, ◌^◌, Bool, true, false, not, ◌&&◌, ◌||◌, Option, none,
  some, List, [], ◌∷◌, ltb, leb, ◌==◌, if◌then◌else◌, add32,
}

-- `MemRegion`
pub record Region : Type 0 where
  pub node : ℕ
  pub flags : ℕ
  pub start : ℕ
  pub length : ℕ

-- `MEM_ALLFLAGS`
abbrev pub all_flags : ℕ
all_flags = 15

abbrev pub page_size : ℕ
page_size = 4096

abbrev pub kernel_base : ℕ
kernel_base = 0xC0000000

abbrev pub region_end : Region → ℕ
region_end r = add32 r.start r.length

-- `MemRegionIsCollision`
pub is_collision : Region → Region → Bool
is_collision prev next = not (ltb (region_end prev) next.start && leb prev.start (region_end prev))

-- `MemRegionFind`; the flag says whether the context is the kernel's.
pub find_region : List Region → ℕ → Option Region
find_region [] addr = none
find_region (r ∷ rs) addr =
    let rest = find_region rs addr in
    if ltb addr r.start then none else if ltb addr (region_end r) then some r else rest

pub region_find : Bool → List Region → ℕ → Option Region
unfolding find_region
region_find is_kernel rs addr = if is_kernel then none else find_region rs addr

-- Whether the arguments of `MemRegionCreate` are refused before it looks at the list.
pub bad_range : ℕ → ℕ → Bool
bad_range start length =
    not (start % page_size == 0)
    || (not (length % page_size == 0)
        || (ltb (add32 start length) start || (start == 0 || leb kernel_base (add32 start length))))

pub prev_overlap : Option Region → Region → Bool
unfolding is_collision
prev_overlap none new = false
prev_overlap (some prev) new = is_collision prev new

-- The search for the place and the tests for overlaps, from a region on; `beyond` is what is read as
-- the region after the last, since the list's head is taken for one there: the memory behind the
-- context. `none` if there is an overlap.
pub link_region : Region → Region → Option Region → List Region → Option (List Region)
unfolding prev_overlap is_collision
link_region new beyond prev [] =
    if prev_overlap prev new || is_collision new beyond then none else some (new ∷ [])
link_region new beyond prev (r ∷ rs) =
    let rest = link_region new beyond (some r) rs in
    if ltb new.start r.start
    then if prev_overlap prev new || is_collision new r then none else some (new ∷ r ∷ rs)
    else elim rest [ none ↦ none | some rs' ↦ some (r ∷ rs') ]

-- The part of `MemRegionCreate` after the tests of its arguments.
pub place_region : Region → Region → List Region → Option (List Region)
unfolding link_region
place_region new beyond [] = some (new ∷ [])
place_region new beyond (r ∷ rs) = link_region new beyond none (r ∷ rs)

-- `MemRegionCreate`, with the address of the new region; `none` for NULL.
pub region_create : Bool → Region → ℕ → ℕ → ℕ → ℕ → List Region → Option Region × List Region
unfolding bad_range place_region
region_create is_kernel beyond node start length flags rs =
    let new : Region = record {
      node = node;
      flags = bit_and flags all_flags;
      start = start;
      length = length;
    } in
    if is_kernel || bad_range start length
    then (none, rs)
    else elim (place_region new beyond rs) [ none ↦ (none, rs) | some rs' ↦ (some new, rs') ]

-- The loop over pages, for as long as the fuel lasts.
pub pages_between : ℕ → ℕ → ℕ → List ℕ
pages_between zero start end = []
pages_between (suc fuel) start end =
    let rest = pages_between fuel (add32 start page_size) end in
    if ltb start end then start ∷ rest else []

-- As many turns as there are pages of the address space are enough.
abbrev pub page_fuel : ℕ
page_fuel = 2 ^ 20

-- The test for a collision in `MemRegionResize`, with the length that the region has.
pub next_collision : Region → Option Region → Bool
unfolding is_collision
next_collision r none = false
next_collision r (some n) = is_collision r n

-- `MemRegionResize` of a region with the one after it, if there is one: its new length, and the pages
-- that are unmapped.
pub resize_one : ℕ → Region → Option Region → ℕ → ℕ × List ℕ
unfolding next_collision pages_between
resize_one fuel r next new_length =
    if not (new_length % page_size == 0)
    then (r.length, [])
    else if ltb new_length r.length
    then (new_length, pages_between fuel (add32 r.start new_length) (region_end r))
    else if ltb (add32 r.start new_length) r.start
        || (ltb kernel_base (add32 r.start new_length) || next_collision r next)
    then (r.length, [])
    else (new_length, [])

pub head_region : List Region → Option Region
head_region [] = none
head_region (r ∷ rs) = some r

-- `MemRegionResize` of the region with an address.
pub region_resize : ℕ → ℕ → ℕ → List Region → List Region × List ℕ
unfolding resize_one head_region
region_resize fuel node new_length [] = ([], [])
region_resize fuel node new_length (r ∷ rs) =
    let rest = region_resize fuel node new_length rs in
    let resized = resize_one fuel r (head_region rs) new_length in
    if r.node == node
    then (record r { length = resized.0 } ∷ rs, resized.1)
    else (r ∷ rest.0, rest.1)

-- `ListDelete` of a region.
pub unlink_region : ℕ → List Region → List Region
unlink_region node [] = []
unlink_region node (r ∷ rs) = if r.node == node then rs else r ∷ unlink_region node rs

-- `MemRegionDelete`
pub region_delete : ℕ → ℕ → List Region → List Region × List ℕ
unfolding region_resize unlink_region
region_delete fuel node rs =
    let resized = region_resize fuel node 0 rs in (unlink_region node resized.0, resized.1)

-- `MemRegionFreePages`
pub region_free_pages : ℕ → Region → ℕ → ℕ → List ℕ
unfolding pages_between
region_free_pages fuel r address length =
    if ltb address r.start || leb (region_end r) address
    then []
    else pages_between fuel (add32 address 4095 / page_size) (add32 address length / page_size)
