-- ===== src/Mm/Slab.antt =====
-- kernel/src/mm/slab.c: caches of objects of one size. A slab is its header's address with its fields;
-- its free chain is the list of the objects on it, from `freePtr` on. Where a slab is created, the
-- addresses of its header and its memory are arguments.
pub mod Sizes
pub mod Kalloc
pub mod Lists
pub mod Alloc
pub mod Free
mod Tests
use Prim.Native.Nat.{bit_and, bit_or}
use chaff.Prelude.{
  ℕ, zero, suc, ◌+◌, ◌-◌, ◌*◌, ◌/◌, ◌%◌, ◌^◌, Bool, true, false, not, ◌&&◌, ◌||◌, Option, none,
  some, List, [], ◌∷◌, ◌++◌, ltb, leb, ◌==◌, if◌then◌else◌,
}

-- `PAGE_SIZE`, and the sizes of a cache's and a slab's header on this target.
abbrev pub page_size : ℕ
page_size = 4096

abbrev pub header_size : ℕ
header_size = 24

abbrev pub slab_large : ℕ
slab_large = 2

-- `MemSlab`
pub record Slab : Type 0 where
  pub node : ℕ
  pub active : ℕ
  pub memory : ℕ
  pub free : List ℕ

-- `MemCache`
pub record Cache : Type 0 where
  pub full : List Slab
  pub partial : List Slab
  pub empty : List Slab
  pub object_size : ℕ
  pub flags : ℕ
  pub pages_per_slab : ℕ
  pub objects_per_slab : ℕ

-- The loop of `MemSlabCreate` over the numbers of pages from `pages` on, for `turns` of them.
pub best_pages : ℕ → ℕ → ℕ → ℕ → ℕ → ℕ → ℕ
best_pages extra size zero pages best wastage = best
best_pages extra size (suc turns) pages best wastage =
    let objects = (pages * page_size - extra) / size in
    let wasted = (pages * page_size - extra) % size in
    let skipped = best_pages extra size turns (pages + 1) best wastage in
    let better = best_pages extra size turns (pages + 1) pages wasted in
    if ltb objects 8
    then skipped
    else if leb wasted (pages * 128)
    then pages
    else if ltb wasted wastage
    then better
    else skipped

-- `(size + 3) & ~3` on an unsigned int
abbrev pub aligned : ℕ → ℕ
aligned size = (size + 3) % 2 ^ 32 / 4 * 4

abbrev pub slab_extra : ℕ → ℕ
slab_extra size = if leb (page_size / 8) size then 0 else header_size

abbrev pub pages_for : ℕ → ℕ
pages_for size = best_pages (slab_extra size) size 7 1 8 0xFFFFFFFF

-- The cache that `MemSlabCreate` sets up, for an aligned size.
abbrev pub new_cache : ℕ → ℕ → Cache
new_cache size flags = record {
  full = [];
  partial = [];
  empty = [];
  object_size = size;
  flags =
      if leb (page_size / 8) size
      then bit_or flags slab_large
      else bit_and flags (0xFFFFFFFF - slab_large);
  pages_per_slab = pages_for size;
  objects_per_slab = (pages_for size * page_size - slab_extra size) / size;
}

-- `MemSlabCreate`, where the root cache has an object for the cache; `none` for NULL.
pub slab_create : ℕ → ℕ → Option Cache
unfolding best_pages
slab_create bytes flags =
    if leb (8 * page_size) (aligned bytes) then none else some (new_cache (aligned bytes) flags)

-- `CreateSlab`'s free chain: the objects one after the other.
pub free_chain : ℕ → ℕ → ℕ → List ℕ
free_chain size zero base = []
free_chain size (suc n) base = base ∷ free_chain size n (base + size)

-- `CreateSlab`, without the addition to the list of empty slabs.
pub create_slab : Cache → ℕ → ℕ → Slab
unfolding free_chain
create_slab c node memory = record {
  node = node;
  active = 0;
  memory = memory;
  free = free_chain c.object_size c.objects_per_slab memory;
}

-- The part of `MemSlabAlloc` under "Moving lists?", for the slab at the head of the list that it was
-- found on; `partial` and `empty` are those lists without it.
pub settle : Bool → Slab → List Slab → List Slab → Cache → Cache
settle was_partial s partial empty c = elim s.free [
  | [] ↦ record c { full = c.full ++ s ∷ []; partial = partial; empty = empty }
  | o ∷ os ↦
      if s.active == 1
      then record c { partial = partial ++ s ∷ []; empty = empty }
      else if was_partial
      then record c { partial = s ∷ partial; empty = empty }
      else record c { partial = partial; empty = s ∷ empty }
]

-- `MemSlabAlloc` from a slab; `none` if its chain has come to an end.
pub alloc_from : Bool → Slab → List Slab → List Slab → Cache → Option (ℕ × Cache)
unfolding settle
alloc_from was_partial s partial empty c = elim s.free [
  | [] ↦ none
  | o ∷ os ↦
      some (o, settle was_partial (record s { active = s.active + 1; free = os }) partial empty c)
]

-- `MemSlabAlloc`; the addresses are those of a slab that it creates.
pub slab_alloc : ℕ → ℕ → Cache → Option (ℕ × Cache)
unfolding alloc_from create_slab
slab_alloc node memory c = elim c.partial [
  | s ∷ partial ↦ alloc_from true s partial c.empty c
  | [] ↦ elim c.empty [
    | s ∷ empty ↦ alloc_from false s [] empty c
    | [] ↦ alloc_from false (create_slab c node memory) [] [] c
  ]
]

-- `ListDelete` of a slab.
pub unlink_slab : ℕ → List Slab → List Slab
unlink_slab node [] = []
unlink_slab node (s ∷ ss) = if s.node == node then ss else s ∷ unlink_slab node ss

-- A slab in its place in a list, with new fields.
pub replace_slab : Slab → List Slab → List Slab
replace_slab s [] = []
replace_slab s (x ∷ xs) = if x.node == s.node then s ∷ xs else x ∷ replace_slab s xs

-- `MemSlabFree` of an object of the slab `s`, after the tests of the pointer.
pub slab_free : Slab → ℕ → Cache → Cache
unfolding unlink_slab replace_slab
slab_free s object c =
    let s' : Slab = record s { active = s.active - 1; free = object ∷ s.free } in
    if s.active == c.objects_per_slab
    then record c {
      full = unlink_slab s.node c.full;
      partial = unlink_slab s.node c.partial ++ s' ∷ [];
      empty = unlink_slab s.node c.empty;
    }
    else if s.active == 1
    then record c {
      full = unlink_slab s.node c.full;
      partial = unlink_slab s.node c.partial;
      empty = unlink_slab s.node c.empty ++ s' ∷ [];
    }
    else record c {
      full = replace_slab s' c.full;
      partial = replace_slab s' c.partial;
      empty = replace_slab s' c.empty;
    }

abbrev pub is_empty : List Slab → Bool
is_empty [] = true
is_empty (s ∷ ss) = false

-- `MemSlabShrink`: the slabs whose pages are freed, and how many pages those are. The list of empty slabs
-- stays.
pub slab_shrink : Cache → List Slab → ℕ
slab_shrink c [] = 0
slab_shrink c (s ∷ ss) = c.pages_per_slab + slab_shrink c ss

-- `MemSlabDestroy`: whether it is done.
pub slab_destroy : Cache → Bool
slab_destroy c = is_empty c.full && is_empty c.partial

-- `BitScanReverse`, the number of leading zeros, by the place of the highest bit.
pub highest_bit : ℕ → ℕ → ℕ
highest_bit zero n = 0
highest_bit (suc fuel) n = let rest = highest_bit fuel (n / 2) in if n / 2 == 0 then 0 else suc rest

abbrev pub bit_scan_reverse : ℕ → ℕ
bit_scan_reverse n = 31 - highest_bit 32 n

-- The index of the cache in `MemKAlloc`; `none` if the size is refused.
pub kalloc_index : ℕ → Option ℕ
unfolding highest_bit
kalloc_index bytes =
    let index = 28 - bit_scan_reverse bytes in
    if bytes == 0 || ltb (8 * 2 ^ 10) bytes
    then none
    else if not (ltb 8 bytes)
    then some 0
    else if 2 ^ (index + 3) == bytes
    then some index
    else some (index + 1)
