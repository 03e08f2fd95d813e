-- ===== src/Mm/Physical.antt =====
-- kernel/src/mm/physical.c: physical pages, their reference counts, and the three zones that they
-- are allocated from. A `MemPage *` into the page state table is the index of its entry, and the
-- table is the function from an index to the `refCount` there.
pub mod Init
pub mod Scan
pub mod Found
pub mod Total
pub mod Zones
pub mod Overrun
pub mod Count
mod Tests
use chaff.Prelude.{
  ℕ, zero, suc, ◌+◌, Bool, true, false, ◌||◌, Option, none, some, ltb, leb, ◌==◌, if◌then◌else◌,
  update, add32, sub32,
}

-- `MemPhysicalZone`. A zone with `end ≤ start` does not exist.
pub record Zone : Type 0 where
  pub head : ℕ
  pub start : ℕ
  pub end : ℕ

-- The static data of the file.
pub record State : Type 0 where
  pub ref_count : ℕ → ℕ
  pub zones : ℕ → Zone
  pub free_pages : ℕ

-- `MEM_KFIXED_MAX_PAGE`: (0xF0000000 - 0xC0000000) / 4096
abbrev pub kfixed_max_page : ℕ
kfixed_max_page = 0x30000

abbrev pub no_zone : Zone
no_zone = record { head = 0; start = 0; end = 0 }

abbrev make_zone : ℕ → ℕ → Zone
make_zone start end = record { head = start; start = start; end = end }

-- `MemPhysicalInit`: the zones for a table of `highest` pages.
pub init_zones : ℕ → ℕ → Zone
init_zones highest =
    if leb highest 0x1000
    then update (λ _. no_zone) 0 (make_zone 0 highest)
    else let dma = update (λ _. no_zone) 0 (make_zone 0 0x1000) in
      if leb highest kfixed_max_page
      then update dma 1 (make_zone 0x1000 highest)
      else update (update dma 1 (make_zone 0x1000 kfixed_max_page)) 2
          (make_zone kfixed_max_page highest)

-- One turn of the search of a zone: it returns `hit first head`, or moves on to `step head` with
-- the run found so far (`first`, `none` for NULL, and its length).
pub data Turn : Type 0 where
  hit : ℕ → ℕ → Turn
  step : ℕ → Option ℕ → ℕ → Turn

-- A free page has been counted: is the run long enough?
enough : ℕ → ℕ → ℕ → ℕ → Turn
enough number head first len =
    if len == number then hit first head else step (head + 1) (some first) len

visit : (ℕ → ℕ) → ℕ → ℕ → Option ℕ → ℕ → Turn
unfolding enough
visit ref_count number head none len =
    if ref_count head == 0 then enough number head head 1 else step (head + 1) none len
visit ref_count number head (some first) len =
    if ref_count head == 0 then enough number head first (add32 len 1) else step (head + 1) none len

-- The wrap at the zone's end comes first in each turn.
pub wrap : Zone → ℕ → ℕ
wrap z head = if leb z.end head then z.start else head

pub data Search : Type 0 where
  found : ℕ → ℕ → Search
  exhausted : Search
  unfinished : Search

-- The do-while loop over a zone; `unfinished` when the fuel runs out.
pub scan : (ℕ → ℕ) → Zone → ℕ → ℕ → ℕ → Option ℕ → ℕ → Search
unfolding visit wrap
scan ref_count z number zero head first len = unfinished
scan ref_count z number (suc fuel) head first len =
    elim (visit ref_count number (wrap z head) first len) [
      | hit p h ↦ found p h
      | step h f l ↦ elim (h == z.head) [
        | true ↦ exhausted
        | false ↦ scan ref_count z number fuel h f l
      ]
    ]

-- `for(; number > 0; ++page, --number) page->refCount = value`
pub fill : ℕ → ℕ → ℕ → (ℕ → ℕ) → ℕ → ℕ
fill zero page value ref_count = ref_count
fill (suc n) page value ref_count = fill n (page + 1) value (update ref_count page value)

pub data Alloc : Type 0 where
  allocated : ℕ → State → Alloc
  invalid_page : Alloc
  panic : Alloc
  hang : Alloc

-- The statements under "Enough?".
pub take_run : ℕ → ℕ → ℕ → ℕ → State → State
unfolding fill
take_run number zone first head s = record {
  ref_count = fill number first 1 s.ref_count;
  zones = update s.zones zone (record (s.zones zone) { head = head });
  free_pages = sub32 s.free_pages number;
}

-- One zone of the zones loop; `rest` is what the loop does with the zones below it.
pub alloc_zone : ℕ → ℕ → ℕ → Alloc → State → Alloc
alloc_zone fuel number zone rest s =
    if ltb (s.zones zone).start (s.zones zone).end
    then elim (scan s.ref_count (s.zones zone) number fuel (s.zones zone).head none 0) [
      | found first head ↦ allocated first (take_run number zone first head s)
      | exhausted ↦ rest
      | unfinished ↦ hang
    ]
    else rest

pub alloc_zones : ℕ → ℕ → ℕ → State → Alloc
unfolding alloc_zone
alloc_zones fuel number zero s = alloc_zone fuel number zero panic s
alloc_zones fuel number (suc zone) s =
    let rest = alloc_zones fuel number zone s in alloc_zone fuel number (suc zone) rest s

-- `MemPhysicalAlloc`. The zone is an `int`; a negative one is refused like one above the last, so
-- that the natural numbers stand for the rest.
pub alloc : ℕ → ℕ → ℕ → State → Alloc
unfolding alloc_zones
alloc fuel number zone s =
    if number == 0 || ltb 2 zone then invalid_page else alloc_zones fuel number zone s

-- `MemPhysicalAddRef`
pub add_ref : ℕ → ℕ → State → State
add_ref page zero s = s
add_ref page (suc n) s =
    add_ref (page + 1) n
      (record s { ref_count = update s.ref_count page (add32 (s.ref_count page) 1) })

-- One page of `MemPhysicalDeleteRef`.
pub delete_ref_one : ℕ → State → State
delete_ref_one page s =
    if ltb 0 (s.ref_count page)
    then record s {
      ref_count = update s.ref_count page (sub32 (s.ref_count page) 1);
      free_pages = if sub32 (s.ref_count page) 1 == 0 then add32 s.free_pages 1 else s.free_pages;
    }
    else s

-- `MemPhysicalDeleteRef`
pub delete_ref : ℕ → ℕ → State → State
unfolding delete_ref_one
delete_ref page zero s = s
delete_ref page (suc n) s = delete_ref (page + 1) n (delete_ref_one page s)

-- `MemPhysicalFree`
pub free : ℕ → ℕ → State → State
free page zero s = s
free page (suc n) s =
    free (page + 1) n
      (record s { ref_count = update s.ref_count page 0; free_pages = add32 s.free_pages 1 })
