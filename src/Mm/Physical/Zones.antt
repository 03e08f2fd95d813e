-- ===== src/Mm/Physical/Zones.antt =====
-- `MemPhysicalAlloc`: which zone serves a request, and when the call ends.
use chaff.Prelude.{
  ℕ, zero, suc, ◌-◌, ◌≤◌, ◌<◌, ◌≡◌, refl, ◌≢◌, ◌||◌, inl, inr, true, false, none, ltb, ◌==◌, arith,
  Bool-cases, u32_mod, subst,
}
use chaff.Mm.Physical.{
  Zone, State, scan, Search, found, exhausted, unfinished, take_run, Alloc, allocated, panic, hang,
  alloc_zone, alloc_zones, alloc,
}
use chaff.Mm.Physical.Scan.{IsFree, IsInside, SearchOk, scan-SearchOk}
use chaff.Mm.Physical.Found.{HeadsInside}
use chaff.Mm.Physical.Total.{single, scan_ends}

-- Each zone that exists has its head pointer behind its first page.
abbrev pub HeadsPastStart : State → Type 0
HeadsPastStart s =
    (i : ℕ)
    → (s.zones i).start < (s.zones i).end
    → ((s.zones i).start < (s.zones i).head) × ((s.zones i).head < (s.zones i).end)

-- The fuel lets the search go once round any zone.
abbrev pub Covers : ℕ → State → Type 0
Covers fuel s = (i : ℕ) → (s.zones i).end - (s.zones i).start ≤ fuel

abbrev pub NoneFree : (ℕ → ℕ) → Zone → Type 0
NoneFree ref_count z = (p : ℕ) → IsInside z p → ¬ IsFree ref_count p

alloc_zone_found :
    (fuel number zone first head : ℕ) (rest : Alloc) (s : State)
    → (s.zones zone).start < (s.zones zone).end
    → scan s.ref_count (s.zones zone) number fuel (s.zones zone).head none 0 ≡ found first head
    → alloc_zone fuel number zone rest s ≡ allocated first (take_run number zone first head s)
unfolding alloc_zone
alloc_zone_found fuel number zone first head rest s e f = rw (lt→ltb _ _ e, f, alloc_zone)
  where
    lt→ltb : (a b : ℕ) → a < b → ltb a b ≡ true
    lt→ltb a b h = ground arith

alloc_zones_found :
    (fuel number zone first head : ℕ) (s : State)
    → (s.zones zone).start < (s.zones zone).end
    → scan s.ref_count (s.zones zone) number fuel (s.zones zone).head none 0 ≡ found first head
    → alloc_zones fuel number zone s ≡ allocated first (take_run number zone first head s)
unfolding alloc_zones
alloc_zones_found fuel number zero first head s e f =
    alloc_zone_found fuel number zero first head panic s e f
alloc_zones_found fuel number (suc zone) first head s e f =
    alloc_zone_found fuel number (suc zone) first head _ s e f

pub alloc_found :
    (fuel number zone first head : ℕ) (s : State)
    → 0 < number
    → zone ≤ 2
    → (s.zones zone).start < (s.zones zone).end
    → scan s.ref_count (s.zones zone) number fuel (s.zones zone).head none 0 ≡ found first head
    → alloc fuel number zone s ≡ allocated first (take_run number zone first head s)
unfolding alloc
alloc_found fuel number zone first head s pos le e f =
    rw valid (alloc_zones_found fuel number zone first head s e f)
  where
    valid : (number == 0 || ltb 2 zone) ≡ false
    valid = ground arith

-- A request for one page from a valid zone that has a free one gets a free page of that zone, in a
-- state whose head pointers lie inside their zones, within as many turns as the zone has pages.
pub alloc_single :
    (fuel zone p : ℕ) (s : State)
    → zone ≤ 2
    → HeadsInside s
    → IsInside (s.zones zone) p
    → IsFree s.ref_count p
    → (s.zones zone).end - (s.zones zone).start ≤ fuel
    → (q : ℕ) × (t : State) × (alloc fuel 1 zone s ≡ allocated q t)
      × IsInside (s.zones zone) q
      × IsFree s.ref_count q
alloc_single fuel zone p s le v i free f = (
  q,
  _,
  alloc_found fuel 1 zone q q s (omega arith) le (omega arith) e,
  ok.1,
  ok.0 0 (omega arith),
)
  where
    exists : (s.zones zone).start < (s.zones zone).end
    exists = omega arith

    hit : (q : ℕ) × (scan s.ref_count (s.zones zone) 1 fuel (s.zones zone).head none 0 ≡ found q q)
    hit = single s.ref_count (s.zones zone) fuel p (v zone exists) i free f

    q : ℕ
    q = hit.0

    e : scan s.ref_count (s.zones zone) 1 fuel (s.zones zone).head none 0 ≡ found q q
    e = hit.1

    ok : SearchOk s.ref_count (s.zones zone) 1 (found q q)
    ok = subst (SearchOk s.ref_count (s.zones zone) 1) e (
        scan-SearchOk s.ref_count (s.zones zone) 1 fuel (s.zones zone).head (omega arith)
          (omega arith) exists (v zone exists).0)

alloc_zone_ends :
    (fuel number zone : ℕ) (rest : Alloc) (s : State)
    → HeadsPastStart s
    → Covers fuel s
    → rest ≢ hang
    → alloc_zone fuel number zone rest s ≢ hang
unfolding alloc_zone
alloc_zone_ends fuel number zone rest s v c r =
    elim (Bool-cases (ltb (s.zones zone).start (s.zones zone).end)) [
      | inl e ↦ rw e (
          searched (scan s.ref_count (s.zones zone) number fuel (s.zones zone).head none 0) (
            scan_ends s.ref_count (s.zones zone) number fuel (v zone (ground arith)).0
              (v zone (ground arith)).1 (c zone)))
      | inr e ↦ rw e r
    ]
  where
    searched :
        (found_or_not : Search)
        → found_or_not ≢ unfinished
        → (elim found_or_not [
          | found first head ↦ allocated first (take_run number zone first head s)
          | exhausted ↦ rest
          | unfinished ↦ hang
        ])
          ≢ hang
    searched (found first head) ne = λ q. cc
    searched exhausted ne = r
    searched unfinished ne = absurd (ne refl)

alloc_zones_ends :
    (fuel number zone : ℕ) (s : State)
    → HeadsPastStart s
    → Covers fuel s
    → alloc_zones fuel number zone s ≢ hang
unfolding alloc_zones
alloc_zones_ends fuel number zero s v c = alloc_zone_ends fuel number zero panic s v c (λ q. cc)
alloc_zones_ends fuel number (suc zone) s v c =
    alloc_zone_ends fuel number (suc zone) _ s v c (alloc_zones_ends fuel number zone s v c)

-- Where every head pointer lies behind the first page of its zone, any call ends: as many turns in
-- each zone as it has pages are enough.
pub alloc_ends :
    (fuel number zone : ℕ) (s : State)
    → HeadsPastStart s
    → Covers fuel s
    → alloc fuel number zone s ≢ hang
unfolding alloc
alloc_ends fuel number zone s v c = elim (Bool-cases (number == 0 || ltb 2 zone)) [
  | inl b ↦ rw b (λ q. cc)
  | inr b ↦ rw b (alloc_zones_ends fuel number zone s v c)
]

scan_exhausted :
    (ref_count : ℕ → ℕ) (z : Zone) (number fuel : ℕ)
    → 0 < number
    → number < u32_mod
    → z.start < z.head
    → z.head < z.end
    → z.end - z.start ≤ fuel
    → NoneFree ref_count z
    → scan ref_count z number fuel z.head none 0 ≡ exhausted
scan_exhausted ref_count z number fuel pos small a b f none_free =
    only (scan ref_count z number fuel z.head none 0) (scan_ends ref_count z number fuel a b f)
      (scan-SearchOk ref_count z number fuel z.head pos small (omega arith) (omega arith))
  where
    only : (r : Search) → r ≢ unfinished → SearchOk ref_count z number r → r ≡ exhausted
    only (found p h) ne ok = absurd (none_free p ok.1 (ok.0 0 pos))
    only exhausted ne ok = refl
    only unfinished ne ok = absurd (ne refl)

-- A valid request to a zone with no free page is served by the zones below it, as a request to the
-- next one would be, if the head pointer lies behind the zone's first page.
pub alloc_falls_back :
    (fuel number zone : ℕ) (s : State)
    → 0 < number
    → number < u32_mod
    → zone < 2
    → HeadsPastStart s
    → Covers fuel s
    → NoneFree s.ref_count (s.zones (suc zone))
    → alloc fuel number (suc zone) s ≡ alloc fuel number zone s
unfolding alloc alloc_zones
alloc_falls_back fuel number zone s pos small le v c none_free =
    rw (valid (suc zone) (omega arith), valid zone (omega arith))
      (elim (Bool-cases (ltb (s.zones (suc zone)).start (s.zones (suc zone)).end)) [
        | inl e ↦
            rw (e, alloc_zone)
              (rw
                (
                  scan_exhausted s.ref_count (s.zones (suc zone)) number fuel pos small
                      (v (suc zone) (ground arith)).0 (v (suc zone) (ground arith)).1 (c (suc zone))
                      none_free,
                  alloc_zone,
                )
                refl)
        | inr e ↦ rw (e, alloc_zone)
      ])
  where
    valid : (k : ℕ) → k ≤ 2 → (number == 0 || ltb 2 k) ≡ false
    valid k h = ground arith
