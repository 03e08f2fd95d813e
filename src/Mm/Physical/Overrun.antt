-- ===== src/Mm/Physical/Overrun.antt =====
-- `MemPhysicalAlloc`: two ways in which the search of a zone goes wrong. The loop ends only when it
-- comes back to the head pointer, which a turn never does at the zone's first page; and a run that
-- is being counted goes on counting across the wrap.
use chaff.Prelude.{
  ℕ, zero, suc, ◌+◌, ◌≤◌, ◌<◌, ◌≡◌, refl, inl, inr, ◌||◌, true, false, none, ltb, ◌==◌, arith,
  Bool-cases,
}
use chaff.Mm.Physical.{
  Zone, State, wrap, visit, enough, scan, found, unfinished, take_run, allocated, hang, alloc_zone,
  alloc_zones, alloc,
}
use chaff.Mm.Physical.Scan.{IsFree, IsInside}
use chaff.Mm.Physical.Found.{fill_lem}
use chaff.Mm.Physical.Total.{scan_used, scan_wrapped}
use chaff.Mm.Physical.Zones.{NoneFree, alloc_found}

module _ (ref_count : ℕ → ℕ) (z : Zone) (none_free : NoneFree ref_count z) where
  used : (h : ℕ) → IsInside z h → (ref_count h == 0) ≡ false
  used h i = ground (arith, none_free h i)

  scan_stuck :
      (number fuel head len : ℕ)
      → z.head ≡ z.start
      → z.start < z.end
      → z.start ≤ head
      → head ≤ z.end
      → scan ref_count z number fuel head none len ≡ unfinished
  scan_stuck number zero head len e ne a b = unfold scan in refl
  scan_stuck number (suc fuel) head len e ne a b = elim (Bool-cases (head == z.end)) [
    | inl at_end ↦
        let q : head ≡ z.end = ground arith in
        rw (q, scan_wrapped ref_count z number (suc fuel) len ne, turn z.start (omega arith) ne)
          (scan_stuck number fuel (z.start + 1) len e ne (omega arith) (omega arith))
    | inr inside ↦
        rw (turn head a (ground arith))
          (scan_stuck number fuel (head + 1) len e ne (omega arith) (ground arith))
  ]
    where
      turn :
          (h : ℕ)
          → z.start ≤ h
          → h < z.end
          → scan ref_count z number (suc fuel) h none len
            ≡ scan ref_count z number fuel (h + 1) none len
      turn h c d = scan_used ref_count z number fuel h len d (used h (c, d)) (ground arith)

alloc_zones_stuck :
    (fuel number zone : ℕ) (s : State)
    → (s.zones zone).start < (s.zones zone).end
    → scan s.ref_count (s.zones zone) number fuel (s.zones zone).head none 0 ≡ unfinished
    → alloc_zones fuel number zone s ≡ hang
unfolding alloc_zones
alloc_zones_stuck fuel number zero s e f = rw (exists, f, alloc_zone)
  where
    exists : ltb (s.zones zero).start (s.zones zero).end ≡ true
    exists = ground arith
alloc_zones_stuck fuel number (suc zone) s e f = rw (exists, f, alloc_zone)
  where
    exists : ltb (s.zones (suc zone)).start (s.zones (suc zone)).end ≡ true
    exists = ground arith

-- A valid request to an existing zone with no free page, whose head pointer is at the zone's first
-- page, never ends: whatever the fuel, it does not turn to the zones below.
pub alloc_hangs :
    (fuel number zone : ℕ) (s : State)
    → 0 < number
    → zone ≤ 2
    → (s.zones zone).start < (s.zones zone).end
    → (s.zones zone).head ≡ (s.zones zone).start
    → NoneFree s.ref_count (s.zones zone)
    → alloc fuel number zone s ≡ hang
unfolding alloc
alloc_hangs fuel number zone s pos le e at none_free = rw valid (
    alloc_zones_stuck fuel number zone s e (
      scan_stuck s.ref_count (s.zones zone) none_free number fuel (s.zones zone).head 0 at e
        (omega arith) (omega arith)))
  where
    valid : (number == 0 || ltb 2 zone) ≡ false
    valid = ground arith

scan_overruns :
    (ref_count : ℕ → ℕ) (z : Zone) (fuel : ℕ)
    → z.start < z.head
    → z.head + 1 ≡ z.end
    → (ref_count z.head == 0) ≡ true
    → (ref_count z.start == 0) ≡ true
    → scan ref_count z 2 (suc (suc fuel)) z.head none 0 ≡ found z.head z.start
unfolding scan visit enough
scan_overruns ref_count z fuel a b f g =
    rw (here, f, scan) (rw (not_back, scan) (rw (round, g, scan)))
  where
    here : wrap z z.head ≡ z.head
    here = unfold wrap in ground arith

    round : wrap z (z.head + 1) ≡ z.start
    round = unfold wrap in ground arith

    not_back : (z.head + 1 == z.head) ≡ false
    not_back = ground arith

-- A valid request for two pages, where the head pointer is at the last page of its zone and that
-- page and the zone's first one are free: the series returned begins at the last page, so the page
-- just outside the zone is given the reference count 1, whatever it had, and the zone's first page
-- stays free. Two turns are enough.
pub alloc_overruns :
    (fuel zone : ℕ) (s : State)
    → zone ≤ 2
    → 2 ≤ fuel
    → (s.zones zone).start < (s.zones zone).head
    → (s.zones zone).head + 1 ≡ (s.zones zone).end
    → IsFree s.ref_count (s.zones zone).head
    → IsFree s.ref_count (s.zones zone).start
    → (t : State) × (alloc fuel 2 zone s ≡ allocated (s.zones zone).head t)
      × (t.ref_count (s.zones zone).end ≡ 1)
      × (t.ref_count (s.zones zone).start ≡ 0)
unfolding take_run
alloc_overruns zero zone s le h a b f g = absurd (omega arith)
alloc_overruns (suc zero) zone s le h a b f g = absurd (omega arith)
alloc_overruns (suc (suc fuel)) zone s le h a b f g = (
  take_run 2 zone (s.zones zone).head (s.zones zone).start s,
  alloc_found (suc (suc fuel)) 2 zone (s.zones zone).head (s.zones zone).start s (omega arith) le
      (omega arith)
      (scan_overruns s.ref_count (s.zones zone) fuel a b (ground arith) (ground arith)),
  ground (arith, fill_lem 2 (s.zones zone).head 1 s.ref_count (s.zones zone).end),
  ground (arith, fill_lem 2 (s.zones zone).head 1 s.ref_count (s.zones zone).start),
)
