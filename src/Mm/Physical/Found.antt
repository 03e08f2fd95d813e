-- ===== src/Mm/Physical/Found.antt =====
-- `MemPhysicalAlloc`: what an allocation that succeeds has done.
use chaff.Prelude.{
  ℕ, zero, suc, ◌+◌, ◌≤◌, ◌<◌, ◌≡◌, refl, subst, ◌⊎◌, inl, inr, ◌&&◌, ◌||◌, true, false, none, ltb,
  leb, ◌==◌, if◌then◌else◌, arith, Bool-cases, update, sub32, u32_mod,
}
use chaff.Mm.Physical.{
  Zone, State, wrap, scan, Search, found, exhausted, unfinished, fill, take_run, Alloc, allocated,
  invalid_page, panic, hang, alloc_zone, alloc_zones, alloc,
}
use chaff.Mm.Physical.Scan.{IsFree, IsInside, ring, RunFree, SearchOk, scan-SearchOk}

-- Each zone that exists has its head pointer inside it.
abbrev pub HeadsInside : State → Type 0
HeadsInside s =
    (i : ℕ) → (s.zones i).start < (s.zones i).end → IsInside (s.zones i) (s.zones i).head

pub fill_lem :
    (n page value : ℕ) (f : ℕ → ℕ) (q : ℕ)
    → fill n page value f q ≡ (if leb page q && ltb q (page + n) then value else f q)
unfolding fill
fill_lem zero page value f q = ground arith
fill_lem (suc n) page value f q =
    ground (arith, fill_lem n (page + 1) value (update f page value) q)

-- A run that ends before the zone does is a row of neighbours.
pub ring-eq-add : (z : Zone) (a k : ℕ) → IsInside z a → a + k < z.end → ring z a k ≡ a + k
unfolding wrap
ring-eq-add z a zero i h = omega arith
ring-eq-add z a (suc k) i h = rw (ring-eq-add z a k i (omega arith)) (ground arith)

pub record IsAllocated (number zone : ℕ) (s : State) (p : ℕ) (t : State) : Type 0 where
  pub chosen : ℕ
  pub below : chosen ≤ zone
  pub inside : IsInside (s.zones chosen) p
  pub first_free : IsFree s.ref_count p
  pub run_free :
      p + number ≤ (s.zones chosen).end → (k : ℕ) → k < number → IsFree s.ref_count (p + k)
  pub claimed :
      (q : ℕ) → t.ref_count q ≡ (if leb p q && ltb q (p + number) then 1 else s.ref_count q)
  pub counted : t.free_pages ≡ sub32 s.free_pages number
  pub heads : HeadsInside t

-- What a call may return.
abbrev AllocOk : ℕ → ℕ → State → Alloc → Type 0
AllocOk number zone s (allocated p t) = IsAllocated number zone s p t
AllocOk number zone s invalid_page = Unit {0}
AllocOk number zone s panic = Unit {0}
AllocOk number zone s hang = Unit {0}

take_run-IsAllocated :
    (number zone top : ℕ) (s : State) (first head : ℕ)
    → zone ≤ top
    → 0 < number
    → HeadsInside s
    → RunFree s.ref_count (s.zones zone) first number
    → IsInside (s.zones zone) first
    → IsInside (s.zones zone) head
    → IsAllocated number top s first (take_run number zone first head s)
unfolding take_run
take_run-IsAllocated number zone top s first head le pos v r i j = record {
  chosen = zone;
  below = le;
  inside = i;
  first_free = r 0 pos;
  run_free = λ fits k h.
      subst (IsFree s.ref_count) (ring-eq-add (s.zones zone) first k i (omega arith)) (r k h);
  claimed = λ q. fill_lem number first 1 s.ref_count q;
  counted = refl;
  heads = λ n h. heads n h (Bool-cases (zone == n));
}
  where
    heads :
        (n : ℕ)
        → (update s.zones zone (record (s.zones zone) { head = head }) n).start
          < (update s.zones zone (record (s.zones zone) { head = head }) n).end
        → ((zone == n) ≡ true) ⊎ ((zone == n) ≡ false)
        → IsInside
            (update s.zones zone (record (s.zones zone) { head = head }) n)
            (update s.zones zone (record (s.zones zone) { head = head }) n).head
    heads n h (inl e) = rw e j
    heads n h (inr e) = rw e (v n (rw e at h))

alloc_zone-AllocOk :
    (fuel number zone top : ℕ) (rest : Alloc) (s : State)
    → zone ≤ top
    → 0 < number
    → number < u32_mod
    → HeadsInside s
    → AllocOk number top s rest
    → AllocOk number top s (alloc_zone fuel number zone rest s)
unfolding alloc_zone
alloc_zone-AllocOk fuel number zone top rest s le pos small v ok =
    elim (Bool-cases (ltb (s.zones zone).start (s.zones zone).end)) [
      | inl e ↦ rw e (
          searched (scan s.ref_count (s.zones zone) number fuel (s.zones zone).head none 0) (
            scan-SearchOk s.ref_count (s.zones zone) number fuel (s.zones zone).head pos small
              (ground arith) (v zone (ground arith)).0))
      | inr e ↦ rw e ok
    ]
  where
    searched :
        (r : Search)
        → SearchOk s.ref_count (s.zones zone) number r
        → AllocOk number top s (elim r [
          | found first head ↦ allocated first (take_run number zone first head s)
          | exhausted ↦ rest
          | unfinished ↦ hang
        ])
    searched (found first head) (r, i, j) =
        take_run-IsAllocated number zone top s first head le pos v r i j
    searched exhausted r = ok
    searched unfinished r = tt

alloc_zones-AllocOk :
    (fuel number zone top : ℕ) (s : State)
    → zone ≤ top
    → 0 < number
    → number < u32_mod
    → HeadsInside s
    → AllocOk number top s (alloc_zones fuel number zone s)
unfolding alloc_zones
alloc_zones-AllocOk fuel number zero top s le pos small v =
    alloc_zone-AllocOk fuel number zero top panic s le pos small v tt
alloc_zones-AllocOk fuel number (suc zone) top s le pos small v =
    alloc_zone-AllocOk fuel number (suc zone) top _ s le pos small v
      (alloc_zones-AllocOk fuel number zone top s (omega arith) pos small v)

-- When `MemPhysicalAlloc` returns a page, for a request of fewer than 2^32 pages in a state whose
-- head pointers lie inside their zones, then that page lies in one of the zones up to the requested
-- one and was free; if the series does not reach past that zone's end, each page of it was free;
-- exactly the pages of the series now have the reference count 1 and the others keep theirs; the
-- count of free pages fell by the request (mod 2^32); and the head pointers are still inside.
pub alloc-IsAllocated :
    (fuel number zone : ℕ) (s : State) {p : ℕ} {t : State}
    → number < u32_mod
    → HeadsInside s
    → alloc fuel number zone s ≡ allocated p t
    → IsAllocated number zone s p t
unfolding alloc
alloc-IsAllocated fuel number zone s small v e =
    subst (AllocOk number zone s) e (elim (Bool-cases (number == 0 || ltb 2 zone)) [
      | inl b ↦ rw b tt
      | inr b ↦
          rw b (alloc_zones-AllocOk fuel number zone zone s (omega arith) (ground arith) small v)
    ])
