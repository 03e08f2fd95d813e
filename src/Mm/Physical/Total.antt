-- ===== src/Mm/Physical/Total.antt =====
-- `MemPhysicalAlloc`: when the search of a zone ends, and when it finds a single page.
use chaff.Prelude.{
  ℕ, zero, suc, ◌+◌, ◌-◌, ◌≤◌, ◌<◌, ◌≡◌, refl, ap, ◌≢◌, inl, inr, ◌⊎◌, true, false, Option, none,
  some, ltb, ◌==◌, if◌then◌else◌, arith, Bool-cases,
}
use native.Mathlib.Decide.{dec_lt}
use chaff.Mm.Physical.{
  Zone, wrap, visit, enough, Turn, hit, step, scan, Search, found, exhausted, unfinished,
}
use chaff.Mm.Physical.Scan.{IsFree, IsInside, wrap-IsInside}

module _ (ref_count : ℕ → ℕ) (z : Zone) where
  -- The turns left before the search comes back to the head pointer.
  abbrev distance : ℕ → ℕ
  distance h = if ltb z.head h then (z.end - h) + (z.head - z.start) else z.head - h

  -- A turn moves on to the page behind the one that it looked at.
  abbrev StepsTo : ℕ → Turn → Type 0
  StepsTo page (hit p h) = Unit {0}
  StepsTo page (step h f l) = h ≡ page + 1

  visit-StepsTo :
      (number page : ℕ) (first : Option ℕ) (len : ℕ)
      → StepsTo page (visit ref_count number page first len)
  unfolding visit enough
  visit-StepsTo number page none len = ground arith
  visit-StepsTo number page (some a) len = ground arith

  wrap_inside : (h : ℕ) → h < z.end → wrap z h ≡ h
  unfolding wrap
  wrap_inside h l = ground arith

  wrap_end : z.start < z.end → wrap z z.end ≡ wrap z z.start
  unfolding wrap
  wrap_end h = ground arith

  distance-wrap :
      (h : ℕ)
      → z.start < z.head
      → z.head < z.end
      → z.start ≤ h
      → h ≤ z.end
      → h ≢ z.head
      → (distance (wrap z h + 1) < distance h) × (wrap z h + 1 ≤ z.end)
  unfolding wrap
  distance-wrap h a b c d e = ground arith

  distance_start : z.start < z.head → z.head < z.end → distance (z.head + 1) + 1 ≡ z.end - z.start
  distance_start a b = ground arith

  -- What the loop does after a turn, with `fuel` for the later ones.
  abbrev continue : ℕ → ℕ → Turn → Search
  continue number fuel t = elim t [
    | hit p h ↦ found p h
    | step h f l ↦ elim (h == z.head) [
      | true ↦ exhausted
      | false ↦ scan ref_count z number fuel h f l
    ]
  ]

  scan_ends_from :
      (number fuel head : ℕ) (first : Option ℕ) (len : ℕ)
      → z.start < z.head
      → z.head < z.end
      → z.start < head
      → head ≤ z.end
      → distance head ≤ fuel
      → head ≢ z.head
      → scan ref_count z number fuel head first len ≢ unfinished
  unfolding scan
  scan_ends_from number zero head first len a b c d f ne = absurd (ground arith)
  scan_ends_from number (suc fuel) head first len a b c d f ne =
      after (visit ref_count number (wrap z head) first len)
        (visit-StepsTo number (wrap z head) first len)
        (λ f' l' ne'.
          scan_ends_from number fuel (wrap z head + 1) f' l' a b
            (omega (arith, wrap-IsInside z head)) (distance-wrap head a b (omega arith) d ne).1
            (omega (arith, distance-wrap head a b (omega arith) d ne)) ne')
    where
      after :
          (t : Turn)
          → StepsTo (wrap z head) t
          → ((f' : Option ℕ) (l' : ℕ)
              → wrap z head + 1 ≢ z.head
              → scan ref_count z number fuel (wrap z head + 1) f' l' ≢ unfinished)
          → continue number fuel t ≢ unfinished
      after (hit p h) e ih = λ q. cc
      after (step h f l) e ih = elim (Bool-cases (h == z.head)) [
        | inl b ↦ rw (b, continue) (λ q. cc)
        | inr b ↦ rw (b, continue) (rw e (ih f l (ground arith)))
      ]

  -- Started at a head pointer that is not the first page of its zone, the search ends after as many
  -- turns as the zone has pages.
  pub scan_ends :
      (number fuel : ℕ)
      → z.start < z.head
      → z.head < z.end
      → z.end - z.start ≤ fuel
      → scan ref_count z number fuel z.head none 0 ≢ unfinished
  unfolding scan
  scan_ends number zero a b f = absurd (omega arith)
  scan_ends number (suc fuel) a b f =
      after (visit ref_count number (wrap z z.head) none 0)
        (visit-StepsTo number (wrap z z.head) none 0)
    where
      at_head : wrap z z.head ≡ z.head
      at_head = wrap_inside z.head b

      after : (t : Turn) → StepsTo (wrap z z.head) t → continue number fuel t ≢ unfinished
      after (hit p h) e = λ q. cc
      after (step h f' l) e = elim (Bool-cases (h == z.head)) [
        | inl same ↦ rw (same, continue) (λ q. cc)
        | inr other ↦
            rw (other, continue)
              (rw (e, at_head)
                (scan_ends_from number fuel (z.head + 1) f' l a b (omega arith) (omega arith)
                  (omega (arith, distance_start a b)) (omega arith)))
      ]

  -- One turn at a page of the zone, with no run begun.
  scan_free :
      (fuel head len : ℕ)
      → head < z.end
      → (ref_count head == 0) ≡ true
      → scan ref_count z 1 (suc fuel) head none len ≡ found head head
  unfolding scan visit enough
  scan_free fuel head len h f = rw (wrap_inside head h, f, scan)

  pub scan_used :
      (number fuel head len : ℕ)
      → head < z.end
      → (ref_count head == 0) ≡ false
      → (head + 1 == z.head) ≡ false
      → scan ref_count z number (suc fuel) head none len
        ≡ scan ref_count z number fuel (head + 1) none len
  unfolding scan visit
  scan_used number fuel head len h f e = rw (wrap_inside head h, f, e, scan)

  pub scan_wrapped :
      (number fuel len : ℕ)
      → z.start < z.end
      → scan ref_count z number fuel z.end none len ≡ scan ref_count z number fuel z.start none len
  unfolding scan
  scan_wrapped number zero len h = refl
  scan_wrapped number (suc fuel) len h = rw (wrap_end h, scan)

  abbrev pub FindsPage : Search → Type 0
  FindsPage r = (q : ℕ) × (r ≡ found q q)

  -- The search for one page finds one, if a free page `p` comes before the head pointer does.
  single_from :
      (fuel head p len : ℕ)
      → head ≤ p
      → p < z.end
      → IsFree ref_count p
      → (z.head ≤ head) ⊎ (p < z.head)
      → p - head < fuel
      → FindsPage (scan ref_count z 1 fuel head none len)
  single_from zero head p len a b free side f = absurd (omega arith)
  single_from (suc fuel) head p len a b free side f = elim (Bool-cases (ref_count head == 0)) [
    | inl e ↦ (head, scan_free fuel head len (omega arith) e)
    | inr e ↦
        let ne : head ≢ p = λ q. absurd (ground (arith, ap ref_count q)) in
        rw (scan_used 1 fuel head len (omega arith) e (ground arith))
          (single_from fuel (head + 1) p len (omega arith) b free (ground arith) (omega arith))
  ]

  -- From behind the head pointer, round the end of the zone, to a page below the head pointer.
  single_round :
      (fuel head p len : ℕ)
      → z.head ≤ head
      → head ≤ z.end
      → z.start ≤ p
      → p < z.head
      → z.head < z.end
      → IsFree ref_count p
      → (z.end - head) + (p - z.start) < fuel
      → FindsPage (scan ref_count z 1 fuel head none len)
  single_round zero head p len a b c d e free f = absurd (omega arith)
  single_round (suc fuel) head p len a b c d e free f = elim (Bool-cases (head == z.end)) [
    | inl at_end ↦
        let q : head ≡ z.end = ground arith in
        rw (q, scan_wrapped 1 (suc fuel) len (omega arith))
          (single_from (suc fuel) z.start p len c (omega arith) free (inr d) (omega arith))
    | inr inside ↦ elim (Bool-cases (ref_count head == 0)) [
      | inl u ↦ (head, scan_free fuel head len (ground arith) u)
      | inr u ↦ rw (scan_used 1 fuel head len (ground arith) u (ground arith)) (
          single_round fuel (head + 1) p len (omega arith) (ground arith) c d e free (ground arith))
    ]
  ]

  -- The search of a zone for one page finds one within as many turns as the zone has pages, if the
  -- zone has a free one.
  pub single :
      (fuel p : ℕ)
      → IsInside z z.head
      → IsInside z p
      → IsFree ref_count p
      → z.end - z.start ≤ fuel
      → FindsPage (scan ref_count z 1 fuel z.head none 0)
  single fuel p (a, b) (c, d) free f = elim (dec_lt p z.head) [
    | yes lt ↦ single_round fuel z.head p 0 (omega arith) (omega arith) c lt b free (omega arith)
    | no ge ↦ single_from fuel z.head p 0 (omega arith) d free (inl (omega arith)) (omega arith)
  ]
