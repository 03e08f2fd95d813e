-- ===== src/Mm/Physical/Scan.antt =====
-- The search loop of `MemPhysicalAlloc` within one zone: what a hit means.
use chaff.Prelude.{
  ℕ, zero, suc, ◌+◌, ◌≤◌, ◌<◌, ◌≡◌, refl, ap, subst, inl, inr, true, false, Option, none, some,
  ◌==◌, arith, Bool-cases, add32, u32_mod,
}
use chaff.Mm.Physical.{
  Zone, wrap, visit, enough, Turn, hit, step, scan, Search, found, exhausted, unfinished,
}

abbrev pub IsFree : (ℕ → ℕ) → ℕ → Type 0
IsFree ref_count p = ref_count p ≡ 0

abbrev pub IsInside : Zone → ℕ → Type 0
IsInside z p = (z.start ≤ p) × (p < z.end)

-- The page that the search looks at `k` turns after page `a`.
abbrev pub ring : Zone → ℕ → ℕ → ℕ
ring z a zero = a
ring z a (suc k) = wrap z (ring z a k + 1)

-- The `n` pages from `a` on, in the order of the search, are all free.
abbrev pub RunFree : (ℕ → ℕ) → Zone → ℕ → ℕ → Type 0
RunFree ref_count z a n = (k : ℕ) → k < n → IsFree ref_count (ring z a k)

pub wrap-IsInside : (z : Zone) (h : ℕ) → z.start < z.end → z.start ≤ h → IsInside z (wrap z h)
unfolding wrap
wrap-IsInside z h e s = ground arith

module _ (ref_count : ℕ → ℕ) (z : Zone) where
  RunFree-suc :
      (a n : ℕ)
      → RunFree ref_count z a n
      → IsFree ref_count (ring z a n)
      → RunFree ref_count z a (suc n)
  RunFree-suc a n r f k h = elim (Bool-cases (k == n)) [
    | inl e ↦ rw (eq k e) f
    | inr e ↦ r k (ground arith)
  ]
    where
      eq : (k : ℕ) → (k == n) ≡ true → k ≡ n
      eq k e = ground arith

  -- What the search knows before a turn at `head`.
  abbrev Progress : ℕ → Option ℕ → ℕ → ℕ → Type 0
  Progress number none len head = Unit {0}
  Progress number (some a) len head =
      (RunFree ref_count z a len) × IsInside z a × (len < number) × (ring z a len ≡ wrap z head)

  -- What a turn at page `page` returns.
  abbrev TurnOk : ℕ → Turn → Type 0
  TurnOk number (hit p h) = RunFree ref_count z p number × IsInside z p × IsInside z h
  TurnOk number (step h f l) = (z.start ≤ h) × Progress number f l h

  enough-TurnOk :
      (number page a len : ℕ)
      → IsInside z page
      → IsInside z a
      → RunFree ref_count z a len
      → len ≤ number
      → ring z a len ≡ wrap z (page + 1)
      → TurnOk number (enough number page a len)
  unfolding enough
  enough-TurnOk number page a len s i r l w = elim (Bool-cases (len == number)) [
    | inl e ↦ rw e (subst (RunFree ref_count z a) (ground arith) r, i, s)
    | inr e ↦ rw e (omega (arith, s), (r, i, ground arith, w))
  ]

  visit-TurnOk :
      (number head : ℕ) (first : Option ℕ) (len : ℕ)
      → 0 < number
      → number < u32_mod
      → z.start < z.end
      → z.start ≤ head
      → Progress number first len head
      → TurnOk number (visit ref_count number (wrap z head) first len)
  unfolding visit
  visit-TurnOk number head none len pos small e s p =
      elim (Bool-cases (ref_count (wrap z head) == 0)) [
        | inl f ↦ rw f (
            enough-TurnOk number (wrap z head) (wrap z head) 1 (wrap-IsInside z head e s)
              (wrap-IsInside z head e s) (alone f) (omega arith) refl)
        | inr f ↦ rw f (omega (arith, wrap-IsInside z head e s), tt)
      ]
    where
      alone : (ref_count (wrap z head) == 0) ≡ true → RunFree ref_count z (wrap z head) 1
      alone f zero h = ground arith
      alone f (suc k) h = absurd (omega arith)
  visit-TurnOk number head (some a) len pos small e s (r, i, l, w) =
      elim (Bool-cases (ref_count (wrap z head) == 0)) [
        | inl f ↦ rw f (
            enough-TurnOk number (wrap z head) a (add32 len 1) (wrap-IsInside z head e s) i
              (rw next (RunFree-suc a len r (rw w (ground arith)))) (omega arith)
              (rw (next, ring) (ap (λ q. wrap z (q + 1)) w)))
        | inr f ↦ rw f (omega (arith, wrap-IsInside z head e s), tt)
      ]
    where
      next : add32 len 1 ≡ suc len
      next = omega arith

  -- What a search returns: a hit is a run of free pages that begins and ends inside the zone.
  abbrev pub SearchOk : ℕ → Search → Type 0
  SearchOk number (found p h) = RunFree ref_count z p number × IsInside z p × IsInside z h
  SearchOk number exhausted = Unit {0}
  SearchOk number unfinished = Unit {0}

  scan-SearchOk_from :
      (number fuel head : ℕ) (first : Option ℕ) (len : ℕ)
      → 0 < number
      → number < u32_mod
      → z.start < z.end
      → z.start ≤ head
      → Progress number first len head
      → SearchOk number (scan ref_count z number fuel head first len)
  unfolding scan
  scan-SearchOk_from number zero head first len pos small e s p = tt
  scan-SearchOk_from number (suc fuel) head first len pos small e s p =
      after (visit ref_count number (wrap z head) first len)
        (visit-TurnOk number head first len pos small e s p)
        (λ h f l s' p'. scan-SearchOk_from number fuel h f l pos small e s' p')
    where
      after :
          (t : Turn)
          → TurnOk number t
          → ((h : ℕ) (f : Option ℕ) (l : ℕ)
              → z.start ≤ h
              → Progress number f l h
              → SearchOk number (scan ref_count z number fuel h f l))
          → SearchOk number (elim t [
            | hit p h ↦ found p h
            | step h f l ↦ elim (h == z.head) [
              | true ↦ exhausted
              | false ↦ scan ref_count z number fuel h f l
            ]
          ])
      after (hit p h) ok ih = ok
      after (step h f l) ok ih = elim (Bool-cases (h == z.head)) [
        | inl b ↦ rw b tt
        | inr b ↦ rw b (ih h f l ok.0 ok.1)
      ]

  pub scan-SearchOk :
      (number fuel head : ℕ)
      → 0 < number
      → number < u32_mod
      → z.start < z.end
      → z.start ≤ head
      → SearchOk number (scan ref_count z number fuel head none 0)
  scan-SearchOk number fuel head pos small e s =
      scan-SearchOk_from number fuel head none 0 pos small e s tt
