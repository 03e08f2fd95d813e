-- ===== src/Mm/Region/Find.antt =====
-- A context's regions in order, and `MemRegionFind`.
use chaff.Prelude.{
  ℕ, ◌+◌, ◌≤◌, ◌<◌, ◌≡◌, refl, inl, inr, Bool, true, false, ◌&&◌, Option, none, some, List, [], ◌∷◌,
  ltb, leb, if◌then◌else◌, arith, Bool-cases,
}
use chaff.Mm.Region.{Region, region_end, kernel_base, find_region, region_find}

-- Below the kernel, and not wrapped round.
abbrev pub IsUser : Region → Type 0
IsUser r = r.start + r.length < kernel_base

abbrev pub IsBefore : Region → List Region → Type 0
IsBefore r [] = Unit
IsBefore r (n ∷ rs) = r.start + r.length < n.start

-- The regions stand in order, with a gap after each, in the user's memory.
abbrev pub IsSpaced : List Region → Type 0
IsSpaced [] = Unit
IsSpaced (r ∷ rs) = IsUser r × IsBefore r rs × IsSpaced rs

abbrev pub contains : Region → ℕ → Bool
contains r addr = leb r.start addr && ltb addr (r.start + r.length)

-- The first region that contains an address.
abbrev pub lookup : List Region → ℕ → Option Region
lookup [] addr = none
lookup (r ∷ rs) addr = if contains r addr then some r else lookup rs addr

pub lookup_below :
    (r : Region) (rs : List Region) (addr : ℕ)
    → IsBefore r rs
    → IsSpaced rs
    → addr ≤ r.start + r.length
    → lookup rs addr ≡ none
lookup_below r [] addr b s h = refl
lookup_below r (n ∷ rs) addr b s h = rw out (lookup_below n rs addr s.1 s.2 (omega (arith, b)))
  where
    out : contains n addr ≡ false
    out = ground (arith, b)

pub region_end-user : (r : Region) → IsUser r → region_end r ≡ r.start + r.length
region_end-user r u = omega (arith, u)

find_region-lookup :
    (rs : List Region) (addr : ℕ) → IsSpaced rs → find_region rs addr ≡ lookup rs addr
unfolding find_region
find_region-lookup [] addr s = refl
find_region-lookup (r ∷ rs) addr s =
    rw (region_end-user r s.0, find_region-lookup rs addr s.2)
      (elim (Bool-cases (ltb addr r.start)) [
        | inl b ↦ rw (b, below b, lookup_below r rs addr s.1 s.2 (ground (arith, b))) refl
        | inr b ↦ rw (b, above b) refl
      ])
  where
    below : ltb addr r.start ≡ true → contains r addr ≡ false
    below b = ground (arith, b)

    above : ltb addr r.start ≡ false → contains r addr ≡ ltb addr (r.start + r.length)
    above b = ground (arith, b)

-- `MemRegionFind` in a user context whose regions stand in order, apart from each other: it gives the
-- region that contains the address, and NULL if there is none, though it looks no further than the
-- first region beyond the address.
pub region_find-lookup :
    (rs : List Region) (addr : ℕ) → IsSpaced rs → region_find false rs addr ≡ lookup rs addr
unfolding region_find
region_find-lookup rs addr s = find_region-lookup rs addr s
