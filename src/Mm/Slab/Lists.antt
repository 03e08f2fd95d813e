-- ===== src/Mm/Slab/Lists.antt =====
-- The slabs of a cache: what the three lists hold, and the free objects of them all.
use chaff.Prelude.{
  ℕ, zero, suc, ◌+◌, ◌<◌, ◌≡◌, refl, List, [], ◌∷◌, ◌++◌, length, All, ◌==◌, if◌then◌else◌, arith,
}
use chaff.Mm.Slab.{Slab, Cache, free_chain}

-- How many times the address is in the chain.
abbrev pub count : ℕ → List ℕ → ℕ
count x [] = 0
count x (o ∷ os) = (if x == o then 1 else 0) + count x os

-- How many times the address is free in the slabs.
abbrev pub count_slabs : ℕ → List Slab → ℕ
count_slabs x [] = 0
count_slabs x (s ∷ ss) = count x s.free + count_slabs x ss

abbrev pub active_slabs : List Slab → ℕ
active_slabs [] = 0
active_slabs (s ∷ ss) = s.active + active_slabs ss

pub count_slabs-append :
    (x : ℕ) (ss : List Slab) (s : Slab)
    → count_slabs x (ss ++ s ∷ []) ≡ count_slabs x ss + count x s.free
count_slabs-append x [] s = omega arith
count_slabs-append x (t ∷ ss) s = omega (arith, count_slabs-append x ss s)

pub active_slabs-append :
    (ss : List Slab) (s : Slab) → active_slabs (ss ++ s ∷ []) ≡ active_slabs ss + s.active
active_slabs-append [] s = omega arith
active_slabs-append (t ∷ ss) s = omega (arith, active_slabs-append ss s)

pub All-append :
    (P : Slab → Type 0) (ss : List Slab) (s : Slab) → All P ss → P s → All P (ss ++ s ∷ [])
All-append P [] s ps p = (p, tt)
All-append P (t ∷ ss) s (q, ps) p = (q, All-append P ss s ps p)

pub length-free_chain : (size n base : ℕ) → length (free_chain size n base) ≡ n
unfolding free_chain
length-free_chain size zero base = refl
length-free_chain size (suc n) base = omega (arith, length-free_chain size n (base + size))

-- A slab accounts for all its objects.
abbrev pub IsWhole : ℕ → Slab → Type 0
IsWhole n s = s.active + length s.free ≡ n

abbrev pub IsFull : ℕ → Slab → Type 0
IsFull n s = IsWhole n s × (s.active ≡ n)

abbrev pub IsPartial : ℕ → Slab → Type 0
IsPartial n s = IsWhole n s × (0 < s.active) × (s.active < n)

abbrev pub IsUnused : ℕ → Slab → Type 0
IsUnused n s = IsWhole n s × (s.active ≡ 0)

-- Each slab is on the list that its objects in use say.
abbrev pub IsSound : Cache → Type 0
IsSound c =
    All (IsFull c.objects_per_slab) c.full
    × All (IsPartial c.objects_per_slab) c.partial
    × All (IsUnused c.objects_per_slab) c.empty

abbrev pub free_count : ℕ → Cache → ℕ
free_count x c = count_slabs x c.full + count_slabs x c.partial + count_slabs x c.empty

abbrev pub active_count : Cache → ℕ
active_count c = active_slabs c.full + active_slabs c.partial + active_slabs c.empty
