-- ===== src/Mm/Slab/Sizes.antt =====
-- The sizes that `MemSlabCreate` chooses.
use native.Mathlib.Nat.{le-div_iff_mul-le, div-mul-le_self}
use chaff.Prelude.{
  ℕ, zero, suc, ◌+◌, ◌-◌, ◌*◌, ◌/◌, ◌%◌, ◌≤◌, ◌<◌, ◌≡◌, refl, ◌⊎◌, inl, inr, Bool, true, false,
  some, ltb, leb, if◌then◌else◌, arith, Bool-cases,
}
use chaff.Mm.Slab.{
  Cache, new_cache, page_size, best_pages, aligned, slab_extra, pages_for, slab_create,
}

abbrev objects_in : ℕ → ℕ → ℕ → ℕ
objects_in extra size pages = (pages * page_size - extra) / size

if_lem :
    (P : ℕ → Type 0) (a b : Bool) {x y z : ℕ}
    → P x
    → P y
    → P z
    → P (if a then x else if b then y else z)
if_lem P true b px py pz = px
if_lem P false true px py pz = py
if_lem P false false px py pz = pz

-- What holds of the default and of each number of pages with eight objects or more holds of the choice.
best_pages_lem :
    (P : ℕ → Type 0) (extra size turns pages best wastage : ℕ)
    → P best
    → ((p : ℕ) → pages ≤ p → p < pages + turns → 8 ≤ objects_in extra size p → P p)
    → P (best_pages extra size turns pages best wastage)
unfolding best_pages
best_pages_lem P extra size zero pages best wastage b each = b
best_pages_lem P extra size (suc turns) pages best wastage b each =
    let rest : (best wastage : ℕ)
        → P best
        → P (best_pages extra size turns (pages + 1) best wastage) =
      λ best wastage b.
        best_pages_lem P extra size turns (pages + 1) best wastage b
          (λ p low high o. each p (omega (arith, low)) (omega (arith, high)) o) in
    elim (Bool-cases (ltb (objects_in extra size pages) 8)) [
      | inl e ↦ rw e (rest best wastage b)
      | inr e ↦
          let here = each pages (omega arith) (omega arith) (enough e) in
          rw e (
            if_lem P (leb ((pages * page_size - extra) % size) (pages * 128))
              (ltb ((pages * page_size - extra) % size) wastage) here
              (rest pages ((pages * page_size - extra) % size) here) (rest best wastage b))
    ]
  where
    enough : ltb (objects_in extra size pages) 8 ≡ false → 8 ≤ objects_in extra size pages
    enough e = ground (arith, e)

-- What `MemSlabCreate` promises of the cache.
abbrev pub IsCreated : ℕ → Cache → Type 0
IsCreated bytes c =
    (bytes ≤ c.object_size)
    × (c.object_size < bytes + 4)
    × (c.object_size % 4 ≡ 0)
    × (1 ≤ c.pages_per_slab)
    × (c.pages_per_slab ≤ 8)
    × (slab_extra c.object_size + c.objects_per_slab * c.object_size ≤ c.pages_per_slab * page_size)
    × (1 ≤ c.objects_per_slab)
    × (c.object_size ≤ page_size → 8 ≤ c.objects_per_slab)

abbrev IsChosen : ℕ → ℕ → Type 0
IsChosen size r =
    (1 ≤ r)
    × (r ≤ 8)
    × (1 ≤ objects_in (slab_extra size) size r)
    × (size ≤ page_size → 8 ≤ objects_in (slab_extra size) size r)

slab_extra_lem : (size : ℕ) → ((size < 512) × (slab_extra size ≡ 24)) ⊎ (slab_extra size ≡ 0)
slab_extra_lem size = elim (Bool-cases (leb 512 size)) [
  | inl e ↦ rw e (inr refl)
  | inr e ↦ rw e (inl (ground (arith, e), refl))
]

pages_for_lem : (size : ℕ) → 0 < size → size < 32768 → IsChosen size (pages_for size)
pages_for_lem size p h =
    best_pages_lem (IsChosen size) (slab_extra size) size 7 1 8 0xFFFFFFFF
      (omega arith, omega arith, one, eight)
      (λ r low high o. (low, omega (arith, high), omega (arith, o), λ s. o))
  where
    one : 1 ≤ objects_in (slab_extra size) size 8
    one = (le-div_iff_mul-le p).1 (omega (arith, h, slab_extra_lem size))

    eight : size ≤ page_size → 8 ≤ objects_in (slab_extra size) size 8
    eight s = (le-div_iff_mul-le p).1 (omega (arith, s, slab_extra_lem size))

-- `MemSlabCreate` of objects of 1 to 32764 bytes.
pub slab_create_lem :
    (bytes flags : ℕ)
    → 0 < bytes
    → bytes ≤ 32764
    → (c : Cache) × (slab_create bytes flags ≡ some c) × IsCreated bytes c
unfolding slab_create
slab_create_lem bytes flags p h =
    let (low, high, one, eight) =
      pages_for_lem (aligned bytes) (omega (arith, p, h)) (omega (arith, h)) in
    (
      new_cache (aligned bytes) flags,
      rw accepted refl,
      (omega (arith, h), omega (arith, h), omega arith, low, high, fits low, one, eight),
    )
  where
    accepted : leb (8 * page_size) (aligned bytes) ≡ false
    accepted = ground (arith, h)

    fits :
        1 ≤ pages_for (aligned bytes)
        → slab_extra (aligned bytes)
            + objects_in (slab_extra (aligned bytes)) (aligned bytes) (pages_for (aligned bytes))
              * aligned bytes
          ≤ pages_for (aligned bytes) * page_size
    fits low = omega (
      arith,
      low,
      slab_extra_lem (aligned bytes),
      div-mul-le_self (pages_for (aligned bytes) * page_size - slab_extra (aligned bytes))
          (aligned bytes),
    )
