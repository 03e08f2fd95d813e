-- ===== src/Mm/Slab/Alloc.antt =====
-- `MemSlabAlloc` and `MemSlabFree` on caches whose slabs are on the right lists.
use chaff.Prelude.{
  ℕ, ◌+◌, ◌<◌, ◌≡◌, refl, ◌⊎◌, inl, inr, Bool, true, false, some, List, [], ◌∷◌, length, All, ◌==◌,
  if◌then◌else◌, arith, Bool-cases,
}
use chaff.Mm.Slab.{Slab, Cache, settle, alloc_from, create_slab, slab_alloc, free_chain}
use chaff.Mm.Slab.Lists.{
  count, count_slabs, count_slabs-append, active_slabs, active_slabs-append, All-append,
  length-free_chain, IsPartial, IsUnused, IsFull, IsSound, free_count, active_count,
}

-- What an allocation does: the object was free and is not, nothing else changes hands, and one more object
-- is in use.
abbrev pub IsTaken : Cache → ℕ → Cache → Type 0
IsTaken c object c' =
    IsSound c'
    × ((x : ℕ) → free_count x c ≡ (if x == object then 1 else 0) + free_count x c')
    × (active_count c' ≡ active_count c + 1)
    × (c'.objects_per_slab ≡ c.objects_per_slab)

abbrev slab : ℕ → ℕ → ℕ → List ℕ → Slab
slab node active memory free = record { node = node; active = active; memory = memory; free = free }

-- The slab at the head of its list, with an object taken from it, goes to the right list.
settle_lem :
    (was_partial : Bool) (node active memory : ℕ) (free : List ℕ) (partial empty : List Slab)
    (c : Cache)
    → All (IsFull c.objects_per_slab) c.full
    → All (IsPartial c.objects_per_slab) partial
    → All (IsUnused c.objects_per_slab) empty
    → active + length free ≡ c.objects_per_slab
    → 0 < active
    → (active ≡ 1) ⊎ (was_partial ≡ true)
    → IsSound (settle was_partial (slab node active memory free) partial empty c)
      × ((x : ℕ)
          → free_count x (settle was_partial (slab node active memory free) partial empty c)
            ≡ count_slabs x c.full + count x free + count_slabs x partial + count_slabs x empty)
      × (active_count (settle was_partial (slab node active memory free) partial empty c)
          ≡ active_slabs c.full + active + active_slabs partial + active_slabs empty)
      × ((settle was_partial (slab node active memory free) partial empty c).objects_per_slab
          ≡ c.objects_per_slab)
unfolding settle
settle_lem was_partial node active memory [] partial empty c fs ps es w p k =
    let s = slab node active memory [] in
    (
      (All-append (IsFull c.objects_per_slab) c.full s fs (w, omega (arith, w)), ps, es),
      λ x. omega (arith, count_slabs-append x c.full s),
      omega (arith, active_slabs-append c.full s),
      refl,
    )
settle_lem was_partial node active memory (o ∷ os) partial empty c fs ps es w p k =
    let s = slab node active memory (o ∷ os) in
    elim (Bool-cases (active == 1)) [
      | inl e ↦ rw e (
        (
          fs,
          All-append (IsPartial c.objects_per_slab) partial s ps
              (w, omega (arith, p), omega (arith, w)),
          es,
        ),
        λ x. omega (arith, count_slabs-append x partial s),
        omega (arith, active_slabs-append partial s),
        refl,
      )
      | inr e ↦ elim k [
        | inl one ↦ absurd (ground (arith, e, one))
        | inr t ↦ rw e (
            rw t (
              (fs, ((w, omega (arith, p), omega (arith, w)), ps), es),
              λ x. omega arith,
              omega arith,
              refl,
            ))
      ]
    ]

alloc_from_lem :
    (was_partial : Bool) (node active memory : ℕ) (free : List ℕ) (partial empty : List Slab)
    (c : Cache)
    → All (IsFull c.objects_per_slab) c.full
    → All (IsPartial c.objects_per_slab) partial
    → All (IsUnused c.objects_per_slab) empty
    → active + length free ≡ c.objects_per_slab
    → active < c.objects_per_slab
    → (active ≡ 0) ⊎ (was_partial ≡ true)
    → (o : ℕ) × (c' : Cache) × (alloc_from was_partial
          (slab node active memory free)
          partial
          empty
          c
        ≡ some (o, c'))
      × IsSound c'
      × ((x : ℕ)
          → count_slabs x c.full + count x free + count_slabs x partial + count_slabs x empty
            ≡ (if x == o then 1 else 0) + free_count x c')
      × (active_count c'
          ≡ active_slabs c.full + active + active_slabs partial + active_slabs empty + 1)
      × (c'.objects_per_slab ≡ c.objects_per_slab)
unfolding alloc_from
alloc_from_lem was_partial node active memory [] partial empty c fs ps es w h k =
    absurd (omega (arith, w, h))
alloc_from_lem was_partial node active memory (o ∷ os) partial empty c fs ps es w h k =
    let (sound, counts, uses, same) =
      settle_lem was_partial node (active + 1) memory os partial empty c fs ps es (omega (arith, w))
        (omega arith) (first k) in
    (o, _, refl, sound, (λ x. omega (arith, counts x)), omega (arith, uses), same)
  where
    first : (active ≡ 0) ⊎ (was_partial ≡ true) → (active + 1 ≡ 1) ⊎ (was_partial ≡ true)
    first (inl e) = inl (omega (arith, e))
    first (inr e) = inr e

-- The cache that `MemSlabAlloc` allocates from: with a new slab if it has no other.
abbrev pub stocked : ℕ → ℕ → Cache → Cache
stocked node memory c = elim c.partial [
  | s ∷ ss ↦ c
  | [] ↦ elim c.empty [ s ∷ ss ↦ c | [] ↦ record c { empty = create_slab c node memory ∷ [] } ]
]

slab_alloc_cases :
    (node memory : ℕ) (partial empty : List Slab) (c : Cache)
    → IsSound (record c { partial = partial; empty = empty })
    → 0 < c.objects_per_slab
    → (o : ℕ) × (c' : Cache) × (slab_alloc node memory
          (record c { partial = partial; empty = empty })
        ≡ some (o, c'))
      × IsTaken (stocked node memory (record c { partial = partial; empty = empty })) o c'
unfolding slab_alloc create_slab
slab_alloc_cases node memory (s ∷ partial) empty c (fs, ((w, u, l), ps), es) p =
    let (o, c', e, sound, counts, uses, same) =
      alloc_from_lem true s.node s.active s.memory s.free partial empty
        (record c { partial = s ∷ partial; empty = empty }) fs ps es w l (inr refl) in
    (o, c', e, (sound, (λ x. omega (arith, counts x)), omega (arith, uses), same))
slab_alloc_cases node memory [] (s ∷ empty) c (fs, ps, ((w, u), es)) p =
    let (o, c', e, sound, counts, uses, same) =
      alloc_from_lem false s.node s.active s.memory s.free [] empty
        (record c { partial = []; empty = s ∷ empty }) fs tt es w (omega (arith, u, p)) (inl u) in
    (o, c', e, (sound, (λ x. omega (arith, counts x)), omega (arith, uses), same))
slab_alloc_cases node memory [] [] c (fs, ps, es) p =
    let (o, c', e, sound, counts, uses, same) =
      alloc_from_lem false node 0 memory (free_chain c.object_size c.objects_per_slab memory) [] []
        (record c { partial = []; empty = [] }) fs tt tt
        (omega (arith, length-free_chain c.object_size c.objects_per_slab memory)) p (inl refl) in
    (o, c', e, (sound, (λ x. omega (arith, counts x)), omega (arith, uses), same))

-- `MemSlabAlloc` from a cache with its slabs on the right lists and objects in each takes one object.
pub slab_alloc_lem :
    (node memory : ℕ) (c : Cache)
    → IsSound c
    → 0 < c.objects_per_slab
    → (o : ℕ) × (c' : Cache) × (slab_alloc node memory c ≡ some (o, c'))
      × IsTaken (stocked node memory c) o c'
slab_alloc_lem node memory c sound p = slab_alloc_cases node memory c.partial c.empty c sound p
