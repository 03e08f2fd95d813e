-- ===== src/Mm/Slab/Tests.antt =====
-- Runs of the slab allocator, and its theorems at concrete caches.
use chaff.Prelude.{ℕ, ◌≡◌, refl, inl, inr, false, some, [], ◌∷◌, arith}
use chaff.Mm.Slab.{
  Slab, Cache, new_cache, slab_create, kalloc_index, slab_alloc, slab_free, slab_destroy,
  slab_shrink, best_pages,
}
use chaff.Mm.Slab.Lists.{IsSound}
use chaff.Mm.Slab.Sizes.{IsCreated, slab_create_lem}
use chaff.Mm.Slab.Alloc.{IsTaken, stocked, slab_alloc_lem}
use chaff.Mm.Slab.Free.{IsGiven, slab_free_lem}

kalloc_test : kalloc_index 100 ≡ some 4
unfolding kalloc_index
kalloc_test = refl

create_test : slab_create 98 0 ≡ some (new_cache 100 0)
unfolding slab_create
create_test = refl

pages_test : (new_cache 100 0).pages_per_slab ≡ 1
unfolding best_pages
pages_test = refl

slab_create_lem_example : (c : Cache) × (slab_create 98 0 ≡ some c) × IsCreated 98 c
slab_create_lem_example = slab_create_lem 98 0 (omega arith) (omega arith)

abbrev used : Slab
used = record { node = 0xC0101000; active = 2; memory = 0xC0100000; free = 0xC0100008 ∷ [] }

-- A cache with room for three objects in a slab, and one slab with two of them in use.
abbrev cache : Cache
cache = record {
  full = [];
  partial = used ∷ [];
  empty = [];
  object_size = 8;
  flags = 0;
  pages_per_slab = 1;
  objects_per_slab = 3;
}

cache-IsSound : IsSound cache
cache-IsSound = (tt, ((refl, omega arith, omega arith), tt), tt)

-- The cache without slabs.
abbrev bare : Cache
bare = record cache { partial = [] }

slab_alloc_lem_example :
    (o : ℕ) × (c' : Cache) × (slab_alloc 0xC0103000 0xC0102000 bare ≡ some (o, c'))
    × IsTaken (stocked 0xC0103000 0xC0102000 bare) o c'
slab_alloc_lem_example = slab_alloc_lem 0xC0103000 0xC0102000 bare (tt, tt, tt) (omega arith)

slab_free_lem_example : IsGiven cache 0xC0100000 (slab_free used 0xC0100000 cache)
slab_free_lem_example =
    slab_free_lem used 0xC0100000 cache cache-IsSound (omega arith) (inr (tt, inl refl, tt))

abbrev single : Slab
single = record { node = 0xC0101000; active = 1; memory = 0xC0100000; free = [] }

abbrev large : Cache
large = record {
  full = single ∷ [];
  partial = [];
  empty = [];
  object_size = 20000;
  flags = 2;
  pages_per_slab = 8;
  objects_per_slab = 1;
}

shrink_test : slab_shrink cache (used ∷ used ∷ []) ≡ 2
unfolding slab_shrink
shrink_test = refl

-- The slab of one object that is freed stays on the list of partial slabs.
single_test : slab_destroy (slab_free single 0xC0100000 large) ≡ false
unfolding slab_free slab_destroy
single_test = refl
