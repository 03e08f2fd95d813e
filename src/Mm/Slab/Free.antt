-- ===== src/Mm/Slab/Free.antt =====
-- `MemSlabFree` of an object of a slab that is on one of the cache's lists.
use mathlib.Core.Bool.{and-false}
use chaff.Prelude.{
  ℕ, ◌+◌, ◌-◌, ◌≤◌, ◌<◌, ◌≡◌, ◌≢◌, refl, ap, sym, ◌⊎◌, inl, inr, true, false, List, [], ◌∷◌, ◌++◌,
  All, ◌==◌, if◌then◌else◌, arith, Bool-cases, subst,
}
use chaff.Mm.Slab.{Slab, Cache, slab_free, slab_destroy, is_empty, unlink_slab, replace_slab}
use chaff.Mm.Slab.Lists.{
  count, count_slabs, count_slabs-append, active_slabs, active_slabs-append, All-append, IsPartial,
  IsUnused, IsFull, IsSound, free_count, active_count,
}

is_empty-append : (ss : List Slab) (s : Slab) → is_empty (ss ++ s ∷ []) ≡ false
is_empty-append [] s = refl
is_empty-append (t ∷ ss) s = refl

-- Freeing the object of a slab that has room for one puts the slab, with no object in use, at the end of
-- the list of partial slabs, and the cache cannot be destroyed.
pub slab_free_single :
    (s : Slab) (object : ℕ) (c : Cache)
    → c.objects_per_slab ≡ 1
    → s.active ≡ 1
    → ((slab_free s object c).partial
        ≡ unlink_slab s.node c.partial ++ record s { active = 0; free = object ∷ s.free } ∷ [])
      × (slab_destroy (slab_free s object c) ≡ false)
unfolding slab_free slab_destroy
slab_free_single s object c n a = rw a (
    rw n (
      refl,
      rw
          (is_empty-append (unlink_slab s.node c.partial)
            (record s { active = 0; free = object ∷ s.free }))
          (and-false (is_empty (unlink_slab s.node c.full))),
    ))

-- The slab is in the list, and no slab before it has its header's address.
abbrev pub IsOn : Slab → List Slab → Type 0
IsOn s [] = ⊥
IsOn s (t ∷ ts) = (s ≡ t) ⊎ ((t.node ≢ s.node) × IsOn s ts)

abbrev pub IsOff : Slab → List Slab → Type 0
IsOff s ss = All (λ t. t.node ≢ s.node) ss

unlink_slab_off : (s : Slab) (ss : List Slab) → IsOff s ss → unlink_slab s.node ss ≡ ss
unfolding unlink_slab
unlink_slab_off s [] off = refl
unlink_slab_off s (t ∷ ts) (d, off) = rw (differ d) (ap (λ r. t ∷ r) (unlink_slab_off s ts off))
  where
    differ : t.node ≢ s.node → (t.node == s.node) ≡ false
    differ d = ground (arith, d)

replace_slab_off : (s : Slab) (ss : List Slab) → IsOff s ss → replace_slab s ss ≡ ss
unfolding replace_slab
replace_slab_off s [] off = refl
replace_slab_off s (t ∷ ts) (d, off) = rw (differ d) (ap (λ r. t ∷ r) (replace_slab_off s ts off))
  where
    differ : t.node ≢ s.node → (t.node == s.node) ≡ false
    differ d = ground (arith, d)

-- A list without the slab: its properties and its objects, with those of the slab.
unlink_slab_on :
    (P : Slab → Type 0) (s : Slab) (ss : List Slab)
    → IsOn s ss
    → All P ss
    → All P (unlink_slab s.node ss)
      × ((x : ℕ) → count_slabs x ss ≡ count x s.free + count_slabs x (unlink_slab s.node ss))
      × (active_slabs ss ≡ s.active + active_slabs (unlink_slab s.node ss))
      × P s
unfolding unlink_slab
unlink_slab_on P s [] on ps = absurd on
unlink_slab_on P s (t ∷ ts) (inl e) (p, ps) = rw (same e) (
  ps,
  λ x. omega (arith, ap (λ r. count x r.free) e),
  omega (arith, ap (λ r. r.active) e),
  subst P (sym e) p,
)
  where
    same : s ≡ t → (t.node == s.node) ≡ true
    same e = ground (arith, ap (λ r. r.node) e)
unlink_slab_on P s (t ∷ ts) (inr (d, on)) (p, ps) =
    let (qs, counts, uses, q) = unlink_slab_on P s ts on ps in
    rw (differ d) ((p, qs), (λ x. omega (arith, counts x)), omega (arith, uses), q)
  where
    differ : t.node ≢ s.node → (t.node == s.node) ≡ false
    differ d = ground (arith, d)

-- A list with new fields for the slab.
replace_slab_on :
    (P : Slab → Type 0) (s s' : Slab) (ss : List Slab)
    → s'.node ≡ s.node
    → P s'
    → IsOn s ss
    → All P ss
    → All P (replace_slab s' ss)
      × ((x : ℕ)
          → count_slabs x ss + count x s'.free
            ≡ count x s.free + count_slabs x (replace_slab s' ss))
      × (active_slabs ss + s'.active ≡ s.active + active_slabs (replace_slab s' ss))
      × P s
unfolding replace_slab
replace_slab_on P s s' [] n p' on ps = absurd on
replace_slab_on P s s' (t ∷ ts) n p' (inl e) (p, ps) = rw (same e) (
  (p', ps),
  λ x. omega (arith, ap (λ r. count x r.free) e),
  omega (arith, ap (λ r. r.active) e),
  subst P (sym e) p,
)
  where
    same : s ≡ t → (t.node == s'.node) ≡ true
    same e = ground (arith, ap (λ r. r.node) e, n)
replace_slab_on P s s' (t ∷ ts) n p' (inr (d, on)) (p, ps) =
    let (qs, counts, uses, q) = replace_slab_on P s s' ts n p' on ps in
    rw (differ d) ((p, qs), (λ x. omega (arith, counts x)), omega (arith, uses), q)
  where
    differ : t.node ≢ s.node → (t.node == s'.node) ≡ false
    differ d = ground (arith, d, n)

-- What freeing an object does: the object is free once more, nothing else changes hands, and one object
-- less is in use.
abbrev pub IsGiven : Cache → ℕ → Cache → Type 0
IsGiven c object c' =
    IsSound c'
    × ((x : ℕ) → free_count x c' ≡ (if x == object then 1 else 0) + free_count x c)
    × (active_count c ≡ active_count c' + 1)
    × (c'.objects_per_slab ≡ c.objects_per_slab)

-- The slab has objects in use: it is a full or a partial one of the cache.
abbrev pub IsUsed : Slab → Cache → Type 0
IsUsed s c =
    (IsOn s c.full × IsOff s c.partial × IsOff s c.empty)
    ⊎ (IsOff s c.full × IsOn s c.partial × IsOff s c.empty)

-- `MemSlabFree` where slabs have room for two objects or more.
pub slab_free_lem :
    (s : Slab) (object : ℕ) (c : Cache)
    → IsSound c
    → 2 ≤ c.objects_per_slab
    → IsUsed s c
    → IsGiven c object (slab_free s object c)
unfolding slab_free
slab_free_lem s object c (fs, ps, es) two (inl (on, off, away)) =
    let (fs', counts, uses, (w, a)) = unlink_slab_on (IsFull c.objects_per_slab) s c.full on fs in
    let s' : Slab = record s { active = s.active - 1; free = object ∷ s.free } in
    rw (full a) (
      rw (unlink_slab_off s c.partial off) (
        rw (unlink_slab_off s c.empty away) (
          (
            fs',
            All-append (IsPartial c.objects_per_slab) c.partial s' ps
                (omega (arith, w, a, two), omega (arith, a, two), omega (arith, a, two)),
            es,
          ),
          λ x. omega (arith, counts x, count_slabs-append x c.partial s'),
          omega (arith, uses, active_slabs-append c.partial s', a, two),
          refl,
        )))
  where
    full : s.active ≡ c.objects_per_slab → (s.active == c.objects_per_slab) ≡ true
    full a = ground (arith, a)
slab_free_lem s object c (fs, ps, es) two (inr (off, on, away)) =
    let (ps', counts, uses, (w, low, high)) =
      unlink_slab_on (IsPartial c.objects_per_slab) s c.partial on ps in
    let s' : Slab = record s { active = s.active - 1; free = object ∷ s.free } in
    elim (Bool-cases (s.active == 1)) [
      | inl e ↦
          let one = single e in
          rw (room high) (
            rw e (
              rw (unlink_slab_off s c.full off) (
                rw (unlink_slab_off s c.empty away) (
                  (
                    fs,
                    ps',
                    All-append (IsUnused c.objects_per_slab) c.empty s' es
                        (omega (arith, w, one), omega (arith, one)),
                  ),
                  λ x. omega (arith, counts x, count_slabs-append x c.empty s'),
                  omega (arith, uses, active_slabs-append c.empty s', one),
                  refl,
                ))))
      | inr e ↦
          let more = several low e in
          let (qs, kept, rest, q) =
            replace_slab_on (IsPartial c.objects_per_slab) s s' c.partial refl
              (omega (arith, w, more), omega (arith, more), omega (arith, high)) on ps in
          rw (room high) (
            rw e (
              rw (replace_slab_off s' c.full off) (
                rw (replace_slab_off s' c.empty away)
                  ((fs, qs, es), λ x. omega (arith, kept x), omega (arith, rest, more), refl))))
    ]
  where
    room : s.active < c.objects_per_slab → (s.active == c.objects_per_slab) ≡ false
    room h = ground (arith, h)

    single : (s.active == 1) ≡ true → s.active ≡ 1
    single e = ground (arith, e)

    several : 0 < s.active → (s.active == 1) ≡ false → 1 < s.active
    several low e = ground (arith, low, e)
