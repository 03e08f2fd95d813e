-- ===== src/Htable/Grow.antt =====
-- The resizing at the start of `HashTableInsert`.
use chaff.Prelude.{
  ℕ, ◌<◌, ◌≡◌, refl, ap, inl, inr, true, false, Bool, some, List, ◌==◌, arith, Bool-cases, add32,
  mul32,
}
use chaff.Htable.{Table, grow_check, rehash, resize, grow, find, initial_size}
use chaff.Htable.Valid.{IsValid, total}
use chaff.Htable.Resize.{
  rehash-IsValid, find-rehash, item_count-rehash, bucket_count-rehash, resize-rehash,
}

-- An item takes 16 bytes, and the kernel has 1 GiB of addresses.
abbrev pub max_items : ℕ
max_items = 0x4000000

-- The number of buckets can be doubled.
abbrev pub IsBounded : Table → Type 0
IsBounded t = t.bucket_count < 0x20000000

-- What growing leaves as it is, and that there are buckets after it.
pub record IsGrown (t u : Table) : Type 0 where
  pub valid : IsValid u
  pub bounded : IsBounded u
  pub same_finds : (k : List ℕ) → find u k ≡ find t k
  pub same_count : u.item_count ≡ t.item_count
  pub has_buckets : 0 < u.bucket_count

rehash-IsGrown :
    (t : Table) (size : ℕ) → IsValid t → 0 < size → size < 0x20000000 → IsGrown t (rehash t size)
rehash-IsGrown t size v pos l = record {
  valid = rehash-IsValid t size v pos;
  bounded = omega (arith, bucket_count-rehash t size, l);
  same_finds = λ k. find-rehash t size k v pos;
  same_count = item_count-rehash t size;
  has_buckets = omega (arith, bucket_count-rehash t size, pos);
}

resized :
    (t : Table) (size : ℕ)
    → IsValid t
    → 0 < size
    → size < 0x20000000
    → (u : Table) × (resize t size ≡ some u) × IsGrown t u
resized t size v pos l =
    (rehash t size, resize-rehash t size pos (omega (arith, l)), rehash-IsGrown t size v pos l)

-- A table of so few items grows from few buckets only.
grow_check-small :
    (t : Table)
    → IsBounded t
    → t.item_count < max_items
    → grow_check t (add32 t.item_count 1) ≡ true
    → t.bucket_count < 0x10000000
unfolding grow_check
grow_check-small t b l e = ground (arith, b, l, e)

grow_check-none :
    (t : Table)
    → IsValid t
    → t.item_count < max_items
    → t.bucket_count ≡ 0
    → grow_check t (add32 t.item_count 1) ≡ true
unfolding grow_check total
grow_check-none t v l e = ground (arith, v.counted, ap (total t.buckets) e, l, e)

-- With room for one more item the growth overruns no array.
pub grow-IsGrown :
    (t : Table)
    → IsValid t
    → IsBounded t
    → t.item_count < max_items
    → (u : Table) × (grow t ≡ some u) × IsGrown t u
unfolding grow
grow-IsGrown t v b l = elim (Bool-cases (grow_check t (add32 t.item_count 1))) [
  | inr e ↦ (
    t,
    rw (e, grow) refl,
    record {
      valid = v;
      bounded = b;
      same_finds = λ k. refl;
      same_count = refl;
      has_buckets = some_buckets e;
    },
  )
  | inl e ↦ elim (Bool-cases (t.bucket_count == 0)) [
    | inl z ↦
        let (u, r, g) = resized t initial_size v (ground arith) (ground arith) in
        (u, rw (e, grow) (rw z r), g)
    | inr z ↦
        let small = grow_check-small t b l e in
        let (u, r, g) =
          resized t (mul32 t.bucket_count 2) v (double_pos t.bucket_count small z)
            (double_small t.bucket_count small) in
        (u, rw (e, grow) (rw z r), g)
  ]
]
  where
    some_buckets : grow_check t (add32 t.item_count 1) ≡ false → 0 < t.bucket_count
    some_buckets e = elim (Bool-cases (t.bucket_count == 0)) [
      | inl z ↦ absurd (clash (grow_check-none t v l (zero_of t.bucket_count z)) e)
      | inr z ↦ positive t.bucket_count z
    ]
      where
        clash : {b : Bool} → b ≡ true → b ≡ false → ⊥
        clash p q = cc

        zero_of : (n : ℕ) → (n == 0) ≡ true → n ≡ 0
        zero_of n z = ground arith

        positive : (n : ℕ) → (n == 0) ≡ false → 0 < n
        positive n z = ground arith

    double_pos : (n : ℕ) → n < 0x10000000 → (n == 0) ≡ false → 0 < mul32 n 2
    double_pos n h z = ground arith

    double_small : (n : ℕ) → n < 0x10000000 → mul32 n 2 < 0x20000000
    double_small n h = omega arith
