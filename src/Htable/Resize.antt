-- ===== src/Htable/Resize.antt =====
-- `HashTableResize`: every item is found after it as before, and the invariant is kept.
use native.Mathlib.Nat.{mod-lt, add-zero, zero-add}
use native.Mathlib.Numerals.{add-one}
use chaff.Prelude.{
  ℕ, zero, suc, ◌+◌, ◌*◌, ◌%◌, u32_mod, ◌≤◌, ◌<◌, ◌≡◌, refl, sym, ap, ◌∙◌, inl, inr, ◌&&◌, true,
  false, Option, none, some, List, [], ◌∷◌, ltb, leb, ◌==◌, if◌then◌else◌, arith, Bool-cases,
}
use chaff.Htable.{
  Item, Table, find_from_bucket, hash_of, move_chain, move_from, rehash, array_bytes, resize, find,
}
use chaff.Htable.Chain.{HashedTo, find_elsewhere}
use chaff.Htable.Valid.{IsValid, total, chain_find, find-eq-chain_find, find_no_buckets}
use chaff.Htable.Move.{
  or_else, lookup, HashedTo-Hashed, lookup-move_chain, Fresh, IsFilling, move_chain-IsFilling,
  total-move_chain,
}

-- The outer loop, over the buckets of a valid table.
module _ (t : Table) (v : IsValid t) (size : ℕ) where
  abbrev bucket : List ℕ → ℕ
  bucket k = hash_of k % t.bucket_count

  lookup-move_from :
      (i n : ℕ) (f : ℕ → List Item) (k : List ℕ)
      → lookup size (move_from size t.buckets i n f) k ≡ (
          if leb i (bucket k) && ltb (bucket k) (i + n)
          then or_else (chain_find t k) (lookup size f k)
          else lookup size f k)
  unfolding move_from
  lookup-move_from i zero f k = ground arith
  lookup-move_from i (suc n) f k =
      rw
        (
          lookup-move_from (i + 1) n (move_chain size (t.buckets i) f) k,
          lookup-move_chain size (t.buckets i) f k
              (HashedTo-Hashed t.bucket_count i (t.buckets i) (v.placed i)) (v.distinct i),
        )
        (elim (Bool-cases (bucket k == i)) [
          | inl e ↦ ground (arith, ap (λ b. find_from_bucket (t.buckets b) k) (eq e))
          | inr e ↦ ground (arith, find_elsewhere t.bucket_count i (t.buckets i) k (v.placed i) e)
        ])
    where
      eq : (bucket k == i) ≡ true → bucket k ≡ i
      eq e = ground arith

  -- No key of a bucket that is still to come is in the new buckets.
  abbrev Awaits : ℕ → (ℕ → List Item) → Type 0
  Awaits i f = (k : List ℕ) → i ≤ bucket k → lookup size f k ≡ none

  HashedTo-Fresh :
      (i : ℕ) (xs : List Item) (f : ℕ → List Item)
      → HashedTo t.bucket_count i xs
      → Awaits i f
      → Fresh size xs f
  HashedTo-Fresh i [] f h w = tt
  HashedTo-Fresh i (x ∷ xs) f h w = (
    w x.key (omega (arith, h.0.0, ap (λ c. c % t.bucket_count) h.0.1)),
    HashedTo-Fresh i xs f h.1 w,
  )

  Awaits-move_chain :
      (i : ℕ) (f : ℕ → List Item) → Awaits i f → Awaits (i + 1) (move_chain size (t.buckets i) f)
  Awaits-move_chain i f w k h =
      rw
        (lookup-move_chain size (t.buckets i) f k
          (HashedTo-Hashed t.bucket_count i (t.buckets i) (v.placed i)) (v.distinct i))
        (ground (arith, find_elsewhere t.bucket_count i (t.buckets i) k (v.placed i), w k))

  move_from-IsFilling :
      (i n : ℕ) (f : ℕ → List Item)
      → Awaits i f
      → IsFilling size f
      → IsFilling size (move_from size t.buckets i n f)
  unfolding move_from
  move_from-IsFilling i zero f w g = g
  move_from-IsFilling i (suc n) f w g =
      move_from-IsFilling (i + 1) n (move_chain size (t.buckets i) f) (Awaits-move_chain i f w) (
        move_chain-IsFilling size (t.buckets i) f
          (HashedTo-Hashed t.bucket_count i (t.buckets i) (v.placed i)) (v.distinct i)
          (HashedTo-Fresh i (t.buckets i) f (v.placed i) w) g)

  total-move_from :
      (i n : ℕ) (f : ℕ → List Item)
      → 0 < size
      → total (move_from size t.buckets i n f) size + total t.buckets i
        ≡ total f size + total t.buckets (i + n)
  unfolding move_from total
  total-move_from i zero f pos = omega (arith, ap (total t.buckets) (add-zero i))
  total-move_from i (suc n) f pos = omega (
    arith,
    total-move_from (i + 1) n (move_chain size (t.buckets i) f) pos,
    total-move_chain size (t.buckets i) f pos,
    ap (total t.buckets) (add-one i),
    ap (total t.buckets) (shift i n),
  )
    where
      shift : (i n : ℕ) → i + 1 + n ≡ i + suc n
      shift i n = omega arith

-- No bucket of the wiped array holds anything.
total-empty : (n : ℕ) → total (λ _. []) n ≡ 0
unfolding total
total-empty zero = refl
total-empty (suc n) = omega (arith, total-empty n)

-- The moving keeps a valid table valid.
pub rehash-IsValid : (t : Table) (size : ℕ) → IsValid t → 0 < size → IsValid (rehash t size)
unfolding rehash total
rehash-IsValid t size v pos = record {
  placed = filling.hashed;
  distinct = filling.distinct;
  counted = omega (
    arith,
    v.counted,
    total-move_from t v size 0 t.bucket_count (λ _. []) pos,
    total-empty size,
    ap (total t.buckets) (zero-add t.bucket_count),
  );
}
  where
    filling : IsFilling size (move_from size t.buckets 0 t.bucket_count (λ _. []))
    filling =
        move_from-IsFilling t v size 0 t.bucket_count (λ _. [])
          (λ k h. unfold find_from_bucket in refl) (record { hashed = λ b. tt; distinct = λ b. tt })

or_else-none : (a : Option Item) → or_else a none ≡ a
or_else-none none = refl
or_else-none (some x) = refl

-- With buckets before and after, a key's new chain holds for it what its old one did.
chain_find-rehash :
    (t : Table) (size : ℕ) (k : List ℕ)
    → IsValid t
    → 0 < t.bucket_count
    → chain_find (rehash t size) k ≡ chain_find t k
unfolding rehash
chain_find-rehash t size k v old =
    rw (lookup-move_from t v size 0 t.bucket_count (λ _. []) k, inside)
      (unfold find_from_bucket in or_else-none (chain_find t k))
  where
    inside : (leb 0 (bucket t v size k) && ltb (bucket t v size k) (0 + t.bucket_count)) ≡ true
    inside = ground (arith, mod-lt (hash_of k) {m = t.bucket_count} old)

find-rehash_no_buckets :
    (t : Table) (size : ℕ) (k : List ℕ)
    → IsValid t
    → t.bucket_count ≡ 0
    → find (rehash t size) k ≡ none
unfolding rehash find total
find-rehash_no_buckets t size k v e = ground (arith, v.counted, ap (total t.buckets) e)

pub bucket_count-rehash : (t : Table) (size : ℕ) → (rehash t size).bucket_count ≡ size
unfolding rehash
bucket_count-rehash t size = refl

pub item_count-rehash : (t : Table) (size : ℕ) → (rehash t size).item_count ≡ t.item_count
unfolding rehash
item_count-rehash t size = refl

-- It changes no search.
pub find-rehash :
    (t : Table) (size : ℕ) (k : List ℕ) → IsValid t → 0 < size → find (rehash t size) k ≡ find t k
find-rehash t size k v pos = elim (Bool-cases (t.bucket_count == 0)) [
  | inl b ↦
      find-rehash_no_buckets t size k v (ground arith) ∙ sym (find_no_buckets t k v (ground arith))
  | inr b ↦
      find-eq-chain_find (rehash t size) k (rehash-IsValid t size v pos)
        (omega (arith, bucket_count-rehash t size, pos))
      ∙ chain_find-rehash t size k v (not_none t.bucket_count b)
      ∙ sym (find-eq-chain_find t k v (not_none t.bucket_count b))
]
  where
    not_none : (n : ℕ) → (n == 0) ≡ false → 0 < n
    not_none n h = ground arith

-- Sizes below 2^30 are those whose array has room for the buckets.
pub resize-rehash :
    (t : Table) (size : ℕ) → 0 < size → size < 0x40000000 → resize t size ≡ some (rehash t size)
unfolding resize
resize-rehash t size pos l = rw (not_zero size pos, resize) (rw (fits size l) refl)
  where
    not_zero : (n : ℕ) → 0 < n → (n == 0) ≡ false
    not_zero n h = ground arith

    fits : (n : ℕ) → n < 0x40000000 → ltb (array_bytes n) (4 * n) ≡ false
    fits n h = ground arith

-- To more buckets it overruns the array.
pub resize_overruns :
    (t : Table) (size : ℕ) → 0x40000000 ≤ size → size < u32_mod → resize t size ≡ none
unfolding resize
resize_overruns t size l h = rw (not_zero size l, resize) (rw (short size l h) refl)
  where
    not_zero : (n : ℕ) → 0x40000000 ≤ n → (n == 0) ≡ false
    not_zero n h = ground arith

    short : (n : ℕ) → 0x40000000 ≤ n → n < u32_mod → ltb (array_bytes n) (4 * n) ≡ true
    short n l h = ground arith
