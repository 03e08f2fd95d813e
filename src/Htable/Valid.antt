-- ===== src/Htable/Valid.antt =====
-- The invariant of a hash table, and what it says of `HashTableFind`.
use chaff.Prelude.{
  ℕ, zero, suc, ◌+◌, ◌%◌, ◌≤◌, ◌<◌, ◌≡◌, refl, ap, inl, inr, true, Option, none, List, [], ◌∷◌,
  ◌==◌, arith, Bool-cases, length, update,
}
use native.Mathlib.Nat.{mod-lt}
use chaff.Htable.{Item, Table, find_from_bucket, hash_of, find}
use chaff.Htable.Chain.{Distinct, HashedTo}

-- The items in the first `n` buckets.
unfoldable pub total : (ℕ → List Item) → ℕ → ℕ
total f zero = 0
total f (suc n) = total f n + length (f n)

pub record IsValid (t : Table) : Type 0 where
  pub placed : (b : ℕ) → HashedTo t.bucket_count b (t.buckets b)
  pub distinct : (b : ℕ) → Distinct (t.buckets b)
  pub counted : t.item_count ≡ total t.buckets t.bucket_count

-- What the chain that a key belongs in holds for it.
abbrev pub chain_find : Table → List ℕ → Option Item
chain_find t k = find_from_bucket (t.buckets (hash_of k % t.bucket_count)) k

pub total-update_above :
    (f : ℕ → List Item) (b n : ℕ) (l : List Item) → n ≤ b → total (update f b l) n ≡ total f n
unfolding total
total-update_above f b zero l h = refl
total-update_above f b (suc n) l h = ground (arith, total-update_above f b n l)

pub total-update :
    (f : ℕ → List Item) (b n : ℕ) (l : List Item)
    → b < n
    → total (update f b l) n + length (f b) ≡ total f n + length l
unfolding total
total-update f b zero l h = absurd (omega arith)
total-update f b (suc n) l h = elim (Bool-cases (b == n)) [
  | inl e ↦ let q : b ≡ n = ground arith in rw (e, ← q) (omega (arith, total-update_above f b b l))
  | inr e ↦ rw e (omega (arith, total-update f b n l (ground arith)))
]

empty_of_total : (f : ℕ → List Item) (n b : ℕ) → b < n → total f n ≡ 0 → f b ≡ []
unfolding total
empty_of_total f zero b h e = absurd (omega arith)
empty_of_total f (suc n) b h e = elim (Bool-cases (b == n)) [
  | inl q ↦ no_items (f b) (ground (arith, ap (λ i. length (f i)) (eq q)))
  | inr q ↦ empty_of_total f n b (ground arith) (omega arith)
]
  where
    eq : (b == n) ≡ true → b ≡ n
    eq q = ground arith

    no_items : (l : List Item) → length l ≡ 0 → l ≡ []
    no_items [] h = refl
    no_items (x ∷ xs) h = absurd (omega arith)

-- A valid table's search is that of the key's chain.
pub find-eq-chain_find :
    (t : Table) (k : List ℕ) → IsValid t → 0 < t.bucket_count → find t k ≡ chain_find t k
unfolding find
find-eq-chain_find t k v pos = elim (Bool-cases (t.item_count == 0)) [
  | inl e ↦
      rw
        (
          e,
          empty_of_total t.buckets t.bucket_count (hash_of k % t.bucket_count) (mod-lt _ pos)
              (ground (arith, v.counted)),
        )
        (unfold find_from_bucket in refl)
  | inr e ↦ rw e
]

-- A table with no buckets finds nothing.
pub find_no_buckets : (t : Table) (k : List ℕ) → IsValid t → t.bucket_count ≡ 0 → find t k ≡ none
unfolding find total
find_no_buckets t k v e = ground (arith, v.counted, ap (total t.buckets) e)
