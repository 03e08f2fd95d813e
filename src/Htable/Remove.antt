-- ===== src/Htable/Remove.antt =====
-- `HashTableRemove`: the map from keys to items after it.
use native.Mathlib.Nat.{mod-lt}
use chaff.Prelude.{
  ℕ, ◌+◌, ◌%◌, ◌<◌, ◌≡◌, refl, ap, subst, inl, inr, sym, ◌∙◌, true, false, none, some, List, ◌==◌,
  if◌then◌else◌, arith, Bool-cases, update, sub32, u32_mod,
}
use chaff.Htable.{
  Item, Table, remove, remove_key_item, the_key, unlink, hash_of, find, key_compare,
  find_from_bucket,
}
use chaff.Htable.Chain.{
  HashedTo, key_compare_iff, unlink-none, unlink-some, find-unlink, length-unlink, unlink-Distinct,
  unlink-All,
}
use chaff.Htable.Valid.{IsValid, total-update, chain_find, find-eq-chain_find, find_no_buckets}

abbrev home : Table → List ℕ → ℕ
home t k = hash_of k % t.bucket_count

-- The table with a key's chain replaced by one that has lost an item.
abbrev unlinked : Table → List ℕ → List Item → Table
unlinked t k ys = record t {
  buckets = update t.buckets (home t k) ys;
  item_count = sub32 t.item_count 1;
}

-- A key that is found stands in a chain, so there are buckets, and the count is not 0.
found_pos : (t : Table) (k : List ℕ) (x : Item) → IsValid t → find t k ≡ some x → 0 < t.bucket_count
found_pos t k x v e = elim (Bool-cases (t.bucket_count == 0)) [
  | inl b ↦ absurd (ground (arith, find_no_buckets t k v (ground arith)))
  | inr b ↦ ground arith
]

found_count : (t : Table) (k : List ℕ) (x : Item) → find t k ≡ some x → (t.item_count == 0) ≡ false
unfolding find
found_count t k x e = ground arith

-- `HashTableRemove` of a key that a valid table lacks returns false and changes nothing.
pub remove_missing :
    (t : Table) (k : List ℕ) → IsValid t → find t k ≡ none → remove t k ≡ (false, t)
unfolding remove find
remove_missing t k v e = elim (Bool-cases (t.item_count == 0)) [
  | inl b ↦ rw b
  | inr b ↦ rw b (rw (unlink-none (t.buckets (home t k)) k (rw b at e), remove_key_item) refl)
]

module _ (t : Table) (k : List ℕ) (x : Item) (v : IsValid t) (e : find t k ≡ some x) where
  pos : 0 < t.bucket_count
  pos = found_pos t k x v e

  in_chain : chain_find t k ≡ some x
  in_chain = sym (find-eq-chain_find t k v pos) ∙ e

  module _ (ys : List Item) (u : unlink (the_key k) (t.buckets (home t k)) ≡ some ys) where
    unlinked-IsValid : t.item_count < u32_mod → IsValid (unlinked t k ys)
    unlinked-IsValid small = record {
      placed = λ b. elim (Bool-cases (home t k == b)) [
        | inl q ↦ rw q (
            subst (λ c. HashedTo t.bucket_count c ys) (eq b q)
              (unlink-All k _ (t.buckets (home t k)) ys (v.placed (home t k)) u))
        | inr q ↦ rw q (v.placed b)
      ];
      distinct = λ b. elim (Bool-cases (home t k == b)) [
        | inl q ↦ rw q (unlink-Distinct k (t.buckets (home t k)) ys (v.distinct (home t k)) u)
        | inr q ↦ rw q (v.distinct b)
      ];
      counted = omega (
        arith,
        v.counted,
        total-update t.buckets (home t k) t.bucket_count ys (mod-lt (hash_of k) pos),
        length-unlink k (t.buckets (home t k)) ys u,
      );
    }
      where
        eq : (b : ℕ) → (home t k == b) ≡ true → home t k ≡ b
        eq b q = ground arith

    chain_find-unlinked :
        (j : List ℕ)
        → chain_find (unlinked t k ys) j ≡ (if key_compare k j then none else chain_find t j)
    chain_find-unlinked j = elim (Bool-cases (home t k == home t j)) [
      | inl q ↦
          rw (q, find-unlink k (t.buckets (home t k)) ys j (v.distinct (home t k)) u)
            (ap (λ b. if key_compare k j then none else find_from_bucket (t.buckets b) j)
              (ground arith))
      | inr q ↦ rw (q, other q) refl
    ]
      where
        other : (home t k == home t j) ≡ false → key_compare k j ≡ false
        other q = elim (Bool-cases (key_compare k j)) [
          | inl c ↦ absurd (ground (arith, ap (home t) ((key_compare_iff k j).0 c)))
          | inr c ↦ c
        ]

  -- `HashTableRemove` of a key that a valid table has, with a count of 32 bits: it returns true, the
  -- table stays valid and counts one item less, the key leads nowhere, and every other key leads where
  -- it led before.
  pub remove_found :
      t.item_count < u32_mod
      → let (done, s) = remove t k in
        (done ≡ true)
        × IsValid s
        × (s.item_count + 1 ≡ t.item_count)
        × ((j : List ℕ) → find s j ≡ (if key_compare k j then none else find t j))
  unfolding remove
  remove_found small =
      let (ys, u) = unlink-some (t.buckets (home t k)) k x in_chain in
      rw (found_count t k x e) (
        rw (u, remove_key_item)
          (
            refl,
            unlinked-IsValid ys u small,
            ground (arith, found_count t k x e),
            λ j.
                find-eq-chain_find _ j (unlinked-IsValid ys u small) pos
                ∙ chain_find-unlinked ys u j
                ∙ ap (λ o. if key_compare k j then none else o)
                    (sym (find-eq-chain_find t j v pos)),
          ))
