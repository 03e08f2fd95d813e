-- ===== src/Htable/Chain.antt =====
-- Chains of htable.c: comparing keys, searching, and taking an item out.
use chaff.Prelude.{
  ℕ, ◌+◌, ◌%◌, ◌≡◌, refl, ap, ◌↔◌, ◌⊎◌, inl, inr, true, false, none, some, List, [], ◌∷◌, ◌==◌,
  if◌then◌else◌, arith, Bool-cases, Option-cases, length, All,
}
use chaff.Utils.Compare.{mem_cmp_self, mem_cmp-eq}
use chaff.Htable.{Item, key_compare, find_from_bucket, hash_of, unlink, the_key}

-- `HashTableKeyCompare` decides equality of the keys.
pub key_compare_iff : (a b : List ℕ) → (key_compare a b ≡ true) ↔ (a ≡ b)
unfolding key_compare
key_compare_iff a b =
    (λ h. ground (arith, mem_cmp-eq a b), λ e. rw e (ground (arith, mem_cmp_self b)))

-- No two items of a chain have the same key.
abbrev pub Distinct : List Item → Type 0
Distinct [] = Unit
Distinct (x ∷ xs) = (find_from_bucket xs x.key ≡ none) × Distinct xs

-- The items of a chain carry the hash of their keys, and belong in bucket `b` of `size`.
abbrev pub HashedTo : ℕ → ℕ → List Item → Type 0
HashedTo size b = All (λ x. (x.hash % size ≡ b) × (x.hash ≡ hash_of x.key))

-- A key that belongs in another bucket is not found.
pub find_elsewhere :
    (size b : ℕ) (xs : List Item) (k : List ℕ)
    → HashedTo size b xs
    → (hash_of k % size == b) ≡ false
    → find_from_bucket xs k ≡ none
unfolding find_from_bucket
find_elsewhere size b [] k h ne = refl
find_elsewhere size b (x ∷ xs) k (p, h) ne = elim (Bool-cases (key_compare x.key k)) [
  | inl e ↦ absurd (ground (arith, p, ap (λ c. hash_of c % size) ((key_compare_iff x.key k).0 e)))
  | inr e ↦ rw e (find_elsewhere size b xs k h ne)
]

-- What is found has the key that was asked for.
pub find-key : (xs : List Item) (k : List ℕ) (x : Item) → find_from_bucket xs k ≡ some x → x.key ≡ k
unfolding find_from_bucket
find-key [] k x e = cc
find-key (y ∷ ys) k x e = ground (arith, key_compare_iff y.key k, find-key ys k x)

-- Two keys that are compared with the same one agree.
key_compare_trans : (a b c : List ℕ) → key_compare a b ≡ true → key_compare a c ≡ key_compare b c
key_compare_trans a b c e = ap (λ d. key_compare d c) ((key_compare_iff a b).0 e)

-- Unlinking by key finds what the search finds.
pub unlink-none :
    (xs : List Item) (k : List ℕ) → find_from_bucket xs k ≡ none → unlink (the_key k) xs ≡ none
unfolding find_from_bucket unlink
unlink-none [] k e = refl
unlink-none (x ∷ xs) k e = ground (arith, unlink-none xs k)

pub unlink-some :
    (xs : List Item) (k : List ℕ) (x : Item)
    → find_from_bucket xs k ≡ some x
    → (ys : List Item) × (unlink (the_key k) xs ≡ some ys)
unfolding find_from_bucket unlink
unlink-some [] k x e = cc
unlink-some (y ∷ xs) k x e = elim (Bool-cases (key_compare y.key k)) [
  | inl b ↦ (xs, ground arith)
  | inr b ↦ let (ys, u) = unlink-some xs k x (ground arith) in (y ∷ ys, ground arith)
]

-- How a chain that has been unlinked from came about: its first item went, or a later one did.
unlink_cases :
    (k : List ℕ) (x : Item) (xs ys : List Item)
    → unlink (the_key k) (x ∷ xs) ≡ some ys
    → ((key_compare x.key k ≡ true) × (ys ≡ xs))
      ⊎ ((key_compare x.key k ≡ false)
          × ((zs : List Item) × (unlink (the_key k) xs ≡ some zs) × (ys ≡ x ∷ zs)))
unfolding unlink
unlink_cases k x xs ys u = elim (Bool-cases (key_compare x.key k)) [
  | inl b ↦ inl (b, ground arith)
  | inr b ↦ elim (Option-cases (unlink (the_key k) xs)) [
    | inl e ↦ absurd (ground arith)
    | inr (zs, e) ↦ inr (b, (zs, e, ground arith))
  ]
]

module _ (k : List ℕ) where
  -- Unlinking takes the key out of the chain and leaves what is found for every other key.
  pub find-unlink :
      (xs ys : List Item) (j : List ℕ)
      → Distinct xs
      → unlink (the_key k) xs ≡ some ys
      → find_from_bucket ys j ≡ (if key_compare k j then none else find_from_bucket xs j)
  unfolding find_from_bucket
  find-unlink [] ys j d u = absurd (unfold unlink in cc)
  find-unlink (x ∷ xs) ys j d u = elim (unlink_cases k x xs ys u) [
    | inl (b, e) ↦ ground (
      arith,
      ap (λ l. find_from_bucket l j) e,
      key_compare_trans x.key k j b,
      key_compare_iff x.key j,
      λ (q : x.key ≡ j). ap (find_from_bucket xs) q,
    )
    | inr (b, (zs, v, e)) ↦ ground (
      arith,
      ap (λ l. find_from_bucket l j) e,
      find-unlink xs zs j d.1 v,
      key_compare_iff k j,
      key_compare_iff x.key j,
      key_compare_iff x.key k,
    )
  ]

  pub length-unlink :
      (xs ys : List Item) → unlink (the_key k) xs ≡ some ys → length xs ≡ length ys + 1
  length-unlink [] ys u = absurd (unfold unlink in cc)
  length-unlink (x ∷ xs) ys u = elim (unlink_cases k x xs ys u) [
    | inl (b, e) ↦ omega (arith, ap length e)
    | inr (b, (zs, v, e)) ↦ omega (arith, ap length e, length-unlink xs zs v)
  ]

  pub unlink-Distinct :
      (xs ys : List Item) → Distinct xs → unlink (the_key k) xs ≡ some ys → Distinct ys
  unlink-Distinct [] ys d u = absurd (unfold unlink in cc)
  unlink-Distinct (x ∷ xs) ys d u = elim (unlink_cases k x xs ys u) [
    | inl (b, e) ↦ rw e d.1
    | inr (b, (zs, v, e)) ↦
        rw e (ground (arith, find-unlink xs zs x.key d.1 v), unlink-Distinct xs zs d.1 v)
  ]

  pub unlink-All {ℓ} :
      (P : Item → Type ℓ) (xs ys : List Item)
      → All P xs
      → unlink (the_key k) xs ≡ some ys
      → All P ys
  unlink-All P [] ys a u = absurd (unfold unlink in cc)
  unlink-All P (x ∷ xs) ys a u = elim (unlink_cases k x xs ys u) [
    | inl (b, e) ↦ rw e a.1
    | inr (b, (zs, v, e)) ↦ rw e (a.0, unlink-All P xs zs a.1 v)
  ]
