-- ===== src/Htable/Move.antt =====
-- The inner loop of `HashTableResize`, which moves the items of one chain into the new buckets.
use native.Mathlib.Nat.{mod-lt}
use chaff.Prelude.{
  ℕ, ◌+◌, ◌%◌, ◌<◌, ◌≡◌, refl, ap, subst, inl, inr, Option, none, some, List, [], ◌∷◌, ◌==◌,
  if◌then◌else◌, arith, Bool-cases, length, All,
}
use chaff.Htable.{Item, find_from_bucket, hash_of, key_compare, move_item, move_chain}
use chaff.Htable.Chain.{Distinct, HashedTo, key_compare_iff}
use chaff.Htable.Valid.{total, total-update}

-- The first of two search results that is one.
abbrev pub or_else : Option Item → Option Item → Option Item
or_else none b = b
or_else (some x) b = some x

-- What the new buckets hold for a key.
abbrev pub lookup : ℕ → (ℕ → List Item) → List ℕ → Option Item
lookup size f k = find_from_bucket (f (hash_of k % size)) k

abbrev pub Hashed : List Item → Type 0
Hashed = All (λ x. x.hash ≡ hash_of x.key)

pub HashedTo-Hashed : (size b : ℕ) (xs : List Item) → HashedTo size b xs → Hashed xs
HashedTo-Hashed size b [] h = tt
HashedTo-Hashed size b (x ∷ xs) h = (h.0.1, HashedTo-Hashed size b xs h.1)

module _ (size : ℕ) where
  pub lookup-move_item :
      (x : Item) (f : ℕ → List Item) (k : List ℕ)
      → x.hash ≡ hash_of x.key
      → lookup size (move_item size x f) k
        ≡ (if key_compare x.key k then some x else lookup size f k)
  unfolding move_item find_from_bucket
  lookup-move_item x f k h = elim (Bool-cases (key_compare x.key k)) [
    | inl e ↦
        let q : x.key ≡ k = (key_compare_iff x.key k).0 e in
        ground (arith, e, ap (λ c. hash_of c % size) q, ap (λ c. c % size) h)
    | inr e ↦ ground (arith, e)
  ]

  pub lookup-move_chain :
      (xs : List Item) (f : ℕ → List Item) (k : List ℕ)
      → Hashed xs
      → Distinct xs
      → lookup size (move_chain size xs f) k ≡ or_else (find_from_bucket xs k) (lookup size f k)
  unfolding move_chain
  lookup-move_chain [] f k h d = unfold find_from_bucket in refl
  lookup-move_chain (x ∷ xs) f k h d =
      rw (lookup-move_chain xs (move_item size x f) k h.1 d.1, lookup-move_item x f k h.0)
        (unfold find_from_bucket in
          ground
            (arith, d.0, key_compare_iff x.key k, λ (q : x.key ≡ k). ap (find_from_bucket xs) q))

  -- No item of the chain has its key in the new buckets yet.
  abbrev pub Fresh : List Item → (ℕ → List Item) → Type 0
  Fresh xs f = All (λ x. lookup size f x.key ≡ none) xs

  Fresh-move_item :
      (xs : List Item) (x : Item) (f : ℕ → List Item)
      → x.hash ≡ hash_of x.key
      → find_from_bucket xs x.key ≡ none
      → Fresh xs f
      → Fresh xs (move_item size x f)
  unfolding find_from_bucket
  Fresh-move_item [] x f h e r = tt
  Fresh-move_item (y ∷ ys) x f h e r = (
    rw (lookup-move_item x f y.key h)
        (ground (arith, e, r.0, key_compare_iff x.key y.key, key_compare_iff y.key x.key)),
    Fresh-move_item ys x f h (ground (arith, e)) r.1,
  )

  pub move_item-Distinct :
      (x : Item) (f : ℕ → List Item) (b : ℕ)
      → x.hash ≡ hash_of x.key
      → lookup size f x.key ≡ none
      → ((b : ℕ) → Distinct (f b))
      → Distinct (move_item size x f b)
  unfolding move_item
  move_item-Distinct x f b h r d = elim (Bool-cases (x.hash % size == b)) [
    | inl e ↦ rw e (rw h r, d (x.hash % size))
    | inr e ↦ rw e (d b)
  ]

  pub move_item-HashedTo :
      (x : Item) (f : ℕ → List Item) (b : ℕ)
      → x.hash ≡ hash_of x.key
      → ((b : ℕ) → HashedTo size b (f b))
      → HashedTo size b (move_item size x f b)
  unfolding move_item
  move_item-HashedTo x f b h p = elim (Bool-cases (x.hash % size == b)) [
    | inl e ↦
        let q : x.hash % size ≡ b = ground arith in
        rw e ((q, h), subst (λ c. HashedTo size c (f (x.hash % size))) q (p (x.hash % size)))
    | inr e ↦ rw e (p b)
  ]

  pub total-move_item :
      (x : Item) (f : ℕ → List Item) → 0 < size → total (move_item size x f) size ≡ total f size + 1
  unfolding move_item
  total-move_item x f pos =
      omega (arith, total-update f (x.hash % size) size (x ∷ f (x.hash % size)) (mod-lt x.hash pos))

  -- The new buckets while items are moved in.
  pub record IsFilling (f : ℕ → List Item) : Type 0 where
    pub hashed : (b : ℕ) → HashedTo size b (f b)
    pub distinct : (b : ℕ) → Distinct (f b)

  pub move_chain-IsFilling :
      (xs : List Item) (f : ℕ → List Item)
      → Hashed xs
      → Distinct xs
      → Fresh xs f
      → IsFilling f
      → IsFilling (move_chain size xs f)
  unfolding move_chain
  move_chain-IsFilling [] f h d r v = v
  move_chain-IsFilling (x ∷ xs) f h d r v =
      move_chain-IsFilling xs (move_item size x f) h.1 d.1 (Fresh-move_item xs x f h.0 d.0 r.1)
        (record {
          hashed = λ b. move_item-HashedTo x f b h.0 v.hashed;
          distinct = λ b. move_item-Distinct x f b h.0 r.0 v.distinct;
        })

  pub total-move_chain :
      (xs : List Item) (f : ℕ → List Item)
      → 0 < size
      → total (move_chain size xs f) size ≡ total f size + length xs
  unfolding move_chain
  total-move_chain [] f pos = omega arith
  total-move_chain (x ∷ xs) f pos =
      omega (arith, total-move_chain xs (move_item size x f) pos, total-move_item x f pos)
