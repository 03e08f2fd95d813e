-- ===== src/Htable/Insert.antt =====
-- `HashTableInsert`: the map from keys to items after it.
use chaff.Prelude.{
  ℕ, ◌+◌, ◌<◌, ◌≡◌, refl, ap, true, false, ◌∙◌, sym, none, some, List, if◌then◌else◌, arith, add32,
  u32_mod,
}
use chaff.Htable.{Item, Table, insert, insert_item, make_item, find, key_compare, move_item}
use chaff.Htable.Valid.{IsValid, chain_find, find-eq-chain_find}
use chaff.Htable.Move.{lookup-move_item, move_item-Distinct, move_item-HashedTo, total-move_item}
use chaff.Htable.Grow.{max_items, IsBounded, IsGrown, grow-IsGrown}

-- The table with an item linked in.
abbrev linked : Table → Item → Table
linked t x = record t {
  buckets = move_item t.bucket_count x t.buckets;
  item_count = add32 t.item_count 1;
}

insert_item-none :
    (t : Table) (id : ℕ) (k : List ℕ)
    → chain_find t k ≡ none
    → insert_item (make_item id k) t ≡ (true, linked t (make_item id k))
unfolding insert_item move_item
insert_item-none t id k e = rw (e, insert_item)

insert_item-some :
    (t : Table) (id : ℕ) (k : List ℕ) (x : Item)
    → chain_find t k ≡ some x
    → insert_item (make_item id k) t ≡ (false, t)
unfolding insert_item
insert_item-some t id k x e = rw (e, insert_item)

linked-IsValid :
    (t : Table) (id : ℕ) (k : List ℕ)
    → IsValid t
    → 0 < t.bucket_count
    → t.item_count + 1 < u32_mod
    → chain_find t k ≡ none
    → IsValid (linked t (make_item id k))
linked-IsValid t id k v pos small e = record {
  placed = λ b. move_item-HashedTo t.bucket_count (make_item id k) t.buckets b refl v.placed;
  distinct = λ b. move_item-Distinct t.bucket_count (make_item id k) t.buckets b refl e v.distinct;
  counted = omega (arith, v.counted, total-move_item t.bucket_count (make_item id k) t.buckets pos);
}

module _ (t : Table) (id : ℕ) (k : List ℕ) (v : IsValid t) (bounded : IsBounded t) where
  in_chain : (u : Table) → IsGrown t u → (j : List ℕ) → chain_find u j ≡ find t j
  in_chain u g j = sym (find-eq-chain_find u j g.valid g.has_buckets) ∙ g.same_finds j

  -- `HashTableInsert` of a key that a valid table of fewer than 2^29 buckets lacks, with fewer than
  -- 2^26 items, as many as the kernel's addresses have room for: it overruns no array and returns
  -- true, the table stays valid, with fewer than 2^29 buckets, and counts one item more, the key
  -- leads to the new item, and every other key leads where it led before.
  pub insert_new :
      find t k ≡ none
      → t.item_count < max_items
      → (u : Table) × (insert t id k ≡ some (true, u))
        × IsValid u
        × IsBounded u
        × (u.item_count ≡ t.item_count + 1)
        × ((j : List ℕ) → find u j ≡ (if key_compare k j then some (make_item id k) else find t j))
  unfolding insert
  insert_new e small =
      let (u, r, g) = grow-IsGrown t v bounded small in
      let counted : u.item_count + 1 < u32_mod = omega (arith, g.same_count, small) in
      let valid = linked-IsValid u id k g.valid g.has_buckets counted (in_chain u g k ∙ e) in
      (
        linked u (make_item id k),
        rw (r, insert) (rw (insert_item-none u id k (in_chain u g k ∙ e)) refl),
        valid,
        g.bounded,
        omega (arith, g.same_count, small),
        λ j.
            find-eq-chain_find (linked u (make_item id k)) j valid g.has_buckets
            ∙ lookup-move_item u.bucket_count (make_item id k) u.buckets j refl
            ∙ ap (λ o. if key_compare k j then some (make_item id k) else o) (in_chain u g j),
      )

  -- `HashTableInsert` of a key that such a table has returns false, and leaves the table valid, with
  -- as many items, and every key leading where it led before.
  pub insert_old :
      (x : Item)
      → find t k ≡ some x
      → t.item_count < max_items
      → (u : Table) × (insert t id k ≡ some (false, u))
        × IsValid u
        × IsBounded u
        × (u.item_count ≡ t.item_count)
        × ((j : List ℕ) → find u j ≡ find t j)
  unfolding insert
  insert_old x e small =
      let (u, r, g) = grow-IsGrown t v bounded small in
      (
        u,
        rw (r, insert) (rw (insert_item-some u id k x (in_chain u g k ∙ e)) refl),
        g.valid,
        g.bounded,
        g.same_count,
        g.same_finds,
      )
