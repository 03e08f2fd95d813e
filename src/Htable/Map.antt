-- ===== src/Htable/Map.antt =====
-- The hash table refines a partial map from keys to items.
use chaff.Prelude.{
  ℕ, ◌+◌, ◌≤◌, ◌≡◌, refl, ap, ◌∙◌, inl, inr, Bool, true, false, Option, none, some, List, [], ◌∷◌,
  if◌then◌else◌, arith, Option-cases, length,
}
use chaff.Htable.{
  Item, Table, Target, the_key, insert, remove_key_item, remove, find, key_compare, make_item,
}
use chaff.Htable.Valid.{IsValid}
use chaff.Htable.Grow.{max_items, IsBounded}
use chaff.Htable.Insert.{insert_new, insert_old}
use chaff.Htable.Remove.{remove_missing, remove_found}

-- The calls that a user of a table makes.
pub data Call : Type 0 where
  inserts : ℕ → List ℕ → Call
  removes : List ℕ → Call
  finds : List ℕ → Call

pub data Answer : Type 0 where
  did : Bool → Answer
  found : Option Item → Answer
  overrun : Answer

-- The answers of a table to a list of calls, none after one that overruns an array.
pub run_table : Table → List Call → List Answer
run_table t [] = []
run_table t (inserts id k ∷ cs) = elim (insert t id k) [
  | none ↦ overrun ∷ []
  | some (done, u) ↦ did done ∷ run_table u cs
]
run_table t (removes k ∷ cs) = did (remove t k).0 ∷ run_table (remove t k).1 cs
run_table t (finds k ∷ cs) = found (find t k) ∷ run_table t cs

abbrev pub PartialMap : Type 0
PartialMap = List ℕ → Option Item

abbrev pub is_some : Option Item → Bool
is_some none = false
is_some (some x) = true

abbrev pub put : List ℕ → Option Item → PartialMap → PartialMap
put k o m j = if key_compare k j then o else m j

-- The answers that a partial map gives: an insertion never replaces, and says whether it was made.
pub run_map : PartialMap → List Call → List Answer
run_map m [] = []
run_map m (inserts id k ∷ cs) = elim (m k) [
  | none ↦ did true ∷ run_map (put k (some (make_item id k)) m) cs
  | some x ↦ did false ∷ run_map m cs
]
run_map m (removes k ∷ cs) = elim (m k) [
  | none ↦ did false ∷ run_map m cs
  | some x ↦ did true ∷ run_map (put k none m) cs
]
run_map m (finds k ∷ cs) = found (m k) ∷ run_map m cs

by_points : {m n : PartialMap} → ((j : List ℕ) → m j ≡ n j) → m ≡ n
by_points h = λ i j. h j i

bucket_count-remove_key_item :
    (t : Table) (w : Target) → (remove_key_item t w).1.bucket_count ≡ t.bucket_count
unfolding remove_key_item
bucket_count-remove_key_item t w = ground arith

bucket_count-remove : (t : Table) (k : List ℕ) → (remove t k).1.bucket_count ≡ t.bucket_count
unfolding remove
bucket_count-remove t k = bucket_count-remove_key_item t (the_key k)

-- A valid table of fewer than 2^29 buckets, with room for as many items as there are calls among the 2^26
-- that the kernel's addresses have room for, answers every list of calls of `HashTableInsert`,
-- `HashTableRemove` and `HashTableFind` as the partial map that it stands for does: its hashes,
-- chains and resizes are not seen, and no array is overrun.
pub run_table-refines :
    (cs : List Call) (t : Table)
    → IsValid t
    → IsBounded t
    → t.item_count + length cs ≤ max_items
    → run_table t cs ≡ run_map (find t) cs
unfolding run_table run_map
run_table-refines [] t v b h = refl
run_table-refines (inserts id k ∷ cs) t v b h = elim (Option-cases (find t k)) [
  | inl e ↦
      let (u, done, valid, bounded, count, lookup) = insert_new t id k v b e (omega (arith, h)) in
      rw (run_table, run_map, e, done)
        (ap (λ answers. did true ∷ answers)
          (run_table-refines cs u valid bounded (omega (arith, count, h))
            ∙ ap (λ m. run_map m cs) (by_points lookup)))
  | inr (x, e) ↦
      let (u, done, valid, bounded, count, lookup) = insert_old t id k v b x e (omega (arith, h)) in
      rw (run_table, run_map, e, done)
        (ap (λ answers. did false ∷ answers)
          (run_table-refines cs u valid bounded (omega (arith, count, h))
            ∙ ap (λ m. run_map m cs) (by_points lookup)))
]
run_table-refines (removes k ∷ cs) t v b h = elim (Option-cases (find t k)) [
  | inl e ↦
      rw (run_table, run_map, e, remove_missing t k v e)
        (ap (λ answers. did false ∷ answers) (run_table-refines cs t v b (omega (arith, h))))
  | inr (x, e) ↦
      let (done, valid, count, lookup) = remove_found t k x v e (omega (arith, h)) in
      rw (run_table, run_map, e, done)
        (ap (λ answers. did true ∷ answers)
          (run_table-refines cs (remove t k).1 valid (omega (arith, b, bucket_count-remove t k))
              (omega (arith, count, h))
            ∙ ap (λ m. run_map m cs) (by_points lookup)))
]
run_table-refines (finds k ∷ cs) t v b h =
    ap (λ answers. found (find t k) ∷ answers) (run_table-refines cs t v b (omega (arith, h)))
