-- ===== src/Htable.antt =====
-- kernel/src/htable.c: the chained hash table, with resizing. A key is the list of its bytes, which
-- stay as they are while the item is in the table, as the header demands. An item in a chain is its
-- address with the fields that the table set in it; the array of buckets is a function.
pub mod Chain
pub mod Valid
pub mod Move
pub mod Resize
pub mod Grow
pub mod Insert
pub mod Remove
pub mod Reserve
pub mod Map
mod Tests
use Prim.Native.Nat.{bit_xor}
use chaff.Prelude.{
  ℕ, zero, suc, ◌+◌, ◌/◌, ◌%◌, ◌*◌, Bool, true, false, ◌&&◌, Option, none, some, List, [], ◌∷◌, ltb,
  leb, ◌==◌, if◌then◌else◌, length, update, add32, sub32, mul32,
}
use chaff.Utils.{Sign, equal, mem_cmp, char_to_u32}

pub record Item : Type 0 where
  pub id : ℕ
  pub key : List ℕ
  pub hash : ℕ

pub record Table : Type 0 where
  pub buckets : ℕ → List Item
  pub bucket_count : ℕ
  pub item_count : ℕ

-- `HASH_INITIAL_SIZE`, `HASH_THRESHOLD_REF`, `HASH_THRESHOLD_GROW`, `HASH_THRESHOLD_SHRINK`
abbrev pub initial_size : ℕ
initial_size = 1024

abbrev pub threshold_ref : ℕ
threshold_ref = 8

abbrev pub threshold_grow : ℕ
threshold_grow = 7

abbrev pub threshold_shrink : ℕ
threshold_shrink = 1

-- The loop of `HashTableHash`.
hash_from : ℕ → List ℕ → ℕ
unfolding char_to_u32
hash_from h [] = h
hash_from h (c ∷ cs) = hash_from (mul32 (bit_xor h (char_to_u32 c)) 16777619) cs

-- `HashTableHash`
pub hash_of : List ℕ → ℕ
unfolding hash_from
hash_of = hash_from 2166136261

-- `HashTableKeyCompare`
pub key_compare : List ℕ → List ℕ → Bool
unfolding mem_cmp
key_compare a b = length a == length b && elim (mem_cmp (length a) a b) [ equal ↦ true | _ ↦ false ]

-- `HashTableFindFromBucket`
pub find_from_bucket : List Item → List ℕ → Option Item
find_from_bucket [] k = none
find_from_bucket (x ∷ xs) k = if key_compare x.key k then some x else find_from_bucket xs k

-- The body of the inner loop of `HashTableResize`.
pub move_item : ℕ → Item → (ℕ → List Item) → ℕ → List Item
move_item size x new = update new (x.hash % size) (x ∷ new (x.hash % size))

pub move_chain : ℕ → List Item → (ℕ → List Item) → ℕ → List Item
unfolding move_item
move_chain size [] new = new
move_chain size (x ∷ xs) new = move_chain size xs (move_item size x new)

-- The outer loop: `n` old buckets from `i` on.
pub move_from : ℕ → (ℕ → List Item) → ℕ → ℕ → (ℕ → List Item) → ℕ → List Item
unfolding move_chain
move_from size old i zero new = new
move_from size old i (suc n) new = move_from size old (i + 1) n (move_chain size (old i) new)

-- The moving of all items into a new array, which `MemVirtualZAlloc` has wiped.
pub rehash : Table → ℕ → Table
unfolding move_from
rehash t size = record t {
  buckets = move_from size t.buckets 0 t.bucket_count (λ _. []);
  bucket_count = size;
}

-- The bytes of the new array, `sizeof(HashItem *) * newSize` in 32 bits.
abbrev pub array_bytes : ℕ → ℕ
array_bytes size = mul32 4 size

-- `HashTableResize`; `none` where the new array has fewer bytes than its buckets take, and is overrun.
pub resize : Table → ℕ → Option Table
unfolding rehash
resize t size =
    if size == 0
    then some t
    else if ltb (array_bytes size) (4 * size)
    then none
    else some (rehash t size)

-- `HashTableGrowCheck`
pub grow_check : Table → ℕ → Bool
grow_check t count = ltb (mul32 t.bucket_count threshold_grow / threshold_ref) count

-- The resizing at the start of `HashTableInsert`.
pub grow : Table → Option Table
unfolding grow_check resize
grow t =
    if grow_check t (add32 t.item_count 1)
    then (if t.bucket_count == 0 then resize t initial_size else resize t (mul32 t.bucket_count 2))
    else some t

-- The last part of `HashTableInsert`, with the table large enough.
pub insert_item : Item → Table → Bool × Table
insert_item x t = elim (find_from_bucket (t.buckets (x.hash % t.bucket_count)) x.key) [
  | some y ↦ (false, t)
  | none ↦ (
    true,
    record t {
      buckets =
          update t.buckets (x.hash % t.bucket_count) (x ∷ t.buckets (x.hash % t.bucket_count));
      item_count = add32 t.item_count 1;
    },
  )
]

abbrev pub make_item : ℕ → List ℕ → Item
make_item id k = record { id = id; key = k; hash = hash_of k }

-- `HashTableInsert`, for an item (its address `id`) that is not in the table already; `none` where the
-- resizing overruns its array.
pub insert : Table → ℕ → List ℕ → Option (Bool × Table)
unfolding grow insert_item
insert t id k = elim (grow t) [ none ↦ none | some u ↦ some (insert_item (make_item id k) u) ]

-- What `HashTableRemoveKeyItem` looks for: the item, or if that is NULL the key.
pub data Target : Type 0 where
  the_item : Item → Target
  the_key : List ℕ → Target

pub target_hash : Target → ℕ
target_hash (the_item x) = x.hash
target_hash (the_key k) = hash_of k

pub matches : Target → Item → Bool
matches (the_item x) y = y.id == x.id
matches (the_key k) y = key_compare y.key k

-- The search loop, which unlinks the first match: `none` when there is none.
pub unlink : Target → List Item → Option (List Item)
unfolding matches
unlink w [] = none
unlink w (x ∷ xs) =
    let rest = unlink w xs in
    if matches w x then some xs else elim rest [ none ↦ none | some ys ↦ some (x ∷ ys) ]

-- `HashTableRemoveKeyItem`
pub remove_key_item : Table → Target → Bool × Table
unfolding unlink target_hash
remove_key_item t w =
    if t.item_count == 0
    then (false, t)
    else elim (unlink w (t.buckets (target_hash w % t.bucket_count))) [
      | none ↦ (false, t)
      | some chain ↦ (
        true,
        record t {
          buckets = update t.buckets (target_hash w % t.bucket_count) chain;
          item_count = sub32 t.item_count 1;
        },
      )
    ]

-- `HashTableRemove`
pub remove : Table → List ℕ → Bool × Table
unfolding remove_key_item
remove t k = remove_key_item t (the_key k)

-- `HashTableRemoveItem`
pub remove_item : Table → Item → Bool × Table
unfolding remove_key_item
remove_item t x = remove_key_item t (the_item x)

-- `HashTableFind`
pub find : Table → List ℕ → Option Item
find t k =
    if t.item_count == 0 then none else find_from_bucket (t.buckets (hash_of k % t.bucket_count)) k

-- The loop of `HashTableReserve`, `none` when the fuel runs out.
pub double_until : ℕ → ℕ → ℕ → Option ℕ
double_until zero size count = none
double_until (suc fuel) size count =
    let rest = double_until fuel (mul32 size 2) count in if ltb size count then rest else some size

-- `HashTableReserve`, `none` when the loop does not end within the fuel, or the array is overrun.
pub reserve : ℕ → Table → ℕ → Option Table
unfolding double_until resize
reserve fuel t count =
    let count' = if ltb 0x40000000 count then 0x40000000 else count in
    if grow_check t count'
    then elim (double_until fuel t.bucket_count count') [ none ↦ none | some size ↦ resize t size ]
    else some t

-- The loop of `HashTableShrink`. Halving comes down to any threshold, so the fuel `size` suffices.
halve_until : ℕ → ℕ → ℕ → ℕ
halve_until zero size threshold = size
halve_until (suc fuel) size threshold =
    let rest = halve_until fuel (size / 2) threshold in if ltb threshold size then rest else size

-- `HashTableShrink`
pub shrink : Table → Option Table
unfolding halve_until resize
shrink t =
    let threshold = mul32 t.bucket_count threshold_shrink / threshold_ref in
    if ltb t.bucket_count threshold
    then (let size = halve_until t.bucket_count t.bucket_count threshold in
        if size == 0 then some t else resize t size)
    else some t
