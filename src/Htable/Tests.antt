-- ===== src/Htable/Tests.antt =====
-- Runs of htable.c on small tables, and the theorems at such runs.
use chaff.Prelude.{ℕ, ◌+◌, ◌≡◌, refl, true, false, none, some, List, [], ◌∷◌, if◌then◌else◌, arith}
use chaff.Htable.{Table, hash_of, key_compare, make_item, insert, remove, find}
use chaff.Htable.Chain.{key_compare_iff}
use chaff.Htable.Valid.{IsValid, total}
use chaff.Htable.Grow.{IsBounded}
use chaff.Htable.Insert.{insert_new}
use chaff.Htable.Remove.{remove_missing, remove_found}
use chaff.Htable.Map.{inserts, removes, finds, run_table, run_map, run_table-refines}

abbrev usr : List ℕ
usr = b'u' ∷ b's' ∷ b'r' ∷ []

abbrev etc : List ℕ
etc = b'e' ∷ b't' ∷ b'c' ∷ []

abbrev no_table : Table
no_table = record { buckets = λ _. []; bucket_count = 0; item_count = 0 }

no_table-IsValid : IsValid no_table
unfolding total
no_table-IsValid = record { placed = λ b. tt; distinct = λ b. tt; counted = refl }

-- The FNV-1a hash of "usr".
hash_usr : hash_of usr ≡ 0x4691AA31
unfolding hash_of
hash_usr = refl

no_table_misses : (k : List ℕ) → find no_table k ≡ none
unfolding find
no_table_misses k = refl

-- A table with one item, as `HashTableInsert` makes it.
one_lem :
    (u : Table) × (insert no_table 100 usr ≡ some (true, u))
    × IsValid u
    × IsBounded u
    × (u.item_count ≡ 1)
    × ((j : List ℕ)
        → find u j ≡ (if key_compare usr j then some (make_item 100 usr) else find no_table j))
one_lem =
    insert_new no_table 100 usr no_table-IsValid (ground arith) (no_table_misses usr) (omega arith)

abbrev one : Table
one = one_lem.0

insert_new_example :
    (u : Table) × (insert no_table 100 usr ≡ some (true, u))
    × IsValid u
    × IsBounded u
    × (u.item_count ≡ 1)
    × ((j : List ℕ)
        → find u j ≡ (if key_compare usr j then some (make_item 100 usr) else find no_table j))
insert_new_example =
    insert_new no_table 100 usr no_table-IsValid (ground arith) (no_table_misses usr) (omega arith)

one_has_usr : find one usr ≡ some (make_item 100 usr)
one_has_usr = rw (one_lem.5 usr, (key_compare_iff usr usr).1 refl) refl

one_lacks_etc : find one etc ≡ none
unfolding key_compare
one_lacks_etc = rw (one_lem.5 etc) (no_table_misses etc)

one_count : one.item_count ≡ 1
one_count = one_lem.4

remove-etc : remove one etc ≡ (false, one)
remove-etc = remove_missing one etc one_lem.2 one_lacks_etc

remove_found_example :
    ((remove one usr).0 ≡ true)
    × IsValid (remove one usr).1
    × ((remove one usr).1.item_count + 1 ≡ one.item_count)
    × ((j : List ℕ) → find (remove one usr).1 j ≡ (if key_compare usr j then none else find one j))
remove_found_example =
    remove_found one usr (make_item 100 usr) one_lem.2 one_has_usr (omega (arith, one_count))

-- Five empty buckets.
abbrev five : Table
five = record { buckets = λ _. []; bucket_count = 5; item_count = 0 }

five-IsValid : IsValid five
unfolding total
five-IsValid = record { placed = λ b. tt; distinct = λ b. tt; counted = refl }

run_table-refines_example :
    run_table no_table (inserts 100 usr ∷ removes etc ∷ finds usr ∷ inserts 101 usr ∷ [])
    ≡ run_map (find no_table) (inserts 100 usr ∷ removes etc ∷ finds usr ∷ inserts 101 usr ∷ [])
run_table-refines_example =
    run_table-refines (inserts 100 usr ∷ removes etc ∷ finds usr ∷ inserts 101 usr ∷ []) no_table
      no_table-IsValid (ground arith) (omega arith)
