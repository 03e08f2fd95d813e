-- ===== src/Htable/Reserve.antt =====
-- `HashTableReserve` and `HashTableShrink`.
use chaff.Prelude.{
  ℕ, zero, suc, ◌+◌, ◌*◌, ◌≤◌, ◌<◌, ◌≡◌, refl, ap, inl, inr, Option, none, some, List, ltb,
  if◌then◌else◌, arith, Bool-cases, mul32, u32_mod,
}
use chaff.Htable.{Table, grow_check, rehash, double_until, reserve, shrink, find}
use chaff.Htable.Valid.{IsValid}
use chaff.Htable.Resize.{rehash-IsValid, find-rehash, bucket_count-rehash, resize-rehash}

-- The number that the source limits the count to.
abbrev pub limited : ℕ → ℕ
limited count = if ltb 0x40000000 count then 0x40000000 else count

abbrev pow2 : ℕ → ℕ
pow2 zero = 1
pow2 (suc n) = pow2 n + pow2 n

-- What the doubling loop comes to, from `size`, for `count` items.
abbrev Doubled : ℕ → ℕ → Option ℕ → Type 0
Doubled size count o = (r : ℕ) × (o ≡ some r) × (count ≤ r) × (size ≤ r) × (r < 0x40000000)

-- With `fuel` doublings to come at most, none of which wraps.
double_until-Doubled :
    (fuel size count : ℕ)
    → count ≤ 0x20000000
    → size < 0x40000000
    → count ≤ size * pow2 fuel
    → Doubled size count (double_until (suc fuel) size count)
unfolding double_until
double_until-Doubled zero size count small word enough =
    (size, ground arith, omega arith, omega arith, word)
double_until-Doubled (suc fuel) size count small word enough = elim (Bool-cases (ltb size count)) [
  | inr e ↦ (size, rw (e, double_until), ground arith, omega arith, word)
  | inl e ↦
      let twice : mul32 size 2 ≡ 2 * size = ground arith in
      let (r, done, above, grown, small') =
        double_until-Doubled fuel (mul32 size 2) count small (ground (arith, e))
          (rw twice (omega (arith, enough))) in
      (r, rw (e, double_until) done, above, omega arith, small')
]

-- From no buckets at all the loop never ends.
double_until_stuck : (fuel count : ℕ) → 0 < count → double_until fuel 0 count ≡ none
unfolding double_until
double_until_stuck zero count h = refl
double_until_stuck (suc fuel) count h = ground (arith, double_until_stuck fuel count h)

-- `HashTableReserve` of 2^29 items at most, on a valid table that has buckets, seven times their number
-- fitting 32 bits, ends within 31 turns of its loop, overruns no array, keeps the table valid and
-- changes no search; afterwards there are no fewer buckets than before, and at least as many as the
-- (limited) count of items.
pub reserve_lem :
    (t : Table) (count : ℕ)
    → IsValid t
    → 0 < t.bucket_count
    → t.bucket_count * 7 < u32_mod
    → count ≤ 0x20000000
    → (u : Table) × (reserve 31 t count ≡ some u)
      × IsValid u
      × ((k : List ℕ) → find u k ≡ find t k)
      × (t.bucket_count ≤ u.bucket_count)
      × (limited count ≤ u.bucket_count)
unfolding reserve grow_check
reserve_lem t count v pos room few = elim (Bool-cases (grow_check t (limited count))) [
  | inr e ↦ (t, rw (e, grow_check) refl, v, λ k. refl, omega arith, ground arith)
  | inl e ↦
      let (size, done, above, grown, small) =
        double_until-Doubled 30 t.bucket_count (limited count) (ground arith) (omega arith)
          (ground arith) in
      let large : 0 < size = omega arith in
      (
        rehash t size,
        rw (e, grow_check) (rw (done, reserve) (resize-rehash t size large small)),
        rehash-IsValid t size v large,
        λ k. find-rehash t size k v large,
        omega (arith, bucket_count-rehash t size, grown),
        omega (arith, bucket_count-rehash t size, above),
      )
]

-- `HashTableReserve` of at least one item on a table without buckets, as every table is at first,
-- never ends, whatever the fuel.
pub reserve_stuck :
    (fuel count : ℕ) (t : Table) → 0 < count → t.bucket_count ≡ 0 → reserve fuel t count ≡ none
unfolding reserve grow_check
reserve_stuck fuel count t h e = ground (
  arith,
  ap (λ s. double_until fuel s (limited count)) e,
  double_until_stuck fuel (limited count),
)

-- `HashTableShrink` changes no table of fewer than 2^32 buckets, however few its items.
pub shrink_never : (t : Table) → t.bucket_count < u32_mod → shrink t ≡ some t
unfolding shrink
shrink_never t h = ground arith
