-- ===== src/Mm/Region/Create.antt =====
-- `MemRegionCreate`
use Prim.Native.Nat.{bit_and}
use chaff.Prelude.{
  ℕ, ◌+◌, ◌≤◌, ◌<◌, ◌≡◌, refl, ◌∙◌, inl, inr, Bool, true, false, not, ◌&&◌, ◌||◌, Option, none,
  some, List, [], ◌∷◌, ltb, leb, ◌==◌, if◌then◌else◌, arith, Bool-cases, add32, u32_mod, ◌%◌, ◌⊎◌,
}
use chaff.Mm.Region.{
  Region, kernel_base, page_size, all_flags, is_collision, prev_overlap, link_region, place_region,
  region_create, bad_range,
}
use chaff.Mm.Region.Find.{region_end-user, IsUser, IsBefore, IsSpaced, contains, lookup}

-- Two regions neither meet nor touch.
abbrev pub is_apart : Region → Region → Bool
is_apart r n = ltb (r.start + r.length) n.start || ltb (n.start + n.length) r.start

abbrev pub apart_from_all : Region → List Region → Bool
apart_from_all new [] = true
apart_from_all new (r ∷ rs) = is_apart new r && apart_from_all new rs

abbrev pub insert_sorted : Region → List Region → List Region
insert_sorted new [] = new ∷ []
insert_sorted new (r ∷ rs) =
    if ltb new.start r.start then new ∷ r ∷ rs else r ∷ insert_sorted new rs

is_collision-user :
    (r n : Region) → IsUser r → is_collision r n ≡ not (ltb (r.start + r.length) n.start)
unfolding is_collision
is_collision-user r n u = rw (region_end-user r u) (ground arith)

apart_before :
    (new r : Region) (rs : List Region)
    → IsBefore r rs
    → IsSpaced rs
    → new.start + new.length < r.start
    → apart_from_all new rs ≡ true
apart_before new r [] b s h = refl
apart_before new r (n ∷ rs) b s h =
    rw (apart, apart_before new n rs s.1 s.2 (omega (arith, b))) refl
  where
    apart : is_apart new n ≡ true
    apart = ground (arith, b)

-- What the region before must be: in the user's memory, before the new one and the rest.
abbrev PrevOk : Region → Option Region → List Region → Type 0
PrevOk new none rs = Unit
PrevOk new (some p) rs = IsUser p × (p.start ≤ new.start) × IsBefore p rs

abbrev prev_apart : Region → Option Region → Bool
prev_apart new none = true
prev_apart new (some p) = is_apart new p

prev_overlap-prev_apart :
    (new : Region) (prev : Option Region) (rs : List Region)
    → PrevOk new prev rs
    → prev_overlap prev new ≡ not (prev_apart new prev)
unfolding prev_overlap
prev_overlap-prev_apart new none rs p = refl
prev_overlap-prev_apart new (some r) rs p = is_collision-user r new p.0 ∙ ground (arith, p.1)

-- A region before one that the new one starts after does not meet the new one.
prev_apart-after :
    (new : Region) (prev : Option Region) (r : Region) (rs : List Region)
    → PrevOk new prev (r ∷ rs)
    → ltb new.start r.start ≡ false
    → prev_apart new prev ≡ true
prev_apart-after new none r rs p h = refl
prev_apart-after new (some q) r rs p h = ground (arith, p.2, h)

choose {ℓ} :
    {A : Type ℓ} (a b : Bool) (x : Option A)
    → (if not a || not b then none else x) ≡ (if a && b then x else none)
choose true true x = refl
choose true false x = refl
choose false true x = refl
choose false false x = refl

link_region_lem :
    (new beyond : Region) (prev : Option Region) (rs : List Region)
    → IsUser new
    → kernel_base ≤ beyond.start
    → PrevOk new prev rs
    → IsSpaced rs
    → link_region new beyond prev rs
      ≡ (if prev_apart new prev && apart_from_all new rs then some (insert_sorted new rs) else none)
unfolding link_region
link_region_lem new beyond prev [] u k p s =
    rw (prev_overlap-prev_apart new prev [] p, is_collision-user new beyond u, reach)
      (choose (prev_apart new prev) true (some (new ∷ [])))
  where
    reach : ltb (new.start + new.length) beyond.start ≡ true
    reach = ground (arith, u, k)
link_region_lem new beyond prev (r ∷ rs) u k p s = elim (Bool-cases (ltb new.start r.start)) [
  | inl b ↦
      rw (b, prev_overlap-prev_apart new prev (r ∷ rs) p, is_collision-user new r u, ahead b)
        (choose (prev_apart new prev) (ltb (new.start + new.length) r.start) (some (new ∷ r ∷ rs)))
  | inr b ↦
      rw
        (
          b,
          link_region_lem new beyond (some r) rs u k (s.0, ground (arith, b), s.1) s.2,
          prev_apart-after new prev r rs p b,
        )
        (pushed (is_apart new r && apart_from_all new rs))
]
  where
    ahead :
        ltb new.start r.start ≡ true
        → (is_apart new r && apart_from_all new rs) ≡ ltb (new.start + new.length) r.start
    ahead b = elim (Bool-cases (ltb (new.start + new.length) r.start)) [
      | inl c ↦ rw (c, apart_before new r rs s.1 s.2 (ground (arith, c))) refl
      | inr c ↦ rw (c, behind b) refl
    ]
      where
        behind : ltb new.start r.start ≡ true → ltb (r.start + r.length) new.start ≡ false
        behind b = ground (arith, b)

    pushed :
        (c : Bool)
        → (elim (if c then some (insert_sorted new rs) else none) as (λ x. Option (List Region)) [
          | none ↦ none
          | some l ↦ some (r ∷ l)
        ])
          ≡ (if c then some (r ∷ insert_sorted new rs) else none)
    pushed true = refl
    pushed false = refl

IsBefore-insert_sorted :
    (new r : Region) (rs : List Region)
    → r.start + r.length < new.start
    → IsBefore r rs
    → IsBefore r (insert_sorted new rs)
IsBefore-insert_sorted new r [] h b = h
IsBefore-insert_sorted new r (n ∷ rs) h b = elim (Bool-cases (ltb new.start n.start)) [
  | inl c ↦ rw c h
  | inr c ↦ rw c b
]

insert_sorted-IsSpaced :
    (new : Region) (rs : List Region)
    → IsUser new
    → apart_from_all new rs ≡ true
    → IsSpaced rs
    → IsSpaced (insert_sorted new rs)
insert_sorted-IsSpaced new [] u a s = (u, tt, tt)
insert_sorted-IsSpaced new (r ∷ rs) u a s = elim (Bool-cases (ltb new.start r.start)) [
  | inl b ↦ rw b (u, ground (arith, a, b), s)
  | inr b ↦ rw b (
    s.0,
    IsBefore-insert_sorted new r rs (ground (arith, a, b)) s.1,
    insert_sorted-IsSpaced new rs u (ground (arith, a)) s.2,
  )
]

lookup-insert_sorted :
    (new : Region) (rs : List Region) (addr : ℕ)
    → apart_from_all new rs ≡ true
    → lookup (insert_sorted new rs) addr ≡ (if contains new addr then some new else lookup rs addr)
lookup-insert_sorted new [] addr a = refl
lookup-insert_sorted new (r ∷ rs) addr a = elim (Bool-cases (ltb new.start r.start)) [
  | inl b ↦ rw b refl
  | inr b ↦
      rw (b, lookup-insert_sorted new rs addr (ground (arith, a)))
        (swap (Bool-cases (contains r addr)))
]
  where
    swap :
        (contains r addr ≡ true) ⊎ (contains r addr ≡ false)
        → (if contains r addr
            then some r
            else if contains new addr
            then some new
            else lookup rs addr)
          ≡ (if contains new addr
              then some new
              else if contains r addr
              then some r
              else lookup rs addr)
    swap (inl c) = rw (c, not_both c) refl
      where
        not_both : contains r addr ≡ true → contains new addr ≡ false
        not_both c = ground (arith, a, c)
    swap (inr c) = rw c refl

-- A range that a region may have: whole pages, not at 0, and ending below the kernel.
abbrev pub is_allowed : ℕ → ℕ → Bool
is_allowed start length =
    start % page_size == 0
    && (length % page_size == 0 && (ltb 0 start && ltb (start + length) kernel_base))

bad_range-is_allowed :
    (start length : ℕ)
    → start < u32_mod
    → length < u32_mod
    → bad_range start length ≡ not (is_allowed start length)
unfolding bad_range
bad_range-is_allowed start length h l = rw limits (
    join (start % page_size == 0) (length % page_size == 0)
      (ltb 0 start && ltb (start + length) kernel_base))
  where
    wrapped :
        (start + length ≡ add32 start length) ⊎ (start + length ≡ add32 start length + u32_mod)
    wrapped = elim (Bool-cases (ltb (start + length) u32_mod)) [
      | inl b ↦ inl (omega (arith, less b))
      | inr b ↦ inr (omega (arith, more b, h, l))
    ]
      where
        less : ltb (start + length) u32_mod ≡ true → start + length < u32_mod
        less b = ground (arith, b)

        more : ltb (start + length) u32_mod ≡ false → u32_mod ≤ start + length
        more b = ground (arith, b)

    limits :
        (ltb (add32 start length) start || (start == 0 || leb kernel_base (add32 start length)))
        ≡ not (ltb 0 start && ltb (start + length) kernel_base)
    limits = by_cases wrapped
      where
        by_cases :
            (start + length ≡ add32 start length) ⊎ (start + length ≡ add32 start length + u32_mod)
            → (ltb (add32 start length) start
                || (start == 0 || leb kernel_base (add32 start length)))
              ≡ not (ltb 0 start && ltb (start + length) kernel_base)
        by_cases (inl e) = rw (← e) (ground arith)
        by_cases (inr e) = ground (arith, e)

    join : (a b c : Bool) → (not a || (not b || not c)) ≡ not (a && (b && c))
    join true true c = refl
    join true false c = refl
    join false b c = refl

place_region_lem :
    (new beyond : Region) (rs : List Region)
    → IsUser new
    → kernel_base ≤ beyond.start
    → IsSpaced rs
    → place_region new beyond rs
      ≡ (if apart_from_all new rs then some (insert_sorted new rs) else none)
unfolding place_region
place_region_lem new beyond [] u k s = refl
place_region_lem new beyond (r ∷ rs) u k s = link_region_lem new beyond none (r ∷ rs) u k tt s

abbrev pub region_of : ℕ → ℕ → ℕ → ℕ → Region
region_of node start length flags = record {
  node = node;
  flags = bit_and flags all_flags;
  start = start;
  length = length;
}

-- `MemRegionCreate` in a user context whose regions stand in order, apart from each other, where a
-- word of the kernel's addresses stands behind the context: it makes the region exactly if the range is
-- of whole pages, is not at 0 and ends below the kernel, and neither meets nor touches another
-- region. The regions then stand in order again, the new one among them, and an address leads to the
-- new region if it lies there and to the old ones otherwise; a refused region changes nothing.
pub region_create_lem :
    (beyond : Region) (node start length flags : ℕ) (rs : List Region)
    → kernel_base ≤ beyond.start
    → start < u32_mod
    → length < u32_mod
    → IsSpaced rs
    → let new = region_of node start length flags in
      let (made, rs') = region_create false beyond node start length flags rs in
      let allowed = is_allowed start length && apart_from_all new rs in
      (made ≡ (if allowed then some new else none))
      × IsSpaced rs'
      × ((addr : ℕ)
          → lookup rs' addr ≡ (if allowed && contains new addr then some new else lookup rs addr))
unfolding region_create
region_create_lem beyond node start length flags rs k h l s =
    elim (Bool-cases (is_allowed start length)) [
      | inr a ↦ rw (bad_range-is_allowed start length h l, a) (refl, s, λ addr. refl)
      | inl a ↦ elim (Bool-cases (apart_from_all new rs)) [
        | inr b ↦
            rw
              (
                bad_range-is_allowed start length h l,
                a,
                place_region_lem new beyond rs (user a) k s,
                b,
              )
              (refl, s, λ addr. refl)
        | inl b ↦
            rw
              (
                bad_range-is_allowed start length h l,
                a,
                place_region_lem new beyond rs (user a) k s,
                b,
              )
              (
                refl,
                insert_sorted-IsSpaced new rs (user a) b s,
                λ addr. lookup-insert_sorted new rs addr b,
              )
      ]
    ]
  where
    new : Region
    new = region_of node start length flags

    user : is_allowed start length ≡ true → IsUser new
    user a = ground (arith, a)
