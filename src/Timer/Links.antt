-- ===== src/Timer/Links.antt =====
-- A queue of alarms and the processes' pointers into it: linking and unlinking an entry.
use chaff.Prelude.{
  ℕ, ◌≡◌, refl, ap, subst, inl, inr, true, false, Option, none, some, List, [], ◌∷◌, ltb, ◌==◌,
  if◌then◌else◌, arith, Bool-cases, All, update,
}
use chaff.Timer.{Entry, add_to_queue, delete_node, find_node}

-- No two entries have the same address.
abbrev pub DistinctNodes : List Entry → Type 0
DistinctNodes [] = Unit
DistinctNodes (x ∷ xs) = (find_node x.node xs ≡ none) × DistinctNodes xs

-- The entries of the queue are those that the processes point to, one each.
pub record IsLinked (q : List Entry) (ptr : ℕ → Option ℕ) : Type 0 where
  pub nodes : DistinctNodes q
  pub owned : All (λ e. ptr e.owner ≡ some e.node) q
  pub queued : (p n : ℕ) → ptr p ≡ some n → (e : Entry) × (find_node n q ≡ some e) × (e.owner ≡ p)

find_node-node : (n : ℕ) (q : List Entry) (e : Entry) → find_node n q ≡ some e → e.node ≡ n
unfolding find_node
find_node-node n [] e h = cc
find_node-node n (x ∷ xs) e h = ground (arith, find_node-node n xs e)

pub find_node-delete_node :
    (n m : ℕ) (q : List Entry)
    → DistinctNodes q
    → find_node m (delete_node n q) ≡ (if n == m then none else find_node m q)
unfolding find_node delete_node
find_node-delete_node n m [] d = ground arith
find_node-delete_node n m (x ∷ xs) d = ground (arith, find_node-delete_node n m xs d.1)

delete_node-DistinctNodes :
    (n : ℕ) (q : List Entry) → DistinctNodes q → DistinctNodes (delete_node n q)
unfolding delete_node
delete_node-DistinctNodes n [] d = tt
delete_node-DistinctNodes n (x ∷ xs) d = elim (Bool-cases (x.node == n)) [
  | inl b ↦ rw b d.1
  | inr b ↦ rw b (
    ground (arith, find_node-delete_node n x.node xs d.1, d.0),
    delete_node-DistinctNodes n xs d.1,
  )
]

-- A process that points to one entry owns no other.
owner_ne :
    (p n : ℕ) (x : Entry) (ptr : ℕ → Option ℕ)
    → ptr p ≡ some n
    → ptr x.owner ≡ some x.node
    → (x.node == n) ≡ false
    → (p == x.owner) ≡ false
owner_ne p n x ptr h o ne = elim (Bool-cases (p == x.owner)) [
  | inl b ↦ absurd (ground (arith, ap ptr (eq b)))
  | inr b ↦ b
]
  where
    eq : (p == x.owner) ≡ true → p ≡ x.owner
    eq b = ground arith

-- The processes of the entries that stay keep their pointers when another's is wiped.
owned_others :
    (p n : ℕ) (q : List Entry) (ptr : ℕ → Option ℕ)
    → ptr p ≡ some n
    → find_node n q ≡ none
    → All (λ e. ptr e.owner ≡ some e.node) q
    → All (λ e. update ptr p none e.owner ≡ some e.node) q
unfolding find_node
owned_others p n [] ptr h f o = tt
owned_others p n (x ∷ xs) ptr h f o =
    (rw (owner_ne p n x ptr h o.0 (ground arith)) o.0, owned_others p n xs ptr h (ground arith) o.1)

owned-delete_node :
    (p n : ℕ) (q : List Entry) (ptr : ℕ → Option ℕ)
    → ptr p ≡ some n
    → DistinctNodes q
    → All (λ e. ptr e.owner ≡ some e.node) q
    → All (λ e. update ptr p none e.owner ≡ some e.node) (delete_node n q)
unfolding delete_node
owned-delete_node p n [] ptr h d o = tt
owned-delete_node p n (x ∷ xs) ptr h d o = elim (Bool-cases (x.node == n)) [
  | inl b ↦ rw b (owned_others p n xs ptr h (subst (λ m. find_node m xs ≡ none) (eq b) d.0) o.1)
  | inr b ↦ rw b (rw (owner_ne p n x ptr h o.0 b) o.0, owned-delete_node p n xs ptr h d.1 o.1)
]
  where
    eq : (x.node == n) ≡ true → x.node ≡ n
    eq b = ground arith

-- Wiping a process's pointer and taking out the entry that it pointed to keeps the two in step.
pub unlink-IsLinked :
    (p n : ℕ) (q : List Entry) (ptr : ℕ → Option ℕ)
    → ptr p ≡ some n
    → IsLinked q ptr
    → IsLinked (delete_node n q) (update ptr p none)
unlink-IsLinked p n q ptr h v = record {
  nodes = delete_node-DistinctNodes n q v.nodes;
  owned = owned-delete_node p n q ptr h v.nodes v.owned;
  queued = λ r m e. elim (Bool-cases (p == r)) [
    | inl b ↦ absurd (ground (arith, e))
    | inr b ↦
        let (x, f, o) = v.queued r m (rw b at e) in
        (x, rw (find_node-delete_node n m q v.nodes, other r m x b f o) f, o)
  ];
}
  where
    other :
        (r m : ℕ) (x : Entry)
        → (p == r) ≡ false
        → find_node m q ≡ some x
        → x.owner ≡ r
        → (n == m) ≡ false
    other r m x b f o = elim (Bool-cases (n == m)) [
      | inl c ↦
          let (y, g, o') = v.queued p n h in
          absurd (
            ground (
              arith,
              f,
              g,
              ap (λ i. find_node i q) (eq m c),
              ap (λ (z : Entry). z.owner) (same x y m c f g),
            ))
      | inr c ↦ c
    ]
      where
        eq : (m : ℕ) → (n == m) ≡ true → n ≡ m
        eq m c = ground arith

        same :
            (x y : Entry) (m : ℕ)
            → (n == m) ≡ true
            → find_node m q ≡ some x
            → find_node n q ≡ some y
            → x ≡ y
        same x y m c f g = ground (arith, f, g, ap (λ i. find_node i q) (eq m c))

pub find_node-add_to_queue :
    (e : Entry) (q : List Entry) (m : ℕ)
    → find_node e.node q ≡ none
    → find_node m (add_to_queue e q) ≡ (if e.node == m then some e else find_node m q)
unfolding find_node add_to_queue
find_node-add_to_queue e [] m f = ground arith
find_node-add_to_queue e (x ∷ xs) m f = ground (arith, find_node-add_to_queue e xs m)

add_to_queue-DistinctNodes :
    (e : Entry) (q : List Entry)
    → find_node e.node q ≡ none
    → DistinctNodes q
    → DistinctNodes (add_to_queue e q)
unfolding find_node add_to_queue
add_to_queue-DistinctNodes e [] f d = (refl, tt)
add_to_queue-DistinctNodes e (x ∷ xs) f d = elim (Bool-cases (ltb x.end_time e.end_time)) [
  | inl b ↦ rw b (f, d)
  | inr b ↦ rw b (
    ground (arith, find_node-add_to_queue e xs x.node, d.0, f),
    add_to_queue-DistinctNodes e xs (ground arith) d.1,
  )
]

All-add_to_queue {ℓ} :
    (P : Entry → Type ℓ) (e : Entry) (q : List Entry) → P e → All P q → All P (add_to_queue e q)
unfolding add_to_queue
All-add_to_queue P e [] p a = (p, tt)
All-add_to_queue P e (x ∷ xs) p a = elim (Bool-cases (ltb x.end_time e.end_time)) [
  | inl b ↦ rw b (p, a)
  | inr b ↦ rw b (a.0, All-add_to_queue P e xs p a.1)
]

owned_still :
    (p n : ℕ) (q : List Entry) (ptr : ℕ → Option ℕ)
    → ptr p ≡ none
    → All (λ e. ptr e.owner ≡ some e.node) q
    → All (λ e. update ptr p (some n) e.owner ≡ some e.node) q
owned_still p n [] ptr h o = tt
owned_still p n (x ∷ xs) ptr h o = (
  elim (Bool-cases (p == x.owner)) [
    | inl b ↦ absurd (ground (arith, o.0, ap ptr (eq b)))
    | inr b ↦ rw b o.0
  ],
  owned_still p n xs ptr h o.1,
)
  where
    eq : (p == x.owner) ≡ true → p ≡ x.owner
    eq b = ground arith

-- A new entry for a process that had none.
pub link-IsLinked :
    (e : Entry) (q : List Entry) (ptr : ℕ → Option ℕ)
    → ptr e.owner ≡ none
    → find_node e.node q ≡ none
    → IsLinked q ptr
    → IsLinked (add_to_queue e q) (update ptr e.owner (some e.node))
link-IsLinked e q ptr h f v = record {
  nodes = add_to_queue-DistinctNodes e q f v.nodes;
  owned = All-add_to_queue _ e q (ground arith) (owned_still e.owner e.node q ptr h v.owned);
  queued = λ r m g. elim (Bool-cases (e.owner == r)) [
    | inl b ↦ (e, rw (find_node-add_to_queue e q m f) (ground (arith, g)), ground arith)
    | inr b ↦
        let (x, k, o) = v.queued r m (rw b at g) in
        (x, rw (find_node-add_to_queue e q m f) (ground (arith, k, f)), o)
  ];
}
