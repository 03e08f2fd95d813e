-- ===== src/Io/Path/Scan.antt =====
-- A turn of the loop of `IoLookupPath`, by what stands at the path.
use chaff.Prelude.{
  ℕ, zero, suc, ◌+◌, ◌<◌, ◌≡◌, refl, ap, sym, ◌∙◌, Bool, true, false, not, ◌||◌, List, [], ◌∷◌,
  length, ◌==◌, if◌then◌else◌, arith,
}
use chaff.Io.Context.{enotdir, eisdir}
use chaff.Io.Mode.{is_dir}
use chaff.Io.Path.{
  name_max, Tree, Position, enter, element_length, bytes, stop, ends, continues, after_element,
  turn_at, turn,
}
use chaff.Io.Path.Elements.{IsSpelled, IsElement}

-- An element ends at an address.
abbrev pub stops : (ℕ → ℕ) → ℕ → Bool
stops mem i = mem i == 0 || mem i == 47

element_length-IsSpelled :
    (n : ℕ) (mem : ℕ → ℕ) (path : ℕ) (name : List ℕ)
    → IsSpelled mem path name
    → length name < n
    → stops mem (path + length name) ≡ true
    → element_length n mem path ≡ length name
unfolding element_length
element_length-IsSpelled zero mem path name s l e = absurd (ground (arith, l))
element_length-IsSpelled (suc n) mem path [] s l e = rw (here, element_length) refl
  where
    here : stops mem path ≡ true
    here = sym (ap (λ i. stops mem i) (ground arith)) ∙ e
element_length-IsSpelled (suc n) mem path (x ∷ xs) (m, z, d, s) l e =
    rw (inside, element_length)
      (ap (λ k. suc k)
        (element_length-IsSpelled n mem (path + 1) xs s (ground (arith, l)) (later ∙ e)))
  where
    later : stops mem (path + 1 + length xs) ≡ stops mem (path + suc (length xs))
    later = ap (λ i. stops mem i) (ground arith)

    inside : stops mem path ≡ false
    inside = ground (arith, m, z, d)

bytes-IsSpelled :
    (mem : ℕ → ℕ) (path : ℕ) (name : List ℕ)
    → IsSpelled mem path name
    → bytes mem path (length name) ≡ name
unfolding bytes
bytes-IsSpelled mem path [] s = refl
bytes-IsSpelled mem path (x ∷ xs) (m, z, d, s) = rw (m, bytes-IsSpelled mem (path + 1) xs s) refl

begin_turn :
    (tree : Tree) (mem : ℕ → ℕ) (path : ℕ) (p : Position)
    → turn tree mem path p
      ≡ turn_at tree mem path
          (element_length name_max mem path)
          (bytes mem path (element_length name_max mem path))
          p
unfolding turn
begin_turn tree mem path p = refl

turn_at-long :
    (tree : Tree) (mem : ℕ → ℕ) (path len : ℕ) (name : List ℕ) (p : Position)
    → (len == name_max) ≡ false
    → (len == 0) ≡ false
    → turn_at tree mem path len name p ≡ (
        if not (is_dir p.output.mode)
        then ends (stop enotdir p.output)
        else after_element mem path len p (enter tree name p))
unfolding turn_at
turn_at-long tree mem path len name p short long = rw (short, turn_at) (rw long refl)

-- What a turn comes to at an element in a directory.
pub turn-IsElement :
    (tree : Tree) (mem : ℕ → ℕ) (path : ℕ) (name : List ℕ) (p : Position)
    → IsElement mem path name
    → stops mem (path + length name) ≡ true
    → turn tree mem path p ≡ (
        if not (is_dir p.output.mode)
        then ends (stop enotdir p.output)
        else after_element mem path (length name) p (enter tree name p))
turn-IsElement tree mem path name p (z, l, s) e =
    let same = element_length-IsSpelled name_max mem path name s l e in
    begin_turn tree mem path p
    ∙ ap (λ n. turn_at tree mem path n (bytes mem path n) p) same
    ∙ ap (λ b. turn_at tree mem path (length name) b p) (bytes-IsSpelled mem path name s)
    ∙ turn_at-long tree mem path (length name) name p (short (length name) l) (long (length name) z)
  where
    short : (n : ℕ) → n < name_max → (n == name_max) ≡ false
    short n l = ground (arith, l)

    long : (n : ℕ) → 0 < n → (n == 0) ≡ false
    long n z = ground (arith, z)

-- An end of a path, or a slash too many.
element_length-stops :
    (n : ℕ) (mem : ℕ → ℕ) (path : ℕ) → stops mem path ≡ true → element_length n mem path ≡ 0
unfolding element_length
element_length-stops zero mem path e = refl
element_length-stops (suc n) mem path e = rw (e, element_length) refl

turn_at-empty :
    (tree : Tree) (mem : ℕ → ℕ) (path : ℕ) (p : Position)
    → turn_at tree mem path 0 [] p ≡ (
        if mem path == 0
        then ends (stop (if is_dir p.output.mode then eisdir else enotdir) p.output)
        else continues (path + 1) p)
unfolding turn_at
turn_at-empty tree mem path p = refl

pub turn-stops :
    (tree : Tree) (mem : ℕ → ℕ) (path : ℕ) (p : Position)
    → stops mem path ≡ true
    → turn tree mem path p ≡ (
        if mem path == 0
        then ends (stop (if is_dir p.output.mode then eisdir else enotdir) p.output)
        else continues (path + 1) p)
unfolding bytes
turn-stops tree mem path p e =
    begin_turn tree mem path p
    ∙ ap (λ n. turn_at tree mem path n (bytes mem path n) p)
        (element_length-stops name_max mem path e)
    ∙ turn_at-empty tree mem path p
