-- ===== src/Io/Path/Walk.antt =====
-- `IoLookupPath` is the reading of a path's elements one after the other.
use chaff.Prelude.{
  ℕ, zero, suc, ◌+◌, ◌<◌, ◌≤◌, ◌≡◌, ◌≢◌, refl, ap, ◌∙◌, inl, inr, Bool, true, false, not, Option,
  none, some, List, length, ◌==◌, if◌then◌else◌, Bool-cases, arith,
}
use chaff.Prelude.Int.{pos}
use chaff.Io.Context.{enotdir}
use chaff.Io.Mode.{Inode, is_dir}
use chaff.Io.Path.{
  enoent, Tree, Position, Entered, failed, missing, at, read_checked, is_dot, is_dot_dot, Stepped,
  skipped, looked, enter, look_up, Found, stop, Turn, ends, continues, after_element, turn, walk,
  start_walk, lookup_path,
}
use chaff.Io.Path.Elements.{
  Elements, last_name, name_in, resolve, resolve_from, resolve_path, Written, nothing, extra_slash,
  one_name, name_slash, Written-positive, IsPath, absolute, relative,
}
use chaff.Io.Path.Scan.{stops, turn-IsElement, turn-stops}

-- The loop after a turn.
abbrev pub next : ℕ → Tree → (ℕ → ℕ) → Turn → Option Found
next fuel tree mem (ends found) = some found
next fuel tree mem (continues path p) = walk fuel tree mem path p

pub walk-next :
    (fuel : ℕ) (tree : Tree) (mem : ℕ → ℕ) (path : ℕ) (p : Position)
    → walk (suc fuel) tree mem path p ≡ next fuel tree mem (turn tree mem path p)
unfolding walk
walk-next fuel tree mem path p = by_turn (turn tree mem path p)
  where
    by_turn :
        (t : Turn)
        → (elim t [ ends found ↦ some found | continues path' q ↦ walk fuel tree mem path' q ])
          ≡ next fuel tree mem t
    by_turn (ends found) = refl
    by_turn (continues path' q) = refl

enter-plain :
    (tree : Tree) (name : List ℕ) (p : Position)
    → is_dot name ≡ false
    → is_dot_dot name ≡ false
    → enter tree name p ≡ looked (look_up tree name p)
unfolding enter
enter-plain tree name p d e = rw (d, enter) (rw e refl)

-- The last element.
next-last :
    (fuel : ℕ) (tree : Tree) (mem : ℕ → ℕ) (path : ℕ) (name : List ℕ) (p : Position)
    → (mem (path + length name) == 0) ≡ true
    → is_dot name ≡ false
    → is_dot_dot name ≡ false
    → next fuel tree mem (
        if not (is_dir p.output.mode)
        then ends (stop enotdir p.output)
        else after_element mem path (length name) p (enter tree name p))
      ≡ some (resolve tree (last_name path name) p)
unfolding resolve
next-last fuel tree mem path name p z d e = elim (Bool-cases (is_dir p.output.mode)) [
  | inr h ↦ rw (h, resolve) refl
  | inl h ↦ rw (h, resolve) (rw (enter-plain tree name p d e) (by_entered (look_up tree name p)))
]
  where
    by_entered :
        (r : Entered)
        → next fuel tree mem (after_element mem path (length name) p (looked r))
          ≡ some (elim (looked r) [
            | skipped ↦ stop (pos 0) p.output
            | looked (failed res output) ↦ stop res output
            | looked (missing output) ↦ record {
              res = enoent;
              output = output;
              file_start = some path;
            }
            | looked (at q) ↦ stop (pos 0) q.output
          ])
    by_entered (failed res output) = refl
    by_entered (missing output) = rw z refl
    by_entered (at q) = rw z refl

-- An element before a slash.
next-name :
    (fuel : ℕ) (tree : Tree) (mem : ℕ → ℕ) (path : ℕ) (name : List ℕ) (elements : Elements)
    (p : Position)
    → (mem (path + length name) == 0) ≡ false
    → ((q : Position)
        → walk fuel tree mem (path + length name + 1) q ≡ some (resolve tree elements q))
    → next fuel tree mem (
        if not (is_dir p.output.mode)
        then ends (stop enotdir p.output)
        else after_element mem path (length name) p (enter tree name p))
      ≡ some (resolve tree (name_in name elements) p)
unfolding resolve
next-name fuel tree mem path name elements p z rest = elim (Bool-cases (is_dir p.output.mode)) [
  | inr h ↦ rw (h, resolve) refl
  | inl h ↦ rw (h, resolve) (by_step (enter tree name p))
]
  where
    by_step :
        (s : Stepped)
        → next fuel tree mem (after_element mem path (length name) p s)
          ≡ some (elim s [
            | skipped ↦ resolve tree elements p
            | looked (failed res output) ↦ stop res output
            | looked (missing output) ↦ stop enoent output
            | looked (at q) ↦ resolve tree elements q
          ])
    by_step skipped = rest p
    by_step (looked (failed res output)) = refl
    by_step (looked (missing output)) = rw z refl
    by_step (looked (at q)) = rw z (rest q)

test_zero : {n : ℕ} → n ≡ 0 → (n == 0) ≡ true
test_zero e = ground (arith, e)

stops-zero : (mem : ℕ → ℕ) (i : ℕ) → mem i ≡ 0 → stops mem i ≡ true
stops-zero mem i e = ground (arith, e)

stops-slash : (mem : ℕ → ℕ) (i : ℕ) → mem i ≡ 47 → stops mem i ≡ true
stops-slash mem i e = ground (arith, e)

not_zero : (n : ℕ) → n ≡ 47 → (n == 0) ≡ false
not_zero n e = ground (arith, e)

-- The loop of `IoLookupPath` at written elements comes to what the elements mean, with a turn for each.
pub walk-resolve :
    (fuel n : ℕ) (tree : Tree) (mem : ℕ → ℕ) (path : ℕ) (elements : Elements) (p : Position)
    → Written mem path n elements
    → n ≤ fuel
    → walk fuel tree mem path p ≡ some (resolve tree elements p)
unfolding resolve
walk-resolve zero n tree mem path elements p w l = absurd (none_left (Written-positive w) l)
  where
    none_left : 0 < n → n ≤ 0 → ⊥
    none_left a b = ground (arith, a, b)
walk-resolve (suc fuel) _ tree mem path _ p (nothing e) l =
    walk-next fuel tree mem path p
    ∙ ap (λ t. next fuel tree mem t) (turn-stops tree mem path p (stops-zero mem path e))
    ∙ rw (test_zero e, resolve) refl
walk-resolve (suc fuel) _ tree mem path elements p (extra_slash e w) l =
    walk-next fuel tree mem path p
    ∙ ap (λ t. next fuel tree mem t) (turn-stops tree mem path p (stops-slash mem path e))
    ∙ rw (not_zero _ e) (walk-resolve fuel _ tree mem (path + 1) elements p w (ground (arith, l)))
walk-resolve (suc fuel) _ tree mem path _ p (one_name {name} h e d f) l =
    walk-next fuel tree mem path p
    ∙ ap (λ t. next fuel tree mem t) (turn-IsElement tree mem path name p h (stops-zero mem _ e))
    ∙ next-last fuel tree mem path name p (test_zero e) d f
walk-resolve (suc fuel) _ tree mem path _ p (name_slash {name} {elements} h e w) l =
    walk-next fuel tree mem path p
    ∙ ap (λ t. next fuel tree mem t) (turn-IsElement tree mem path name p h (stops-slash mem _ e))
    ∙ next-name fuel tree mem path name elements p (not_zero _ e) (λ q.
      walk-resolve fuel _ tree mem (path + length name + 1) elements q w (ground (arith, l)))

start_walk-resolve :
    (fuel n : ℕ) (tree : Tree) (mem : ℕ → ℕ) (path fs inode : ℕ) (output : Inode)
    (elements : Elements)
    → Written mem path n elements
    → n ≤ fuel
    → start_walk fuel tree mem path fs inode output
      ≡ some (resolve_from tree fs inode output elements)
unfolding start_walk
start_walk-resolve fuel n tree mem path fs inode output elements w l =
    by_entered (read_checked (λ i. true) tree fs inode output)
  where
    by_entered :
        (r : Entered)
        → (elim r as (λ x. Option Found) [
          | failed res output' ↦ some (stop res output')
          | missing output' ↦ some (stop enoent output')
          | at p ↦ walk fuel tree mem path p
        ])
          ≡ some (elim r as (λ x. Found) [
            | failed res output' ↦ stop res output'
            | missing output' ↦ stop enoent output'
            | at p ↦ resolve tree elements p
          ])
    by_entered (failed res output') = refl
    by_entered (missing output') = refl
    by_entered (at p) = walk-resolve fuel n tree mem path elements p w l

-- `IoLookupPath` of a path whose last element is not "." or "..", with as much fuel as it has elements and
-- slashes too many, ends, and comes to what the elements mean, one after the other, from the
-- root or from the current directory on.
pub lookup_path-resolve :
    (fuel n : ℕ) (tree : Tree) (mem : ℕ → ℕ) (path : ℕ) (output : Inode) (elements : Elements)
    (from_root : Bool)
    → IsPath mem path n elements from_root
    → n ≤ fuel
    → lookup_path fuel tree mem path output ≡ some (resolve_path tree from_root elements output)
unfolding lookup_path
lookup_path-resolve fuel n tree mem path output elements _ (absolute e w) l =
    rw (not_zero _ e, lookup_path) (rw (slash _ e) (by_root tree.root))
  where
    slash : (k : ℕ) → k ≡ 47 → (k == 47) ≡ true
    slash k e = ground (arith, e)

    by_root :
        (o : Option ℕ)
        → (elim o as (λ x. Option Found) [
          | none ↦ some (stop enoent output)
          | some r ↦ start_walk fuel tree mem (path + 1) r (tree.filesystems r).root_inode output
        ])
          ≡ some (elim o as (λ x. Found) [
            | none ↦ stop enoent output
            | some r ↦ resolve_from tree r (tree.filesystems r).root_inode output elements
          ])
    by_root none = refl
    by_root (some r) =
        start_walk-resolve fuel n tree mem (path + 1) r (tree.filesystems r).root_inode output
          elements w l
lookup_path-resolve fuel n tree mem path output elements _ (relative z d w) l =
    rw (differs _ 0 z, lookup_path)
      (rw (differs _ 47 d)
        (start_walk-resolve fuel n tree mem path tree.cdir_fs tree.cdir_inode output elements w l))
  where
    differs : (k m : ℕ) → k ≢ m → (k == m) ≡ false
    differs k m d = ground (arith, d)
