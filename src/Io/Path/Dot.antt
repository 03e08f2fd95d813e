-- ===== src/Io/Path/Dot.antt =====
-- A path that ends in ".".
use chaff.Prelude.{
  ℕ, zero, suc, ◌+◌, ◌<◌, ◌≡◌, refl, ap, ◌∙◌, true, false, some, [], ◌∷◌, ◌==◌, arith,
}
use chaff.Io.Mode.{Inode, is_dir}
use chaff.Io.Path.{Tree, Position, at, read_checked, skipped, enter, walk, start_walk, lookup_path}
use chaff.Io.Path.Elements.{Elements, resolve, Written}
use chaff.Io.Path.Scan.{turn-IsElement}
use chaff.Io.Path.Walk.{next, walk-next, walk-resolve}

-- A "." stands at an address, with nothing behind it.
abbrev pub IsDot : (ℕ → ℕ) → ℕ → Type 0
IsDot mem path = (mem path ≡ 46) × (mem (path + 1) ≡ 0)

enter-dot : (tree : Tree) (p : Position) → enter tree (46 ∷ []) p ≡ skipped
unfolding enter
enter-dot tree p = refl

walk-dot :
    (fuel : ℕ) (tree : Tree) (mem : ℕ → ℕ) (path : ℕ) (p : Position)
    → IsDot mem path
    → is_dir p.output.mode ≡ true
    → walk (suc fuel) tree mem path p ≡ walk fuel tree mem (path + 2) p
walk-dot fuel tree mem path p (d, z) h =
    walk-next fuel tree mem path p
    ∙ ap (λ t. next fuel tree mem t)
        (turn-IsElement tree mem path (46 ∷ []) p
          (ground arith, ground arith, (d, ground arith, ground arith, tt)) (ground (arith, z)))
    ∙ rw (h, enter-dot tree p) (ap (λ i. walk fuel tree mem i p) (ground arith))

-- `IoLookupPath` of "." in a current directory that can be searched reads on behind the zero that ends
-- the path: where a path stands there whose last element is neither "." nor "..", and with fuel for
-- that, it comes to what the elements of that path mean.
pub lookup_path-dot :
    (fuel n : ℕ) (tree : Tree) (mem : ℕ → ℕ) (path : ℕ) (output : Inode) (p : Position)
    (elements : Elements)
    → IsDot mem path
    → read_checked (λ i. true) tree tree.cdir_fs tree.cdir_inode output ≡ at p
    → is_dir p.output.mode ≡ true
    → Written mem (path + 2) n elements
    → n < fuel
    → lookup_path fuel tree mem path output ≡ some (resolve tree elements p)
unfolding lookup_path start_walk
lookup_path-dot zero n tree mem path output p elements d r h w l = absurd (ground (arith, l))
lookup_path-dot (suc fuel) n tree mem path output p elements d r h w l =
    rw (nonzero d, lookup_path)
      (rw (no_slash d) (
        rw (r, start_walk)
          (walk-dot fuel tree mem path p d h
            ∙ walk-resolve fuel n tree mem (path + 2) elements p w (ground (arith, l)))))
  where
    nonzero : IsDot mem path → (mem path == 0) ≡ false
    nonzero d = ground (arith, d.0)

    no_slash : IsDot mem path → (mem path == 47) ≡ false
    no_slash d = ground (arith, d.0)
