-- ===== src/Io/Path/Elements.antt =====
-- What a path means: its elements, one after the other, from the directory it begins at.
use chaff.Prelude.{
  ℕ, suc, ◌+◌, ◌<◌, ◌≡◌, ◌≢◌, Bool, true, false, not, none, some, List, [], ◌∷◌, length,
  if◌then◌else◌, arith,
}
use chaff.Prelude.Int.{pos}
use chaff.Io.Context.{enotdir, eisdir}
use chaff.Io.Mode.{Inode, is_dir}
use chaff.Io.Path.{
  name_max, enoent, Tree, Position, failed, missing, at, read_checked, is_dot, is_dot_dot, skipped,
  looked, enter, Found, stop,
}

-- The elements of a path. The last one stands at an address, or the path ends in a slash.
pub data Elements : Type 0 where
  slash_end : Elements
  last_name : ℕ → List ℕ → Elements
  name_in : List ℕ → Elements → Elements

-- Where the elements lead to from a position.
unfoldable pub resolve : Tree → Elements → Position → Found
resolve tree slash_end p = stop (if is_dir p.output.mode then eisdir else enotdir) p.output
resolve tree (last_name path name) p =
    if not (is_dir p.output.mode) then stop enotdir p.output else elim (enter tree name p) [
      | skipped ↦ stop (pos 0) p.output
      | looked (failed res output) ↦ stop res output
      | looked (missing output) ↦ record { res = enoent; output = output; file_start = some path }
      | looked (at q) ↦ stop (pos 0) q.output
    ]
resolve tree (name_in name rest) p =
    let same = resolve tree rest p in
    if not (is_dir p.output.mode) then stop enotdir p.output else elim (enter tree name p) [
      | skipped ↦ same
      | looked (failed res output) ↦ stop res output
      | looked (missing output) ↦ stop enoent output
      | looked (at q) ↦ resolve tree rest q
    ]

-- Where they lead to from the root or from the current directory.
abbrev pub resolve_from : Tree → ℕ → ℕ → Inode → Elements → Found
resolve_from tree fs inode output elements = elim (read_checked (λ i. true) tree fs inode output) [
  | failed res output' ↦ stop res output'
  | missing output' ↦ stop enoent output'
  | at p ↦ resolve tree elements p
]

abbrev pub resolve_path : Tree → Bool → Elements → Inode → Found
resolve_path tree false elements output =
    resolve_from tree tree.cdir_fs tree.cdir_inode output elements
resolve_path tree true elements output = elim tree.root [
  | none ↦ stop enoent output
  | some r ↦ resolve_from tree r (tree.filesystems r).root_inode output elements
]

-- The bytes of a name stand at an address, none of them a slash or a zero.
abbrev pub IsSpelled : (ℕ → ℕ) → ℕ → List ℕ → Type 0
IsSpelled mem path [] = Unit
IsSpelled mem path (x ∷ xs) = (mem path ≡ x) × (x ≢ 0) × (x ≢ 47) × IsSpelled mem (path + 1) xs

-- A name as an element of a path: not empty, and shorter than the limit.
abbrev pub IsElement : (ℕ → ℕ) → ℕ → List ℕ → Type 0
IsElement mem path name = (0 < length name) × (length name < name_max) × IsSpelled mem path name

-- Elements stand at an address, with so many turns of the loop for them: one for each, and one for each slash
-- too many. The last one is not "." or "..".
pub data Written (mem : ℕ → ℕ) : ℕ → ℕ → Elements → Type 0 where
  nothing : {path : ℕ} → mem path ≡ 0 → Written mem path 1 slash_end
  extra_slash :
      {path n : ℕ} {elements : Elements}
      → mem path ≡ 47
      → Written mem (path + 1) n elements
      → Written mem path (suc n) elements
  one_name :
      {path : ℕ} {name : List ℕ}
      → IsElement mem path name
      → mem (path + length name) ≡ 0
      → is_dot name ≡ false
      → is_dot_dot name ≡ false
      → Written mem path 1 (last_name path name)
  name_slash :
      {path n : ℕ} {name : List ℕ} {elements : Elements}
      → IsElement mem path name
      → mem (path + length name) ≡ 47
      → Written mem (path + length name + 1) n elements
      → Written mem path (suc n) (name_in name elements)

-- A path that begins with a slash, or does not.
pub data IsPath (mem : ℕ → ℕ) (path n : ℕ) (elements : Elements) : Bool → Type 0 where
  absolute : mem path ≡ 47 → Written mem (path + 1) n elements → IsPath mem path n elements true
  relative :
      mem path ≢ 0 → mem path ≢ 47 → Written mem path n elements → IsPath mem path n elements false

pub Written-positive :
    {mem : ℕ → ℕ} {path n : ℕ} {elements : Elements} → Written mem path n elements → 0 < n
Written-positive (nothing e) = ground arith
Written-positive (extra_slash e w) = ground arith
Written-positive (one_name h e d f) = ground arith
Written-positive (name_slash h e w) = ground arith
