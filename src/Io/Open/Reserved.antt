-- ===== src/Io/Open/Reserved.antt =====
-- A descriptor that `IoOpen` reserves and returns without giving back.
use chaff.Prelude.{
  ℕ, ◌≤◌, ◌≡◌, refl, inl, inr, Bool, true, false, ◌||◌, some, leb, ◌==◌, Option-cases, arith,
}
use Prim.Native.Nat.{bit_and}
use chaff.Prelude.Int.{ℤ, pos, negsuc}
use chaff.Io.Context.{max_open_files, is_zero, einval, has_flag}
use chaff.Io.Mode.{Inode}
use chaff.Io.Path.{enoent, is_error, Tree, Found}
use chaff.Io.Path.Elements.{Elements, IsPath, resolve_path}
use chaff.Io.Path.Walk.{lookup_path-resolve}
use chaff.Io.Open.{
  o_creat, o_rdwr, o_allflags, FileCalls, OpenFiles, early, after_lookup, is_some, is_taken,
  trim_flags, reserve, open_file,
}

after_lookup-missing :
    (calls : FileCalls) (tree : Tree) (mem : ℕ → ℕ) (flags mode : ℕ) (found : Found)
    → is_error 2 found.res ≡ true
    → has_flag flags o_creat ≡ false
    → after_lookup calls tree mem flags mode found ≡ early enoent
unfolding after_lookup
after_lookup-missing calls tree mem flags mode found e c =
    rw (zero found.res e, after_lookup)
      (rw (directory found.res e) (
        rw (e) (elim (Option-cases found.file_start) [
          | inl n ↦ rw n refl
          | inr (a, n) ↦ rw n (rw c refl)
        ])))
  where
    zero : (r : ℤ) → is_error 2 r ≡ true → is_zero r ≡ false
    zero (pos n) e = ground (arith, e)
    zero (negsuc n) e = refl

    directory : (r : ℤ) → is_error 2 r ≡ true → is_error 21 r ≡ false
    directory (pos n) e = refl
    directory (negsuc n) e = ground (arith, e)

or_true : (a b : Bool) → (a || b || true) ≡ true
or_true true b = refl
or_true false true = refl
or_true false false = refl

reserve-is_taken : (fd : ℕ) (s : OpenFiles) → is_taken (reserve fd s).context fd ≡ true
reserve-is_taken fd s =
    rw (itself fd) (or_true (leb max_open_files fd) (is_some (s.context.files fd)))
  where
    itself : (n : ℕ) → (n == n) ≡ true
    itself n = ground arith

taken-refused :
    (fuel : ℕ) (calls : FileCalls) (tree : Tree) (mem : ℕ → ℕ) (path flags mode fd f : ℕ)
    (output : Inode) (s : OpenFiles)
    → is_taken s.context fd ≡ true
    → open_file fuel calls tree mem path flags mode fd f output s ≡ some (s, einval)
unfolding open_file
taken-refused fuel calls tree mem path flags mode fd f output s e = rw (e, open_file) refl

-- `IoOpen` at a free descriptor, with an access mode and without IO_O_CREAT in the flags, of a path that
-- does not exist and whose last element is neither "." nor "..", returns -ENOENT with the descriptor
-- reserved, given fuel for the path: every `IoOpen` at the descriptor after it, of whatever path and
-- with whatever flags, returns -EINVAL.
pub open_file-reserved :
    (fuel n : ℕ) (calls : FileCalls) (tree : Tree) (mem : ℕ → ℕ) (path flags mode fd f : ℕ)
    (output : Inode) (s : OpenFiles) (elements : Elements) (from_root : Bool)
    → IsPath mem path n elements from_root
    → n ≤ fuel
    → is_taken s.context fd ≡ false
    → has_flag (bit_and flags o_allflags) o_rdwr ≡ true
    → has_flag (trim_flags flags) o_creat ≡ false
    → is_error 2 (resolve_path tree from_root elements output).res ≡ true
    → (v : OpenFiles) × (open_file fuel calls tree mem path flags mode fd f output s
        ≡ some (v, enoent))
      × ((later : Tree) (place flags' mode' f' : ℕ)
          → open_file fuel calls later mem place flags' mode' fd f' output v ≡ some (v, einval))
unfolding open_file
open_file-reserved fuel n calls tree mem path flags mode fd f output s elements from_root w l free
      rdwr creat e =
    (
      reserve fd s,
      rw (free, open_file)
          (rw rdwr (
            rw (lookup_path-resolve fuel n tree mem path output elements from_root w l) (
              rw
                (after_lookup-missing calls tree mem (trim_flags flags) mode
                  (resolve_path tree from_root elements output) e creat)
                refl))),
      λ later place flags' mode' f'.
          taken-refused fuel calls later mem place flags' mode' fd f' output (reserve fd s)
            (reserve-is_taken fd s),
    )
