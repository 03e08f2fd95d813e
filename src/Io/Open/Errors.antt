-- ===== src/Io/Open/Errors.antt =====
-- Every error that `IoOpen` finds before it opens a file has a number.
use chaff.Prelude.{
  ℕ, ◌≡◌, refl, Bool, true, false, not, Option, none, some, List, if◌then◌else◌, arith,
}
use Prim.Native.Nat.{bit_and, bit_or}
use chaff.Prelude.Int.{ℤ}
use chaff.Io.Context.{is_zero, enosys, has_flag}
use chaff.Io.Mode.{Inode, mode_regular}
use chaff.Io.Path.{name_max, enoent, bytes, Tree, Found}
use chaff.Utils.{str_len}
use chaff.Io.Open.{
  FileCalls, Checked, early, undo, opens, after_lookup, check_inode, then_check, create_file,
  created, all_permissions, o_creat,
}

-- Every result of a switch or a check that is an error is not 0.
pub data IsError : Checked → Type 0 where
  early_error : {res : ℤ} → is_zero res ≡ false → IsError (early res)
  undo_error : {res : ℤ} → is_zero res ≡ false → IsError (undo res)
  no_error : {inode : Inode} {flags : ℕ} → IsError (opens inode flags)

if_IsError :
    (b : Bool) (x y : Checked)
    → (b ≡ true → IsError x)
    → (b ≡ false → IsError y)
    → IsError (if b then x else y)
if_IsError true x y h k = h refl
if_IsError false x y h k = k refl

not-true : {b : Bool} → not b ≡ true → b ≡ false
not-true {b = true} e = absurd (ground (arith, e))
not-true {b = false} e = refl

check_inode-IsError :
    (tree : Tree) (flags : ℕ) (inode : Inode) → IsError (check_inode tree flags inode)
unfolding check_inode
check_inode-IsError tree flags inode = search (if_IsError, undo_error, no_error)

pub then_check-IsError : (tree : Tree) (c : Checked) → IsError c → IsError (then_check tree c)
then_check-IsError tree (early _) h = h
then_check-IsError tree (undo _) h = h
then_check-IsError tree (opens inode flags) h = check_inode-IsError tree flags inode

create_file-IsError :
    (calls : FileCalls) (tree : Tree) (flags mode : ℕ) (inode : Inode) (name : List ℕ)
    → IsError (create_file calls tree flags mode inode name)
create_file-IsError calls tree flags mode inode name =
    search (if_IsError, early_error, by_create (calls.create inode.fs))
  where
    by_create :
        (o : Option (Inode → List ℕ → ℕ → ℤ × ℕ))
        → IsError (elim o [
          | none ↦ early enosys
          | some create ↦
              let (res, number) =
                create inode name (bit_or (bit_and mode all_permissions) mode_regular) in
              if not (is_zero res)
              then early res
              else created calls flags (record inode { number = number })
        ])
    by_create none = early_error refl
    by_create (some create) = search (if_IsError, early_error, undo_error, no_error, not-true)

pub after_lookup-IsError :
    (calls : FileCalls) (tree : Tree) (mem : ℕ → ℕ) (flags mode : ℕ) (found : Found)
    → IsError (after_lookup calls tree mem flags mode found)
unfolding after_lookup
after_lookup-IsError calls tree mem flags mode found =
    search (if_IsError, early_error, no_error, by_start found.file_start)
  where
    by_start :
        (o : Option ℕ)
        → IsError (elim o [
          | none ↦ early enoent
          | some start ↦
              if has_flag flags o_creat
              then create_file calls tree flags mode found.output
                  (bytes mem start (str_len name_max mem start))
              else early enoent
        ])
    by_start none = early_error refl
    by_start (some start) = search (if_IsError, early_error, create_file-IsError)
