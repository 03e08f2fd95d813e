-- ===== src/Utils/Compare.antt =====
-- `memcmp` of kernel/src/utils.c against equality of the bytes.
use chaff.Prelude.{ℕ, ◌≡◌, refl, List, [], ◌∷◌, arith, length}
use chaff.Utils.{equal, mem_cmp}

pub mem_cmp_self : (xs : List ℕ) → mem_cmp (length xs) xs xs ≡ equal
unfolding mem_cmp
mem_cmp_self [] = refl
mem_cmp_self (x ∷ xs) = ground (arith, mem_cmp_self xs)

pub mem_cmp-eq :
    (xs ys : List ℕ) → length xs ≡ length ys → mem_cmp (length xs) xs ys ≡ equal → xs ≡ ys
unfolding mem_cmp
mem_cmp-eq [] [] h e = refl
mem_cmp-eq [] (y ∷ ys) h e = absurd (omega arith)
mem_cmp-eq (x ∷ xs) [] h e = absurd (omega arith)
mem_cmp-eq (x ∷ xs) (y ∷ ys) h e = ground (arith, mem_cmp-eq xs ys (omega arith))
