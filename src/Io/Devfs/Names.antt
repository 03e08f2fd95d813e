-- ===== src/Io/Devfs/Names.antt =====
-- Names, entries of tables, and numbers.
use chaff.Prelude.{
  ℕ, ◌≡◌, ◌≢◌, refl, true, false, ◌&&◌, Option, none, some, List, [], ◌∷◌, ◌==◌, update, arith,
}
use chaff.Io.Devfs.{same_name, set_name}

pub none≢some : (d : ℕ) → none ≢ some d
none≢some d e = cc

pub true≢false : true ≢ false
true≢false e = cc

pub some_injective : (d e : ℕ) → some d ≡ some e → d ≡ e
some_injective d e h = cc

pub same_name_refl : (xs : List ℕ) → same_name xs xs ≡ true
unfolding same_name
same_name_refl [] = refl
same_name_refl (x ∷ xs) = rw (same_name_refl xs) (ground arith)

pub same_name-equal : (xs ys : List ℕ) → same_name xs ys ≡ true → xs ≡ ys
unfolding same_name
same_name-equal [] [] e = refl
same_name-equal [] (y ∷ ys) e = absurd (ground (arith, e))
same_name-equal (x ∷ xs) [] e = absurd (ground (arith, e))
same_name-equal (x ∷ xs) (y ∷ ys) e = rw (head e, same_name-equal xs ys (tail e)) refl
  where
    head : ((x == y) && same_name xs ys) ≡ true → x ≡ y
    head e = ground (arith, e)

    tail : ((x == y) && same_name xs ys) ≡ true → same_name xs ys ≡ true
    tail e = ground (arith, e)

pub equal : (d e : ℕ) → (d == e) ≡ true → d ≡ e
equal d e h = ground (arith, h)

pub differ : (d e : ℕ) → d ≢ e → (d == e) ≡ false
differ d e h = ground (arith, h)

pub itself : (n : ℕ) → (n == n) ≡ true
itself n = ground arith

pub set_name-same :
    (files : List ℕ → Option ℕ) (name other : List ℕ) (v : Option ℕ)
    → same_name name other ≡ true
    → set_name files name v other ≡ v
set_name-same files name other v b = rw b refl

pub set_name-other :
    (files : List ℕ → Option ℕ) (name other : List ℕ) (v : Option ℕ)
    → same_name name other ≡ false
    → set_name files name v other ≡ files other
set_name-other files name other v b = rw b refl

pub update_same {ℓ} : {A : Type ℓ} (g : ℕ → A) (i : ℕ) (v : A) → update g i v i ≡ v
update_same g i v = rw (itself i) refl

pub update_other {ℓ} :
    {A : Type ℓ} (g : ℕ → A) (i j : ℕ) (v : A) → (i == j) ≡ false → update g i v j ≡ g j
update_other g i j v d = rw d refl

pub update_eq {ℓ} :
    {A : Type ℓ} (g : ℕ → A) (i j : ℕ) (v : A) → (i == j) ≡ true → update g i v j ≡ v
update_eq g i j v d = rw d refl
