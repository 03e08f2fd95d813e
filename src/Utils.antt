-- ===== src/Utils.antt =====
-- kernel/src/utils.c: memory and string primitives. A byte is a number below 256, and `char` is
-- signed, as it is for the compilers of this target.
pub mod Compare
use chaff.Prelude.{
  ℕ, zero, suc, ◌+◌, ◌%◌, Bool, List, [], ◌∷◌, ltb, leb, ◌==◌, if◌then◌else◌, u32_mod,
}

-- `char` values in the order of signed bytes.
pub char_lt : ℕ → ℕ → Bool
char_lt a b = ltb ((a + 128) % 256) ((b + 128) % 256)

-- A `char` converted to `unsigned int`: the sign is extended.
unfoldable pub char_to_u32 : ℕ → ℕ
char_to_u32 c = if leb 128 c then c + 0xFFFFFF00 else c

-- The result of a comparison: -1, 0 or 1.
pub data Sign : Type 0 where
  minus equal plus : Sign

-- `memcmp`, over the bytes from each pointer on. No caller reads past the end of its bytes.
unfoldable pub mem_cmp : ℕ → List ℕ → List ℕ → Sign
unfolding char_lt
mem_cmp zero xs ys = equal
mem_cmp (suc n) [] ys = equal
mem_cmp (suc n) (x ∷ xs) [] = equal
mem_cmp (suc n) (x ∷ xs) (y ∷ ys) =
    let rest = mem_cmp n xs ys in if x == y then rest else if char_lt x y then minus else plus

-- `StrLen`, of the string at an address.
pub str_len : ℕ → (ℕ → ℕ) → ℕ → ℕ
str_len zero mem s = 0
str_len (suc n) mem s = let rest = str_len n mem (s + 1) in if mem s == 0 then 0 else suc rest
