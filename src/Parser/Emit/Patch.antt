-- ===== src/Parser/Emit/Patch.antt =====
-- Replacing a jump offset inside code that is already there.
use aument.Prelude.{
  ℕ, suc, ◌+◌, ◌/◌, ◌%◌, ◌≡◌, refl, ap, false, some, List, [], ◌∷◌, ◌++◌, arith, leb, length, set,
  length-append,
}
use aument.Parser.Emit.{replace_bc_u16}

set-append : (xs ys : List ℕ) (k v : ℕ) → set (xs ++ ys) (length xs + k) v ≡ xs ++ set ys k v
set-append [] ys k v = let same : 0 + k ≡ k = omega arith in rw same refl
set-append (x ∷ xs) ys k v =
    let same : suc (length xs) + k ≡ suc (length xs + k) = omega arith in
    rw same (ap (λ z. x ∷ z) (set-append xs ys k v))

-- Replacing a 16-bit operand in the middle of the code.
replace_bc_u16-append :
    (xs ys : List ℕ) (a b c d val : ℕ)
    → replace_bc_u16 (length xs + 2) val (xs ++ (a ∷ (b ∷ (c ∷ (d ∷ ys)))))
      ≡ some (xs ++ (a ∷ (b ∷ ((val % 256) ∷ ((val / 256 % 256) ∷ ys)))))
unfolding replace_bc_u16
replace_bc_u16-append xs ys a b c d val =
    let total = length-append xs (a ∷ (b ∷ (c ∷ (d ∷ ys)))) in
    let inside : leb (length (xs ++ (a ∷ (b ∷ (c ∷ (d ∷ ys)))))) (length xs + 2 + 1) ≡ false =
      ground arith in
    let third : length xs + 2 + 1 ≡ length xs + 3 = omega arith in
    rw inside (
      rw (set-append xs (a ∷ (b ∷ (c ∷ (d ∷ ys)))) 2 (val % 256), third)
        (rw (set-append xs (a ∷ (b ∷ ((val % 256) ∷ (d ∷ ys)))) 3 (val / 256 % 256)) refl))

pub replace_at :
    (idx val : ℕ) (bc xs ys : List ℕ) (a b c d : ℕ)
    → idx ≡ length xs + 2
    → bc ≡ xs ++ (a ∷ (b ∷ (c ∷ (d ∷ ys))))
    → replace_bc_u16 idx val bc ≡ some (xs ++ (a ∷ (b ∷ ((val % 256) ∷ ((val / 256 % 256) ∷ ys)))))
replace_at idx val bc xs ys a b c d e same = rw (e, same) (replace_bc_u16-append xs ys a b c d val)
