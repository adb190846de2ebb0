-- ===== src/BitArray.antt =====
-- Bit arrays: src/core/bit_array.h. `x & (0x1 << k)` and `x |= 0x1 << k` on one byte go down its
-- binary digits.
use aument.Prelude.{
  ℕ, zero, suc, ◌+◌, ◌-◌, ◌*◌, ◌/◌, ◌%◌, ◌<◌, ◌≡◌, arith, Bool, ◌&&◌, ◌||◌, not, List, [], ◌∷◌,
  if◌then◌else◌, ◌==◌, length, get_or, set, length-set, Bool-cases, inl, inr,
}

-- the bit of value 2 ^ k
unfoldable pub bit : ℕ → ℕ → Bool
bit b zero = b % 2 == 1
bit b (suc k) = bit (b / 2) k

unfoldable pub set_bit : ℕ → ℕ → ℕ
set_bit b zero = if b % 2 == 1 then b else b + 1
set_bit b (suc k) = 2 * set_bit (b / 2) k + b % 2

unfoldable pub reset_bit : ℕ → ℕ → ℕ
reset_bit b zero = if b % 2 == 1 then b - 1 else b
reset_bit b (suc k) = 2 * reset_bit (b / 2) k + b % 2

-- AU_BA_GET_BIT, AU_BA_SET_BIT, AU_BA_RESET_BIT
unfoldable pub get : List ℕ → ℕ → Bool
get x n = bit (get_or x (n / 8) 0) (n % 8)

unfoldable pub set_at : List ℕ → ℕ → List ℕ
set_at x n = set x (n / 8) (set_bit (get_or x (n / 8) 0) (n % 8))

unfoldable pub reset_at : List ℕ → ℕ → List ℕ
reset_at x n = set x (n / 8) (reset_bit (get_or x (n / 8) 0) (n % 8))

bit-set_bit : (b k j : ℕ) → bit (set_bit b k) j ≡ (k == j) || bit b j
unfolding bit set_bit
bit-set_bit b zero zero = ground arith
bit-set_bit b zero (suc j) = elim (Bool-cases (b % 2 == 1)) [
  | inl e ↦ rw e (ground arith)
  | inr e ↦ let same : (b + 1) / 2 ≡ b / 2 = ground arith in rw e (rw same (ground arith))
]
bit-set_bit b (suc k) zero = ground arith
bit-set_bit b (suc k) (suc j) =
    let same : (2 * set_bit (b / 2) k + b % 2) / 2 ≡ set_bit (b / 2) k = omega arith in
    rw (same, bit-set_bit (b / 2) k j) (ground arith)

bit-reset_bit : (b k j : ℕ) → bit (reset_bit b k) j ≡ not (k == j) && bit b j
unfolding bit reset_bit
bit-reset_bit b zero zero = ground arith
bit-reset_bit b zero (suc j) = elim (Bool-cases (b % 2 == 1)) [
  | inl e ↦ let same : (b - 1) / 2 ≡ b / 2 = ground arith in rw e (rw same (ground arith))
  | inr e ↦ rw e (ground arith)
]
bit-reset_bit b (suc k) zero = ground arith
bit-reset_bit b (suc k) (suc j) =
    let same : (2 * reset_bit (b / 2) k + b % 2) / 2 ≡ reset_bit (b / 2) k = omega arith in
    rw (same, bit-reset_bit (b / 2) k j) (ground arith)

get_or-set :
    (xs : List ℕ) (i j v : ℕ)
    → i < length xs
    → get_or (set xs i v) j 0 ≡ (if i == j then v else get_or xs j 0)
get_or-set [] i j v h = elim h [ ]
get_or-set (x ∷ xs) zero zero v h = ground arith
get_or-set (x ∷ xs) zero (suc j) v h = ground arith
get_or-set (x ∷ xs) (suc i) zero v h = ground arith
get_or-set (x ∷ xs) (suc i) (suc j) v h = rw (get_or-set xs i j v (omega arith)) (ground arith)

same_place : (n m : ℕ) → ((n / 8 == m / 8) && (n % 8 == m % 8)) ≡ (n == m)
same_place n m = ground arith

module _ (x : List ℕ) (n m : ℕ) (h : n / 8 < length x) where
  -- Setting a bit whose byte lies in the array sets that bit and no other.
  pub get-set_at : get (set_at x n) m ≡ (n == m) || get x m
  unfolding get set_at
  get-set_at = rw (get_or-set x _ _ _ h) (elim (Bool-cases (n / 8 == m / 8)) [
    | inl e ↦
        let same : m / 8 ≡ n / 8 = ground arith in
        rw (e, bit-set_bit, same) (ground (arith, same_place n m))
    | inr e ↦ rw e (ground (arith, same_place n m))
  ])

  -- Resetting a bit whose byte lies in the array resets that bit and no other.
  pub get-reset_at : get (reset_at x n) m ≡ not (n == m) && get x m
  unfolding get reset_at
  get-reset_at = rw (get_or-set x _ _ _ h) (elim (Bool-cases (n / 8 == m / 8)) [
    | inl e ↦
        let same : m / 8 ≡ n / 8 = ground arith in
        rw (e, bit-reset_bit, same) (ground (arith, same_place n m))
    | inr e ↦ rw e (ground (arith, same_place n m))
  ])

pub length-set_at : (x : List ℕ) (n : ℕ) → length (set_at x n) ≡ length x
unfolding set_at
length-set_at x n = length-set x _ _

pub length-reset_at : (x : List ℕ) (n : ℕ) → length (reset_at x n) ≡ length x
unfolding reset_at
length-reset_at x n = length-set x _ _
