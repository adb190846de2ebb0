-- ===== src/Stdlib/Str/Numbers.antt =====
-- Integers as text: au_std_str_into of src/stdlib/str.c.
use aument.Prelude.{
  ℕ, zero, suc, ◌+◌, ◌-◌, ◌*◌, ◌/◌, ◌^◌, ◌≤◌, ◌<◌, ◌≡◌, refl, sym, ap, ◌∙◌, ◌≢◌, inl, inr, false,
  Option, none, some, List, [], ◌∷◌, arith, ltb, ◌==◌, if◌then◌else◌, Bool-cases, ==→eq,
}
use aument.Value.{int, str}
use aument.Stdlib.Str.{digits, reverse_onto, int_text, str_into}

-- the number that a text of decimal digits is written for, after the digits read so far
unfoldable pub decimal : List ℕ → ℕ → ℕ
decimal [] n = n
decimal (d ∷ ds) n = decimal ds (n * 10 + (d - 48))

unfoldable backwards : List ℕ → ℕ
backwards [] = 0
backwards (d ∷ ds) = backwards ds * 10 + (d - 48)

decimal-reverse_onto :
    (ds out : List ℕ) → decimal (reverse_onto ds out) 0 ≡ decimal out (backwards ds)
unfolding decimal backwards
decimal-reverse_onto [] out = refl
decimal-reverse_onto (d ∷ ds) out = decimal-reverse_onto ds (d ∷ out)

backwards-digits : (fuel n : ℕ) → n < 10 ^ fuel → backwards (digits fuel n) ≡ n
unfolding backwards digits
backwards-digits zero n h = omega arith
backwards-digits (suc fuel) n h =
    let smaller : n / 10 < 10 ^ fuel = omega arith in
    let rest = backwards-digits fuel (n / 10) smaller in ground arith

-- the digits of a number below 2 ^ 31
digits_text : (n : ℕ) → n ≤ 2 ^ 31 → decimal (reverse_onto (digits 10 n) []) 0 ≡ n
unfolding decimal
digits_text n h = decimal-reverse_onto (digits 10 n) [] ∙ backwards-digits 10 n (omega arith)

-- what a text reads as in decimal; the empty text is not a number
abbrev pub reading : List ℕ → Option ℕ
reading [] = none
reading (d ∷ ds) = some (decimal (d ∷ ds) 0)

reading-decimal : (s : List ℕ) (n : ℕ) → n ≢ 0 → decimal s 0 ≡ n → reading s ≡ some n
unfolding decimal
reading-decimal [] n other e = absurd (other (sym e))
reading-decimal (d ∷ ds) n other e = ap some e

-- the loop that writes digits does not run for 0
no_digits : reverse_onto (digits 10 0) [] ≡ []
unfolding digits reverse_onto
no_digits = refl

module _ {D : Type 0} where
  -- The text of an int that is positive reads in decimal as that int; that of a negative one,
  -- but the least, is a minus sign and a text that reads as its magnitude; the text of 0 is empty.
  pub str_into-decimal :
      (n : ℕ)
      → n < 2 ^ 32
      → n ≢ 2 ^ 31
      → (s : List ℕ) × (str_into {D = D} (int n)
          ≡ some (str (if ltb n (2 ^ 31) then s else 45 ∷ s)))
        × (reading s ≡ (if n == 0 then none else some (if ltb n (2 ^ 31) then n else 2 ^ 32 - n)))
  unfolding str_into int_text
  str_into-decimal n h other = elim (Bool-cases (n == 0)) [
    | inl zero_text ↦
        let e = ==→eq n 0 zero_text in rw e ([], ap (λ s. some (str s)) no_digits, refl)
    | inr some_digits ↦ elim (Bool-cases (ltb n (2 ^ 31))) [
      | inl e ↦
          rw (some_digits, e)
            (
              _,
              refl,
              reading-decimal _ n (λ z. absurd (ground arith)) (digits_text n (ground arith)),
            )
      | inr e ↦
          let least : (n == 2 ^ 31) ≡ false = ground arith in
          rw (some_digits, e)
            (rw least (
              _,
              refl,
              reading-decimal _ (2 ^ 32 - n) (λ z. absurd (omega arith))
                  (digits_text (2 ^ 32 - n) (ground arith)),
            ))
    ]
  ]
