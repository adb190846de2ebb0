-- ===== src/Stdlib/Str/Laws.antt =====
-- What the string functions of src/stdlib/str.c return.
use aument.Prelude.{
  ℕ, ◌-◌, ◌≡◌, refl, sym, ap, ◌∙◌, ◌↔◌, true, false, List, [], ◌∷◌, ◌++◌, arith, ltb, length, take,
  drop, take-drop, length-append,
}
use aument.Lexer.{bytes_eq-eq, bytes_eq_refl}
use aument.Value.{bool, str}
use aument.Stdlib.Str.{str_starts_with, str_ends_with}

pub take-append : (s t : List ℕ) → take (length s) (s ++ t) ≡ s
take-append [] t = refl
take-append (a ∷ s) t = ap (λ z. a ∷ z) (take-append s t)

drop-append : (s t : List ℕ) → drop (length s) (s ++ t) ≡ t
drop-append [] t = refl
drop-append (a ∷ s) t = drop-append s t

module _ {D : Type 0} where
  -- starts_with is true exactly when the text is the prefix and some text after it.
  pub str_starts_with_iff :
      (h n : List ℕ)
      → (str_starts_with {D = D} (str h) (str n) ≡ bool true) ↔ ((t : List ℕ) × (h ≡ n ++ t))
  unfolding str_starts_with
  str_starts_with_iff h n = (
    λ e.
        let same = bytes_eq-eq (take (length n) h) n (ground arith) in
        (drop (length n) h, sym (take-drop (length n) h) ∙ ap (λ z. z ++ drop (length n) h) same),
    λ found.
        let long : ltb (length h) (length n) ≡ false =
          let total = ap length found.1 ∙ length-append n found.0 in ground arith in
        let front : take (length n) h ≡ n = ap (take (length n)) found.1 ∙ take-append n found.0 in
        rw long (rw front (ap bool (bytes_eq_refl n))),
  )

  -- ends_with is true exactly when the text is some text and the suffix after it.
  pub str_ends_with_iff :
      (h n : List ℕ)
      → (str_ends_with {D = D} (str h) (str n) ≡ bool true) ↔ ((t : List ℕ) × (h ≡ t ++ n))
  unfolding str_ends_with
  str_ends_with_iff h n = (
    λ e.
        let same = bytes_eq-eq (drop (length h - length n) h) n (ground arith) in
        (
          take (length h - length n) h,
          sym (take-drop (length h - length n) h)
              ∙ ap (λ z. take (length h - length n) h ++ z) same,
        ),
    λ found.
        let total = ap length found.1 ∙ length-append found.0 n in
        let long : ltb (length h) (length n) ≡ false = ground arith in
        let cut : length h - length n ≡ length found.0 = omega arith in
        let back : drop (length h - length n) h ≡ n =
          rw cut (ap (drop (length found.0)) found.1 ∙ drop-append found.0 n) in
        rw long (rw back (ap bool (bytes_eq_refl n))),
  )
