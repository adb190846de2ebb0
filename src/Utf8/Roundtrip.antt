-- ===== src/Utf8/Roundtrip.antt =====
-- The decoder of src/core/utf8.h against UTF-8 as it is defined.
use aument.Prelude.{
  ℕ, ◌+◌, ◌/◌, ◌%◌, ◌^◌, ◌<◌, ◌≡◌, refl, some, List, [], ◌∷◌, ◌++◌, arith, ltb, if◌then◌else◌,
  length,
}
use mathlib.Core.Option
use aument.Utf8.{leads4, leads3, leads2, utf8_codepoint, utf8_next}

-- the UTF-8 form of a code point
unfoldable pub encode : ℕ → List ℕ
encode c =
    if ltb c 128
    then c ∷ []
    else if ltb c (2 ^ 11)
    then (192 + c / 2 ^ 6) ∷ ((128 + c % 64) ∷ [])
    else if ltb c (2 ^ 16)
    then (224 + c / 2 ^ 12) ∷ ((128 + c / 2 ^ 6 % 64) ∷ ((128 + c % 64) ∷ []))
    else (240 + c / 2 ^ 18)
      ∷ ((128 + c / 2 ^ 12 % 64) ∷ ((128 + c / 2 ^ 6 % 64) ∷ ((128 + c % 64) ∷ [])))

-- Every code point of at most 21 bits is read back from its UTF-8 form, and the bytes after it are
-- left.
pub utf8_codepoint-encode :
    (c : ℕ) (rest : List ℕ) → c < 2 ^ 21 → utf8_codepoint (encode c ++ rest) ≡ some (c, rest)
unfolding utf8_codepoint encode leads4 leads3 leads2
utf8_codepoint-encode c rest h = ground arith

-- utf8_next goes as far as utf8_codepoint on every text, and fails where it fails; the size that
-- it gives is the number of bytes it passes over.
pub utf8_next-utf8_codepoint :
    (s : List ℕ)
    → (Option.map (λ z. z.1) (utf8_next s) ≡ Option.map (λ z. z.1) (utf8_codepoint s))
      × ((n : ℕ) (t : List ℕ) → utf8_next s ≡ some (n, t) → length s ≡ n + length t)
unfolding utf8_codepoint utf8_next
utf8_next-utf8_codepoint [] = (refl, λ n t e. ground arith)
utf8_next-utf8_codepoint (a ∷ []) = (ground arith, λ n t e. ground arith)
utf8_next-utf8_codepoint (a ∷ (b ∷ [])) = (ground arith, λ n t e. ground arith)
utf8_next-utf8_codepoint (a ∷ (b ∷ (c ∷ []))) = (ground arith, λ n t e. ground arith)
utf8_next-utf8_codepoint (a ∷ (b ∷ (c ∷ (d ∷ rest)))) = (ground arith, λ n t e. ground arith)
