-- ===== src/Tests/Texts.antt =====
-- Text functions of src/core/utf8.h and src/stdlib/str.c at concrete inputs.

use aument.Prelude.{
  ◌==◌, none, ℕ, ◌-◌, ◌^◌, ◌≡◌, refl, some, List, [], ◌∷◌, ◌++◌, arith, ltb, if◌then◌else◌,
}
use aument.Value.{int, str}
use aument.Utf8.{utf8_codepoint, utf8_str}
use aument.Utf8.Roundtrip.{encode, utf8_codepoint-encode}
use aument.Utf8.Search.{utf8_str_gap, ascii}
use aument.Stdlib.Str.{str_into, str_code_points}
use aument.Stdlib.Str.Points.{AreCodePoints, join, str_code_points-join}
use aument.Stdlib.Str.Numbers.{reading, str_into-decimal}

-- the euro sign, and a byte after it
utf8_codepoint-encode_example : utf8_codepoint (encode 8364 ++ (33 ∷ [])) ≡ some (8364, 33 ∷ [])
utf8_codepoint-encode_example = utf8_codepoint-encode 8364 (33 ∷ []) (omega arith)

abbrev euro : List ℕ
euro = 226 ∷ (130 ∷ (172 ∷ []))

-- axb
abbrev text : List ℕ
text = 97 ∷ (120 ∷ (98 ∷ []))

utf8_str_gap_example : utf8_str 2 text (97 ∷ (98 ∷ [])) ≡ some (98 ∷ [])
unfolding ascii
utf8_str_gap_example = utf8_str_gap 0 97 120 98 [] refl (λ e. absurd (omega arith))

str_code_points-join_example :
    str_code_points {D = ℕ} (str (join (97 ∷ (8364 ∷ [])))) ≡ some (encode 97 ∷ (encode 8364 ∷ []))
unfolding AreCodePoints
str_code_points-join_example =
    str_code_points-join ℕ (97 ∷ (8364 ∷ [])) (omega arith, (omega arith, tt))

-- -12
str_into-decimal_example :
    (s : List ℕ) × (str_into {D = ℕ} (int (2 ^ 32 - 12))
      ≡ some (str (if ltb (2 ^ 32 - 12) (2 ^ 31) then s else 45 ∷ s)))
    × (reading s ≡ (
        if 2 ^ 32 - 12 == 0
        then none
        else some (if ltb (2 ^ 32 - 12) (2 ^ 31) then 2 ^ 32 - 12 else 2 ^ 32 - (2 ^ 32 - 12))))
str_into-decimal_example =
    str_into-decimal {D = ℕ} (2 ^ 32 - 12) (omega arith) (λ e. absurd (omega arith))
