-- ===== src/Stdlib/Str/Points.antt =====
-- Code points in the string functions of src/stdlib/str.c.
use aument.Prelude.{
  ℕ, zero, suc, ◌^◌, ◌<◌, ◌≡◌, refl, some, List, [], ◌∷◌, ◌++◌, map, arith, length, length-append,
}
use aument.Value.{int, str}
use aument.Utf8.{leads4, leads3, leads2, utf8_next}
use aument.Utf8.Roundtrip.{encode, utf8_codepoint-encode}
use aument.Stdlib.Str.{points, str_ord, str_code_points}
use aument.Stdlib.Str.Laws.{take-append}

-- the text of a list of code points, and that each has at most 21 bits
unfoldable pub join : List ℕ → List ℕ
join [] = []
join (c ∷ cs) = encode c ++ join cs

unfoldable pub AreCodePoints : List ℕ → Type 0
AreCodePoints [] = Unit
AreCodePoints (c ∷ cs) = (c < 2 ^ 21) × AreCodePoints cs

utf8_next-encode :
    (c : ℕ) (rest : List ℕ)
    → c < 2 ^ 21
    → (utf8_next (encode c ++ rest) ≡ some (length (encode c), rest)) × (0 < length (encode c))
unfolding utf8_next encode leads4 leads3 leads2
utf8_next-encode c rest h = (ground arith, ground arith)

points-join :
    (fuel : ℕ) (cs : List ℕ)
    → AreCodePoints cs
    → length (join cs) < fuel
    → points fuel (join cs) ≡ some (map encode cs)
unfolding points join AreCodePoints utf8_next
points-join zero cs h enough = absurd (omega arith)
points-join (suc fuel) [] h enough = refl
points-join (suc fuel) (c ∷ cs) (small, h) enough =
    let (at, some_byte) = utf8_next-encode c (join cs) small in
    let total = length-append (encode c) (join cs) in
    let more = points-join fuel cs h (omega arith) in rw (points, at, more, take-append) refl

module _ (D : Type 0) where
  -- The code points of the text of a list of code points, each of at most 21 bits, are their UTF-8
  -- forms in order.
  pub str_code_points-join :
      (cs : List ℕ)
      → AreCodePoints cs
      → str_code_points {D = D} (str (join cs)) ≡ some (map encode cs)
  unfolding str_code_points
  str_code_points-join cs h = points-join (suc (length (join cs))) cs h (omega arith)

  -- The ordinal of a text that begins with the UTF-8 form of a code point of at most 21 bits is
  -- that code point.
  pub str_ord-encode :
      (c : ℕ) (rest : List ℕ) → c < 2 ^ 21 → str_ord {D = D} (str (encode c ++ rest)) ≡ int c
  unfolding str_ord
  str_ord-encode c rest h = rw (utf8_codepoint-encode c rest h) refl
