-- ===== src/Utf8.antt =====
-- UTF-8: src/core/utf8.h. A pointer between `s` and `max` is the list of the bytes from it on. The
-- masks on a byte are written as quotients and remainders, and disjoint bits are added. `char` is
-- signed, as on the machines that the project builds for: a byte that starts no code point and is
-- not ASCII gives a negative `int32_t`, here its 32-bit pattern.
pub mod Roundtrip
pub mod Search
use aument.Prelude.{
  ℕ, zero, suc, ◌+◌, ◌-◌, ◌*◌, ◌/◌, ◌%◌, ◌^◌, ◌≤◌, ◌<◌, min, max, ◌≡◌, refl, sym, ap, ◌∙◌, ◌≢◌, ◌↔◌,
  ◌⊎◌, inl, inr, Bool, true, false, ◌&&◌, ◌||◌, not, Option, none, some, List, [], ◌∷◌, ◌++◌, map,
  arith, ltb, leb, ◌==◌, if◌then◌else◌, ltb→lt, lt→ltb, leb→le, le→leb, ==→eq, ==_refl, Bool-cases,
  Option-cases, ◌>>=◌, ◌>>◌, guard, length, get_elem?, get_or, set, take, drop, replicate,
  length-append, length-set, get_elem?-set_self, get_elem?-set_ne, length-replicate, bind_parts,
  bind_some, append_assoc, append-nil,
}

-- 0xf0 == (0xf8 & b), 0xe0 == (0xf0 & b), 0xc0 == (0xe0 & b)
unfoldable pub leads4 : ℕ → Bool
leads4 b = b / 8 == 30

unfoldable pub leads3 : ℕ → Bool
leads3 b = b / 16 == 14

unfoldable pub leads2 : ℕ → Bool
leads2 b = b / 32 == 6

-- the code point of the first bytes, and the bytes after it
abbrev pub take4 : List ℕ → Option (ℕ × List ℕ)
take4 (a ∷ (b ∷ (c ∷ (d ∷ rest)))) =
    some (a % 8 * 2 ^ 18 + b % 64 * 2 ^ 12 + c % 64 * 2 ^ 6 + d % 64, rest)
take4 _ = none

abbrev pub take3 : List ℕ → Option (ℕ × List ℕ)
take3 (a ∷ (b ∷ (c ∷ rest))) = some (a % 16 * 2 ^ 12 + b % 64 * 2 ^ 6 + c % 64, rest)
take3 _ = none

abbrev pub take2 : List ℕ → Option (ℕ × List ℕ)
take2 (a ∷ (b ∷ rest)) = some (a % 32 * 2 ^ 6 + b % 64, rest)
take2 _ = none

abbrev pub take1 : ℕ → List ℕ → Option (ℕ × List ℕ)
take1 a rest = some (if ltb a 128 then a else a + (2 ^ 32 - 256), rest)

unfoldable pub utf8_codepoint : List ℕ → Option (ℕ × List ℕ)
utf8_codepoint [] = none
utf8_codepoint (b ∷ rest) =
    if leads4 b
    then take4 (b ∷ rest)
    else if leads3 b
    then take3 (b ∷ rest)
    else if leads2 b
    then take2 (b ∷ rest)
    else take1 b rest

-- `s + n`, unless it goes beyond `max`
abbrev pub advance : ℕ → List ℕ → Option (ℕ × List ℕ)
advance n s = if leb n (length s) then some (n, drop n s) else none

unfoldable pub utf8_next : List ℕ → Option (ℕ × List ℕ)
utf8_next [] = none
utf8_next (b ∷ rest) =
    if leads4 b
    then advance 4 (b ∷ rest)
    else if leads3 b
    then advance 3 (b ∷ rest)
    else if leads2 b
    then advance 2 (b ∷ rest)
    else advance 1 (b ∷ rest)

-- the inner loop of utf8_str: how far the two texts agree
unfoldable pub march : List ℕ → List ℕ → List ℕ × List ℕ
march [] n = ([], n)
march (a ∷ h) [] = (a ∷ h, [])
march (a ∷ h) (b ∷ n) = let further = march h n in if a == b then further else (a ∷ h, b ∷ n)

-- utf8_str with at most `fuel` turns of its outer loop. The needle stays where the inner loop has
-- left it.
unfoldable pub utf8_str : ℕ → List ℕ → List ℕ → Option (List ℕ)
utf8_str zero h n = none
utf8_str (suc fuel) [] n = none
utf8_str (suc fuel) (a ∷ h) n =
    let marched = march (a ∷ h) n in
    elim marched.1 [
      | [] ↦ some (a ∷ h)
      | b ∷ left ↦ utf8_next marched.0 >>= λ z. utf8_str fuel z.1 (b ∷ left)
    ]
