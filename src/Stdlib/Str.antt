-- ===== src/Stdlib/Str.antt =====
-- String functions: src/stdlib/str.c. `none` is undefined behaviour of C, or no fuel.
pub mod Laws
pub mod Points
pub mod Numbers
use aument.Prelude.{
  ℕ, zero, suc, ◌+◌, ◌-◌, ◌*◌, ◌/◌, ◌%◌, ◌^◌, ◌≤◌, ◌<◌, min, max, ◌≡◌, refl, sym, ap, ◌∙◌, ◌≢◌, ◌↔◌,
  ◌⊎◌, inl, inr, Bool, true, false, ◌&&◌, ◌||◌, not, Option, none, some, List, [], ◌∷◌, ◌++◌, map,
  arith, ltb, leb, ◌==◌, if◌then◌else◌, ltb→lt, lt→ltb, leb→le, le→leb, ==→eq, ==_refl, Bool-cases,
  Option-cases, ◌>>=◌, ◌>>◌, guard, length, get_elem?, get_or, set, take, drop, replicate,
  length-append, length-set, get_elem?-set_self, get_elem?-set_ne, length-replicate, bind_parts,
  bind_some, append_assoc, append-nil,
}
use aument.Value.{Value, int, bool, str, Vtype, get_type}
use aument.Lexer.{bytes_eq}
use aument.Utf8.{utf8_codepoint, utf8_next, utf8_str}

-- "(true)" and "(false)"
abbrev pub true_text : List ℕ
true_text = 40 ∷ (116 ∷ (114 ∷ (117 ∷ (101 ∷ (41 ∷ [])))))

abbrev pub false_text : List ℕ
false_text = 40 ∷ (102 ∷ (97 ∷ (108 ∷ (115 ∷ (101 ∷ (41 ∷ []))))))

-- the digits that the loop on abs_num writes, the last one first
unfoldable pub digits : ℕ → ℕ → List ℕ
digits zero n = []
digits (suc fuel) n = let rest = digits fuel (n / 10) in if n == 0 then [] else (n % 10 + 48) ∷ rest

abbrev pub reverse_onto : List ℕ → List ℕ → List ℕ
reverse_onto [] out = out
reverse_onto (d ∷ ds) out = reverse_onto ds (d ∷ out)

-- -abs_num overflows for the least int
unfoldable pub int_text : ℕ → Option (List ℕ)
int_text n =
    if ltb n (2 ^ 31)
    then some (reverse_onto (digits 10 n) [])
    else if n == 2 ^ 31
    then none
    else some (45 ∷ reverse_onto (digits 10 (2 ^ 32 - n)) [])

-- the bytes between two pointers become a string
unfoldable pub points : ℕ → List ℕ → Option (List (List ℕ))
points zero s = none
points (suc fuel) s = elim (utf8_next s) [
  | none ↦ some []
  | some found ↦ points fuel found.1 >>= λ more. some (take found.0 s ∷ more)
]

abbrev pub is_found : Option (List ℕ) → Bool
is_found none = false
is_found (some found) = true

module _ {D : Type 0} where
  unfoldable pub str_is : Value D → Value D
  unfolding get_type
  str_is value = bool (elim (get_type value) [ Vtype.str ↦ true | _ ↦ false ])

  unfoldable pub str_into : Value D → Option (Value D)
  str_into (str s) = some (str s)
  str_into (bool b) = some (str (if b then true_text else false_text))
  str_into (int n) = int_text n >>= λ s. some (str s)
  str_into _ = some (str [])

  abbrev pub ord_of : Option (ℕ × List ℕ) → Value D
  ord_of none = Value.none
  ord_of (some found) = int found.0

  unfoldable pub str_ord : Value D → Value D
  str_ord (str s) = ord_of (utf8_codepoint s)
  str_ord _ = Value.none

  -- the strings of the array that au_std_str_code_points returns; `none` for its nil
  unfoldable pub str_code_points : Value D → Option (List (List ℕ))
  str_code_points (str s) = points (suc (length s)) s
  str_code_points _ = none

  abbrev pub offset_of : List ℕ → Option (List ℕ) → Value D
  offset_of haystack none = int (2 ^ 32 - 1)
  offset_of haystack (some found) = int ((length haystack - length found) % 2 ^ 32)

  unfoldable pub str_index_of : Value D → Value D → Value D
  str_index_of (str h) (str n) = offset_of h (utf8_str (suc (length h)) h n)
  str_index_of _ _ = int (2 ^ 32 - 1)

  unfoldable pub str_contains : Value D → Value D → Value D
  str_contains (str h) (str n) = bool (is_found (utf8_str (suc (length h)) h n))
  str_contains _ _ = bool false

  unfoldable pub str_starts_with : Value D → Value D → Value D
  str_starts_with (str h) (str n) =
      bool (if ltb (length h) (length n) then false else bytes_eq (take (length n) h) n)
  str_starts_with _ _ = bool false

  unfoldable pub str_ends_with : Value D → Value D → Value D
  str_ends_with (str h) (str n) =
      bool (if ltb (length h) (length n) then false else bytes_eq (drop (length h - length n) h) n)
  str_ends_with _ _ = bool false
