-- ===== src/Tests/Values.antt =====
-- The values of src/core/rt/value/main.h at concrete inputs.
use Prim.Native.Nat.{Ordering}
use mathlib.Core.Path.{Path}
use aument.Prelude.{
  ℕ, ◌+◌, ◌-◌, ◌*◌, ◌/◌, ◌≡◌, refl, ◌↔◌, true, not, List, [], ◌∷◌, arith, ltb, leb, ◌==◌,
  if◌then◌else◌,
}
use aument.Value.Ops.{add, sub, mul, div, mod_op, band, bor, bxor, bshl, bshr, bnot, neg}
use aument.Value.{get_type, is_error, Float, Value, int, str, bool}
use aument.Value.Compare.{eq, neq, string_cmp}
use aument.Value.Laws.{
  arithmetic_errors, neq-eq, eq_iff, negate, both_nil, addable, both_numbers, both_ints,
  gives_error, is_int,
}
use aument.Value.Laws.Strings.{string_cmp_order, flip}
use aument.Value.Nan.{Boxed, encode}
use aument.Value.Nan.Laws.{encode-Reads, Reads}

-- natural numbers in place of doubles
abbrev pub natural_float : Float
natural_float = record {
  Double = ℕ;
  of_int = λ n. n;
  add = λ a b. a + b;
  sub = λ a b. a - b;
  mul = λ a b. a * b;
  div = λ a b. a / b;
  lt = λ a b. ltb a b;
  gt = λ a b. ltb b a;
  leq = λ a b. leb a b;
  geq = λ a b. leb b a;
  eq = λ a b. a == b;
  neq = λ a b. not (a == b);
}

abbrev bits : List ℕ
bits = 5 ∷ (128 ∷ [])

abbrev three : Value ℕ
three = int 3

abbrev word : Value ℕ
word = str (97 ∷ [])

arithmetic_errors_example :
    (is_error (add natural_float three word) ≡ not (addable natural_float three word))
    × (is_error (sub natural_float three word) ≡ not (both_numbers natural_float three word))
    × (is_error (mul natural_float three word) ≡ not (both_numbers natural_float three word))
    × (is_error (div natural_float three word) ≡ not (both_numbers natural_float three word))
    × (gives_error natural_float three word (mod_op three word)
        ≡ not (both_ints natural_float three word))
    × (is_error (band three word) ≡ not (both_ints natural_float three word))
    × (is_error (bor three word) ≡ not (both_ints natural_float three word))
    × (is_error (bxor three word) ≡ not (both_ints natural_float three word))
    × (gives_error natural_float three word (bshl three word)
        ≡ not (both_ints natural_float three word))
    × (gives_error natural_float three word (bshr three word)
        ≡ not (both_ints natural_float three word))
    × (is_error (bnot three) ≡ not (is_int (get_type three)))
    × (is_error (neg three) ≡ not (is_int (get_type three)))
arithmetic_errors_example = arithmetic_errors natural_float three word

neq-eq_example : neq {D = ℕ} (str (97 ∷ [])) (int 3) ≡ (
    if both_nil {D = ℕ} (str (97 ∷ [])) (int 3)
    then bool true
    else negate (str (97 ∷ [])) (int 3) (eq (str (97 ∷ [])) (int 3)))
neq-eq_example = neq-eq {D = ℕ} (str (97 ∷ [])) (int 3)

eq_iff_example : (eq {D = ℕ} (int 3) (int 3) ≡ bool true) ↔ (Path (Value ℕ) (int 3) (int 3))
eq_iff_example = eq_iff {D = ℕ} (int 3) (int 3) refl

string_cmp_order_example :
    ((string_cmp (97 ∷ []) (98 ∷ []) ≡ Ordering.eq) ↔ (Path (List ℕ) (97 ∷ []) (98 ∷ [])))
    × (string_cmp (98 ∷ []) (97 ∷ []) ≡ flip (string_cmp (97 ∷ []) (98 ∷ [])))
string_cmp_order_example = string_cmp_order (97 ∷ []) (98 ∷ [])

encode-Reads_example : Reads (λ w. w == 0) (Boxed.int 7) (encode (λ w. w == 0) (Boxed.int 7))
encode-Reads_example = encode-Reads (λ w. w == 0) (Boxed.int 7) (omega arith)
