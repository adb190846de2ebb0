-- ===== src/Value/Laws.antt =====
-- Laws of the operations and comparisons of src/core/rt/value/main.h.
pub mod Strings
use aument.Value.Laws.Strings.{string_cmp-eq, string_cmp_refl}
use Prim.Native.Nat.{compare, Ordering}
use aument.Prelude.{
  ℕ, ◌≡◌, ◌↔◌, refl, ap, sym, arith, Bool, true, false, not, ◌&&◌, ◌||◌, List, Option, none, some,
  if◌then◌else◌, ◌==◌, ==_refl, ==→eq,
}
use aument.Value.{
  Float, Value, Vtype, int, double, bool, str, fn, struct, error, is_error, get_type,
}
use aument.Value.Ops.{add, sub, mul, div, mod_op, band, bor, bxor, bshl, bshr, bnot, neg, from_int}
use aument.Value.Compare.{eq, neq, Cmp, lt, gt, value_cmp, string_cmp, is_eq, bool_eq}

-- An independent description of the operand types that an operation takes.
abbrev pub is_number : Vtype → Bool
is_number Vtype.int = true
is_number Vtype.double = true
is_number _ = false

abbrev pub is_int : Vtype → Bool
is_int Vtype.int = true
is_int _ = false

abbrev pub is_str : Vtype → Bool
is_str Vtype.str = true
is_str _ = false

module _ (fl : Float) (a b : Value fl.Double) where
  -- The operand types that `+` takes: two numbers, or two strings.
  abbrev pub addable : Bool
  addable =
      (is_number (get_type a) && is_number (get_type b))
      || (is_str (get_type a) && is_str (get_type b))

  abbrev pub both_numbers : Bool
  both_numbers = is_number (get_type a) && is_number (get_type b)

  abbrev pub both_ints : Bool
  both_ints = is_int (get_type a) && is_int (get_type b)

  -- whether an operation that may be undefined gives the error value
  abbrev pub gives_error : Option (Value fl.Double) → Bool
  gives_error none = false
  gives_error (some v) = is_error v

  -- Each arithmetic and bitwise operation, the ones on one operand included, gives the error value
  -- exactly when the operand types are not those it takes; for the remainder and the shifts, which may
  -- be undefined on ints, undefined is not the error value.
  pub arithmetic_errors :
      (is_error (add fl a b) ≡ not addable)
      × (is_error (sub fl a b) ≡ not both_numbers)
      × (is_error (mul fl a b) ≡ not both_numbers)
      × (is_error (div fl a b) ≡ not both_numbers)
      × (gives_error (mod_op a b) ≡ not both_ints)
      × (is_error (band a b) ≡ not both_ints)
      × (is_error (bor a b) ≡ not both_ints)
      × (is_error (bxor a b) ≡ not both_ints)
      × (gives_error (bshl a b) ≡ not both_ints)
      × (gives_error (bshr a b) ≡ not both_ints)
      × (is_error (bnot a) ≡ not (is_int (get_type a)))
      × (is_error (neg a) ≡ not (is_int (get_type a)))
  unfolding is_error get_type add sub mul div mod_op band bor bxor bshl bshr bnot neg
  arithmetic_errors = (
    ground arith,
    ground arith,
    ground arith,
    ground arith,
    ground arith,
    ground arith,
    ground arith,
    ground arith,
    ground arith,
    ground arith,
    ground arith,
    ground arith,
  )

module _ {D : Type 0} (a b : Value D) where
  abbrev pub negate : Value D → Value D
  negate (bool t) = bool (not t)
  negate v = v

  abbrev pub both_nil : Bool
  both_nil = elim a [ Value.none ↦ elim b [ Value.none ↦ true | _ ↦ false ] | _ ↦ false ]

  -- `!=` is the negation of `==`, except that nil is both equal and unequal to nil.
  pub neq-eq : neq a b ≡ (if both_nil then bool true else negate (eq a b))
  unfolding eq neq
  neq-eq = ground arith

-- The values that `==` compares by what they are.
abbrev pub is_plain : {D : Type 0} → Value D → Bool
is_plain Value.none = true
is_plain (int n) = true
is_plain (bool t) = true
is_plain (str s) = true
is_plain _ = false

module _ {D : Type 0} where
  eq_sound : (a b : Value D) → eq a b ≡ bool true → a ≡ b
  unfolding eq
  eq_sound (str s) (str t) h = ground (arith, string_cmp-eq s t)
  eq_sound a b h = ground arith

  eq_refl : (a : Value D) → is_plain a ≡ true → eq a a ≡ bool true
  unfolding eq
  eq_refl (str s) h = ground (arith, string_cmp_refl s)
  eq_refl (bool true) h = refl
  eq_refl a h = ground arith

  -- `==` between a nil, an int, a boolean or a string and any value is true exactly when they are
  -- the same value.
  pub eq_iff : (a b : Value D) → is_plain a ≡ true → (eq a b ≡ bool true) ↔ (a ≡ b)
  eq_iff a b h = (eq_sound a b, λ e. rw (← e) (eq_refl a h))

  -- When the left operand is a double, a function, a struct or the error value, `==` is false and
  -- `!=` is true, whatever the right operand is.
  pub eq_opaque :
      (a b : Value D) → is_plain a ≡ false → (eq a b ≡ bool false) × (neq a b ≡ bool true)
  unfolding eq neq
  eq_opaque a b h = (ground arith, ground arith)
