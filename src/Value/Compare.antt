-- ===== src/Value/Compare.antt =====
-- `au_string_cmp` of src/core/rt/au_string.h, and the comparisons of src/core/rt/value/main.h.
use Prim.Native.Nat.{compare, Ordering}
use aument.Prelude.{ℕ, Bool, true, false, not, List, ◌∷◌, ◌==◌, length}
use aument.Value.{Float, Value, none, int, double, bool, str}
use aument.Word.{ilt, ile}

-- memcmp of two blocks of one length: the order of the first bytes that differ
unfoldable pub memcmp : List ℕ → List ℕ → Ordering
memcmp (x ∷ xs) (y ∷ ys) = elim (compare x y) [ Ordering.eq ↦ memcmp xs ys | o ↦ o ]
memcmp _ _ = Ordering.eq

-- The shorter string is the lesser; the bytes decide only between strings of one length.
unfoldable pub string_cmp : List ℕ → List ℕ → Ordering
string_cmp s t = elim (compare (length s) (length t)) [ Ordering.eq ↦ memcmp s t | o ↦ o ]

pub data Cmp : Type 0 where
  lt gt leq geq : Cmp

-- `OP` of `_BIN_OP_BOOL_GENERIC` on ints, on doubles, and on the result of `au_string_cmp`
unfoldable pub int_cmp : Cmp → ℕ → ℕ → Bool
int_cmp lt a b = ilt a b
int_cmp gt a b = ilt b a
int_cmp leq a b = ile a b
int_cmp geq a b = ile b a

unfoldable pub double_cmp : (fl : Float) → Cmp → fl.Double → fl.Double → Bool
double_cmp fl lt = fl.lt
double_cmp fl gt = fl.gt
double_cmp fl leq = fl.leq
double_cmp fl geq = fl.geq

unfoldable pub sign_cmp : Cmp → Ordering → Bool
sign_cmp lt o = elim o [ Ordering.lt ↦ true | _ ↦ false ]
sign_cmp gt o = elim o [ Ordering.gt ↦ true | _ ↦ false ]
sign_cmp leq o = elim o [ Ordering.gt ↦ false | _ ↦ true ]
sign_cmp geq o = elim o [ Ordering.lt ↦ false | _ ↦ true ]

module _ (fl : Float) where
  unfoldable pub value_cmp : Cmp → Value fl.Double → Value fl.Double → Value fl.Double
  value_cmp c (int a) (int b) = bool (int_cmp c a b)
  value_cmp c (int a) (double y) = bool (double_cmp fl c (fl.of_int a) y)
  value_cmp c (double x) (int b) = bool (double_cmp fl c x (fl.of_int b))
  value_cmp c (double x) (double y) = bool (double_cmp fl c x y)
  value_cmp c (str s) (str t) = bool (sign_cmp c (string_cmp s t))
  value_cmp c _ _ = bool false

abbrev pub bool_eq : Bool → Bool → Bool
bool_eq true b = b
bool_eq false b = not b

abbrev pub is_eq : Ordering → Bool
is_eq o = elim o [ Ordering.eq ↦ true | _ ↦ false ]

module _ {D : Type 0} where
  -- values of two types are unequal, and so are two doubles, two functions or two structs
  unfoldable pub eq : Value D → Value D → Value D
  eq none none = bool true
  eq (int a) (int b) = bool (a == b)
  eq (bool a) (bool b) = bool (bool_eq a b)
  eq (str s) (str t) = bool (is_eq (string_cmp s t))
  eq _ _ = bool false

  unfoldable pub neq : Value D → Value D → Value D
  neq (int a) (int b) = bool (not (a == b))
  neq (bool a) (bool b) = bool (not (bool_eq a b))
  neq (str s) (str t) = bool (not (is_eq (string_cmp s t)))
  neq _ _ = bool true
