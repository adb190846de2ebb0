-- ===== src/Value/Ops.antt =====
-- The arithmetic and bitwise operations of src/core/rt/value/main.h. An operand of the wrong type
-- gives the error value. The outer `Option` is `none` where C leaves the operation undefined.
use aument.Prelude.{ℕ, Option, none, some, ◌++◌}
use aument.Value.{Float, Value, int, double, str, error}
use aument.Word.{iadd_wrap, isub_wrap, imul_wrap, irem, iand, ior, ixor, inot, ishl, ishr, ineg}

module _ (fl : Float) where
  unfoldable pub add : Value fl.Double → Value fl.Double → Value fl.Double
  add (int a) (int b) = int (iadd_wrap a b)
  add (int a) (double y) = double (fl.add (fl.of_int a) y)
  add (double x) (int b) = double (fl.add x (fl.of_int b))
  add (double x) (double y) = double (fl.add x y)
  add (str s) (str t) = str (s ++ t)
  add _ _ = error

  unfoldable pub sub : Value fl.Double → Value fl.Double → Value fl.Double
  sub (int a) (int b) = int (isub_wrap a b)
  sub (int a) (double y) = double (fl.sub (fl.of_int a) y)
  sub (double x) (int b) = double (fl.sub x (fl.of_int b))
  sub (double x) (double y) = double (fl.sub x y)
  sub _ _ = error

  unfoldable pub mul : Value fl.Double → Value fl.Double → Value fl.Double
  mul (int a) (int b) = int (imul_wrap a b)
  mul (int a) (double y) = double (fl.mul (fl.of_int a) y)
  mul (double x) (int b) = double (fl.mul x (fl.of_int b))
  mul (double x) (double y) = double (fl.mul x y)
  mul _ _ = error

  unfoldable pub div : Value fl.Double → Value fl.Double → Value fl.Double
  div (int a) (int b) = double (fl.div (fl.of_int a) (fl.of_int b))
  div (int a) (double y) = double (fl.div (fl.of_int a) y)
  div (double x) (int b) = double (fl.div x (fl.of_int b))
  div (double x) (double y) = double (fl.div x y)
  div _ _ = error

module _ {D : Type 0} where
  -- an operation on two ints that C may leave undefined
  abbrev pub from_int : Option ℕ → Option (Value D)
  from_int none = none
  from_int (some n) = some (int n)

  unfoldable pub mod_op : Value D → Value D → Option (Value D)
  mod_op (int a) (int b) = from_int (irem a b)
  mod_op _ _ = some error

  unfoldable pub band : Value D → Value D → Value D
  band (int a) (int b) = int (iand a b)
  band _ _ = error

  unfoldable pub bor : Value D → Value D → Value D
  bor (int a) (int b) = int (ior a b)
  bor _ _ = error

  unfoldable pub bxor : Value D → Value D → Value D
  bxor (int a) (int b) = int (ixor a b)
  bxor _ _ = error

  unfoldable pub bshl : Value D → Value D → Option (Value D)
  bshl (int a) (int b) = from_int (ishl a b)
  bshl _ _ = some error

  unfoldable pub bshr : Value D → Value D → Option (Value D)
  bshr (int a) (int b) = from_int (ishr a b)
  bshr _ _ = some error

  unfoldable pub bnot : Value D → Value D
  bnot (int a) = int (inot a)
  bnot _ = error

  unfoldable pub neg : Value D → Value D
  neg (int a) = int (ineg a)
  neg _ = error
