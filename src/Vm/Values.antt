-- ===== src/Vm/Values.antt =====
-- The operations on values behind the binary instructions of src/core/vm/vm.c: the general forms
-- are those of src/core/rt/value/main.h, the specialised ones are written out in `BIN_OP`.
use aument.Prelude.{ℕ, ◌==◌, not, Option, some}
use aument.Value.{Float, Value, int, double, bool}
use aument.Value.Ops
use aument.Value.Ops.{from_int}
use aument.Value.Compare
use aument.Value.Compare.{value_cmp, int_cmp, double_cmp}
use aument.Word.{iadd_wrap, isub_wrap, imul_wrap, irem, ilt, ile}
use aument.Vm.Opcode.{
  Arith, mul, div, add, sub, eq, neq, lt, gt, leq, geq, IntOp, arith_op, mod_op, Bitwise, bor, bxor,
  band, bshl, bshr, BinOp, specialised, bitwise,
}

module _ (fl : Float) where
  arith_value : Arith → Value fl.Double → Value fl.Double → Value fl.Double
  arith_value mul = Ops.mul fl
  arith_value div = Ops.div fl
  arith_value add = Ops.add fl
  arith_value sub = Ops.sub fl
  arith_value eq = Compare.eq
  arith_value neq = Compare.neq
  arith_value lt = value_cmp fl Compare.lt
  arith_value gt = value_cmp fl Compare.gt
  arith_value leq = value_cmp fl Compare.leq
  arith_value geq = value_cmp fl Compare.geq

  bitwise_value : Bitwise → Value fl.Double → Value fl.Double → Option (Value fl.Double)
  bitwise_value bor l r = some (Ops.bor l r)
  bitwise_value bxor l r = some (Ops.bxor l r)
  bitwise_value band l r = some (Ops.band l r)
  bitwise_value bshl l r = Ops.bshl l r
  bitwise_value bshr l r = Ops.bshr l r

  -- `au_value_##FUN(lhs, rhs)`
  unfoldable pub value_op : BinOp → Value fl.Double → Value fl.Double → Option (Value fl.Double)
  unfolding arith_value bitwise_value
  value_op (specialised (arith_op o)) l r = some (arith_value o l r)
  value_op (specialised mod_op) l r = Ops.mod_op l r
  value_op (bitwise o) l r = bitwise_value o l r

  -- the expressions of the handlers that are specialised on ints
  unfoldable pub int_fast : IntOp → ℕ → ℕ → Option (Value fl.Double)
  int_fast (arith_op add) a b = some (int (iadd_wrap a b))
  int_fast (arith_op sub) a b = some (int (isub_wrap a b))
  int_fast (arith_op mul) a b = some (int (imul_wrap a b))
  int_fast (arith_op div) a b = some (double (fl.div (fl.of_int a) (fl.of_int b)))
  int_fast mod_op a b = from_int (irem a b)
  int_fast (arith_op eq) a b = some (bool (a == b))
  int_fast (arith_op neq) a b = some (bool (not (a == b)))
  int_fast (arith_op lt) a b = some (bool (ilt a b))
  int_fast (arith_op gt) a b = some (bool (ilt b a))
  int_fast (arith_op leq) a b = some (bool (ile a b))
  int_fast (arith_op geq) a b = some (bool (ile b a))

  -- and those of the handlers that are specialised on doubles
  unfoldable pub double_fast : Arith → fl.Double → fl.Double → Value fl.Double
  double_fast mul x y = double (fl.mul x y)
  double_fast div x y = double (fl.div x y)
  double_fast add x y = double (fl.add x y)
  double_fast sub x y = double (fl.sub x y)
  double_fast eq x y = bool (fl.eq x y)
  double_fast neq x y = bool (fl.neq x y)
  double_fast lt x y = bool (fl.lt x y)
  double_fast gt x y = bool (fl.gt x y)
  double_fast leq x y = bool (fl.leq x y)
  double_fast geq x y = bool (fl.geq x y)
