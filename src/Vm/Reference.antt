-- ===== src/Vm/Reference.antt =====
-- The machine without code rewriting: an interpreter of the general operations only, as a
-- specification of src/core/vm/vm.c. `generic` forgets what the machine wrote over a code byte.

use aument.Prelude.{ℕ, zero, suc, List, Option, none, some, if◌then◌else◌, get_elem?, map, ◌>>=◌}
use aument.Value.{Float, Value, double, bool, is_error, is_truthy}
use aument.Prelude.{not}
use aument.Vm.Opcode.{
  Op, eq, neq, arith_op, BinOp, specialised, bin, bin_int, bin_double, jif, jnif, jif_bool,
  jnif_bool,
}
use aument.Vm.Values.{value_op}
use aument.Vm.{
  Insn, operand16, Program, Machine, Outcome, next, incompat_bin_op, reg, store, fail, branch,
}
use aument.Vm.Step.{plain_step, Final, stopped, running, undefined}

abbrev pub generic : Op → Op
generic (bin_int o) = bin (specialised o)
generic (bin_double o) = bin (specialised (arith_op o))
generic jif_bool = jif
generic jnif_bool = jnif
generic o = o

abbrev pub forget : Insn → Insn
forget i = record i { op = generic i.op }

abbrev pub erase : List Insn → List Insn
erase = map forget

module _ (fl : Float) where
  -- What a binary instruction computes: the operation of the value library, but that two doubles
  -- are compared for equality as doubles.
  unfoldable pub apply : BinOp → Value fl.Double → Value fl.Double → Option (Value fl.Double)
  apply (specialised (arith_op eq)) (double x) (double y) = some (bool (fl.eq x y))
  apply (specialised (arith_op neq)) (double x) (double y) = some (bool (fl.neq x y))
  apply o l r = value_op fl o l r

unfoldable pub ref_resume : {D : Type 0} → (Machine D → Final D) → Option (Outcome D) → Final D
ref_resume rest none = undefined
ref_resume rest (some (next m)) = rest m
ref_resume rest (some out) = stopped out

module _ (fl : Float) (p : Program fl.Double) where
  unfoldable pub ref_bin :
      BinOp → Value fl.Double → Value fl.Double → ℕ → Machine fl.Double → Option (Outcome fl.Double)
  ref_bin o l r res m = do
    v ← apply fl o l r
    if is_error v then some (fail p (incompat_bin_op l r) m) else store res v m

  unfoldable pub ref_step : Op → Insn → Machine fl.Double → Option (Outcome fl.Double)
  unfolding ref_bin
  ref_step (bin o) i m = do l ← reg m i.a; r ← reg m i.b; ref_bin o l r i.c m
  ref_step jif i m = do v ← reg m i.a; some (branch (is_truthy fl v) (operand16 i) m)
  ref_step jnif i m = do v ← reg m i.a; some (branch (not (is_truthy fl v)) (operand16 i) m)
  ref_step o i m = plain_step fl p o i m

  unfoldable pub ref_tick : List Insn → Machine fl.Double → Option (Outcome fl.Double)
  ref_tick code m = do i ← get_elem? code m.pc; ref_step i.op i m

  unfoldable pub ref_run : ℕ → List Insn → Machine fl.Double → Final fl.Double
  unfolding ref_resume
  ref_run zero code m = running m
  ref_run (suc fuel) code m = ref_resume (ref_run fuel code) (ref_tick code m)
