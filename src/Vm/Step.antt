-- ===== src/Vm/Step.antt =====
-- One instruction and a run of the machine of src/core/vm/vm.c.

use aument.Prelude.{
  ℕ, zero, suc, ◌+◌, ◌-◌, Bool, not, List, [], ◌∷◌, ◌++◌, Option, none, some, if◌then◌else◌, ltb,
  leb, get_elem?, set, ◌>>=◌, ◌>>◌, guard,
}
use aument.Value.{Float, Value, int, bool, is_error, is_truthy}
use aument.Value.Ops.{bnot, neg}
use aument.Vm.Opcode.{
  Op, mov_u16, mov_reg_local, mov_local_reg, mov_bool, load_nil, load_const, set_const, bin,
  bin_int, bin_double, not_op, jif, jnif, jrel, jrelb, jif_bool, jnif_bool, ret_local, ret,
  ret_null, raise, print, push_arg, nop,
}
use aument.Vm.{
  Insn, operand16, Program, Machine, Outcome, next, returned, outside, incompat_call, raised_error,
  reg, local_at, advance, store, store_local, fail, branch, load_const_at, set_const_at, Handled,
  bin_generic, bin_int_case, bin_double_case,
}

module _ (fl : Float) (p : Program fl.Double) where
  -- an instruction whose code byte stays as it is
  abbrev keeps : Op → Option (Outcome fl.Double) → Option (Handled fl.Double)
  keeps o r = some (o, r)

  -- AU_OP_NOT: a boolean directly, any other value by its truth
  unfoldable pub logical_not : Value fl.Double → Bool
  logical_not (bool b) = not b
  logical_not v = not (is_truthy fl v)

  unfoldable pub negate_at : ℕ → Value fl.Double → Machine fl.Double → Option (Outcome fl.Double)
  negate_at r (int n) m = store r (neg (int n)) m
  negate_at r v m = some (fail p incompat_call m)

  -- the jumps: a boolean rewrites the code byte
  unfoldable pub jump_if : Value fl.Double → ℕ → Machine fl.Double → Handled fl.Double
  jump_if (bool b) n m = (jif_bool, some (branch b n m))
  jump_if v n m = (jif, some (branch (is_truthy fl v) n m))

  unfoldable pub jump_if_not : Value fl.Double → ℕ → Machine fl.Double → Handled fl.Double
  jump_if_not (bool b) n m = (jnif_bool, some (branch (not b) n m))
  jump_if_not v n m = (jnif, some (branch (not (is_truthy fl v)) n m))

  unfoldable pub jump_if_bool : Value fl.Double → ℕ → Machine fl.Double → Handled fl.Double
  unfolding jump_if
  jump_if_bool (bool b) n m = (jif_bool, some (branch b n m))
  jump_if_bool v n m = jump_if v n m

  unfoldable pub jump_if_not_bool : Value fl.Double → ℕ → Machine fl.Double → Handled fl.Double
  unfolding jump_if_not
  jump_if_not_bool (bool b) n m = (jnif_bool, some (branch (not b) n m))
  jump_if_not_bool v n m = jump_if_not v n m

  -- The instructions that leave their code byte alone.
  unfoldable pub plain_step : Op → Insn → Machine fl.Double → Option (Outcome fl.Double)
  unfolding logical_not negate_at
  plain_step mov_u16 i m = store i.a (int (operand16 i)) m
  plain_step mov_reg_local i m = do v ← reg m i.a; store_local (operand16 i) v m
  plain_step mov_local_reg i m = do v ← local_at m (operand16 i); store i.a v m
  plain_step mov_bool i m = store i.b (bool (ltb 0 i.a)) m
  plain_step load_nil i m = store i.a Value.none m
  plain_step load_const i m = load_const_at p i.a (operand16 i) m
  plain_step set_const i m = set_const_at p i.a (operand16 i) m
  plain_step not_op i m = do v ← reg m i.a; store i.b (bool (logical_not v)) m
  plain_step Op.bnot i m = do
    v ← reg m i.a
    stored ← store i.b (bnot v) m
    (if is_error (bnot v)
        then some (fail p incompat_call (record m { regs = set m.regs i.b (bnot v) }))
        else some stored)
  plain_step Op.neg i m = do v ← reg m i.a; negate_at i.b v m
  plain_step jrel i m = some (next (record m { pc = m.pc + operand16 i }))
  plain_step jrelb i m = do
    guard (leb (operand16 i) m.pc)
    some (next (record m { pc = m.pc - operand16 i }))
  plain_step ret_local i m = do
    v ← local_at m (operand16 i)
    some (returned v (record m { locals = set m.locals (operand16 i) Value.none }))
  plain_step ret i m = do
    v ← reg m i.a
    some (returned v (record m { regs = set m.regs i.a Value.none }))
  plain_step ret_null i m = some (returned Value.none m)
  plain_step raise i m = do v ← reg m i.a; some (fail p (raised_error v) m)
  plain_step print i m = do
    v ← reg m i.a
    some (next (advance (record m { printed = m.printed ++ v ∷ [] })))
  plain_step push_arg i m = some (next (advance m))
  plain_step nop i m = some (next (advance m))
  plain_step _ i m = some (outside m)

  -- `switch (bc[0])`
  unfoldable pub step : Op → Insn → Machine fl.Double → Option (Handled fl.Double)
  unfolding bin_generic bin_int_case bin_double_case jump_if jump_if_not jump_if_bool
      jump_if_not_bool
  step (bin o) i m = do l ← reg m i.a; r ← reg m i.b; some (bin_generic fl p o l r i.c m)
  step (bin_int o) i m = do l ← reg m i.a; r ← reg m i.b; some (bin_int_case fl p o l r i.c m)
  step (bin_double o) i m = do l ← reg m i.a; r ← reg m i.b; some (bin_double_case fl p o l r i.c m)
  step jif i m = do v ← reg m i.a; some (jump_if v (operand16 i) m)
  step jnif i m = do v ← reg m i.a; some (jump_if_not v (operand16 i) m)
  step jif_bool i m = do v ← reg m i.a; some (jump_if_bool v (operand16 i) m)
  step jnif_bool i m = do v ← reg m i.a; some (jump_if_not_bool v (operand16 i) m)
  step o i m = some (o, plain_step o i m)

  -- the instruction at the program counter, with its code byte written back; `none` is undefined
  -- behaviour: a fetch, a register, a local or a constant out of bounds, or undefined arithmetic
  unfoldable pub tick : List Insn → Machine fl.Double → Option (List Insn × Outcome fl.Double)
  tick code m = do
    i ← get_elem? code m.pc
    (o, r) ← step i.op i m
    out ← r
    some (set code m.pc (record i { op = o }), out)

-- How a run of at most `fuel` instructions ends.
pub data Final (D : Type 0) : Type 0 where
  stopped : Outcome D → Final D
  running : Machine D → Final D
  undefined : Final D

-- what the loop does with the result of one instruction; `rest` runs the rest
unfoldable pub resume :
    {D : Type 0} → (List Insn → Machine D → Final D) → Option (List Insn × Outcome D) → Final D
resume rest none = undefined
resume rest (some (code, next m)) = rest code m
resume rest (some (code, out)) = stopped out

module _ (fl : Float) (p : Program fl.Double) where
  -- `while (1)`
  unfoldable pub run : ℕ → List Insn → Machine fl.Double → Final fl.Double
  unfolding resume
  run zero code m = running m
  run (suc fuel) code m = resume (run fuel) (tick fl p code m)
