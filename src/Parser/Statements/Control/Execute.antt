-- ===== src/Parser/Statements/Control/Execute.antt =====
-- What the code of src/core/parser/impl/stmt.c for loops and ifs does on the machine of src/core/vm/vm.c.
use aument.Prelude.{
  ℕ, ◌+◌, ◌-◌, ◌*◌, ◌/◌, ◌%◌, ◌^◌, ◌≤◌, ◌<◌, ◌≡◌, refl, List, ◌++◌, some, if◌then◌else◌, length,
  arith,
}
use aument.Value.{Float, Value, is_truthy}
use aument.Parser.Emit.{op_jnif}
use aument.Parser.Statements.{op_jrelb, op_jrel}
use aument.Parser.Statements.Control.Layout.{jump}
use aument.Vm.Opcode.{decode, jnif, jrel, jrelb}
use aument.Vm.{Insn, Program, Machine, next, reg}
use aument.Vm.Step.{tick}
use aument.Vm.Code.{insns, insns_at, jnif-tick, jrel-tick, jrelb-tick}

-- the operand of a jump
operand-jump : (n : ℕ) → n < 2 ^ 16 → n % 256 + 256 * (n / 256 % 256) ≡ n
operand-jump n h = omega arith

module _ (fl : Float) (prog : Program fl.Double) (code : List Insn) (m : Machine fl.Double) where
  -- A jump on a false value, behind m.pc instructions.
  pub jnif_at :
      (xs ys : List ℕ) (r n : ℕ) (v : Value fl.Double)
      → insns (xs ++ (jump op_jnif r n ++ ys)) ≡ some code
      → length xs ≡ 4 * m.pc
      → n < 2 ^ 16
      → reg m r ≡ some v
      → (after : List Insn) × (tick fl prog code m
          ≡ some (after, next (record m { pc = if is_truthy fl v then m.pc + 1 else m.pc + n })))
  unfolding decode
  jnif_at xs ys r n v whole here small holds =
      let at = insns_at m.pc xs ys op_jnif r (n % 256) (n / 256 % 256) jnif code here refl whole in
      let (after, ran) = jnif-tick fl prog code m _ v at refl holds in
      (after, rw (operand-jump n small) at ran)

  pub jrel_at :
      (xs ys : List ℕ) (n : ℕ)
      → insns (xs ++ (jump op_jrel 0 n ++ ys)) ≡ some code
      → length xs ≡ 4 * m.pc
      → n < 2 ^ 16
      → (after : List Insn) × (tick fl prog code m
          ≡ some (after, next (record m { pc = m.pc + n })))
  unfolding decode
  jrel_at xs ys n whole here small =
      let at = insns_at m.pc xs ys op_jrel 0 (n % 256) (n / 256 % 256) jrel code here refl whole in
      let (after, ran) = jrel-tick fl prog code m _ at refl in
      (after, rw (operand-jump n small) at ran)

  pub jrelb_at :
      (xs ys : List ℕ) (n : ℕ)
      → insns (xs ++ (jump op_jrelb 0 n ++ ys)) ≡ some code
      → length xs ≡ 4 * m.pc
      → n < 2 ^ 16
      → n ≤ m.pc
      → (after : List Insn) × (tick fl prog code m
          ≡ some (after, next (record m { pc = m.pc - n })))
  unfolding decode
  jrelb_at xs ys n whole here small room =
      let at =
        insns_at m.pc xs ys op_jrelb 0 (n % 256) (n / 256 % 256) jrelb code here refl whole in
      let (after, ran) = jrelb-tick fl prog code m _ at refl (rw (operand-jump n small) room) in
      (after, rw (operand-jump n small) at ran)
