-- ===== src/Parser/Statements/Control/Loops.antt =====
-- A loop of src/core/parser/impl/stmt.c on the machine of src/core/vm/vm.c: its two jumps.
use aument.Prelude.{
  ℕ, ◌+◌, ◌-◌, ◌*◌, ◌^◌, ◌≡◌, sym, ◌∙◌, List, ◌++◌, some, if◌then◌else◌, ltb, length, arith,
  length-append, append_assoc, ltb→lt,
}
use aument.Value.{Float, Value, is_truthy}
use aument.Parser.Regs.{Regs, pop_reg, flush_cached_regs}
use aument.Parser.Emit.{op_jnif}
use aument.Parser.State.{Parser, ok, M, with_code}
use aument.Parser.Statements.{op_jrelb}
use aument.Parser.Statements.Control.{exec_while}
use aument.Parser.Statements.Control.Layout.{jump, passed}
use aument.Parser.Statements.Control.While.{after_condition, flushed, exec_while-code}
use aument.Parser.Statements.Control.Execute.{jnif_at, jrelb_at}
use aument.Vm.{Insn, Program, Machine, next, reg}
use aument.Vm.Step.{tick}
use aument.Vm.Code.{insns}

-- When a loop is parsed, the code before it is a whole number a of instructions, its condition's code
-- has m instructions with the value in register r, and its block's code has k: then, in any code that begins with the
-- result, the machine that has run the condition goes into the block if the value is true and behind the loop if not,
-- and the machine that has run the block goes back to the condition.
pub exec_while-tick :
    (exec_expr block : M (Unit {0})) (p q1 q2 q : Parser) (regs : Regs) (r a m k : ℕ)
    (cond body rest : List ℕ) (fl : Float) (prog : Program fl.Double) (code : List Insn)
    (tested ended : Machine fl.Double) (v : Value fl.Double)
    → exec_expr (flushed p) ≡ ok (tt, q1)
    → q1.out.bc ≡ p.out.bc ++ cond
    → length cond ≡ 4 * m
    → pop_reg (flush_cached_regs q1.out.regs) ≡ some (r, regs)
    → block (after_condition q1 r regs) ≡ ok (tt, q2)
    → q2.out.bc ≡ (q1.out.bc ++ jump op_jnif r 0) ++ body
    → length body ≡ 4 * k
    → exec_while exec_expr block p ≡ ok (tt, q)
    → length p.out.bc ≡ 4 * a
    → insns (q.out.bc ++ rest) ≡ some code
    → tested.pc ≡ a + m
    → reg tested r ≡ some v
    → ended.pc ≡ a + m + 1 + k
    → (after after' : List Insn) × (tick fl prog code tested
        ≡ some (
          after,
          next (record tested { pc = if is_truthy fl v then a + m + 1 else a + m + k + 2 }),
        ))
      × (tick fl prog code ended ≡ some (after', next (record ended { pc = a })))
exec_while-tick exec_expr block p q1 q2 q regs r a m k cond body rest fl prog code tested ended v
      cond_run cond_code cond_size popped body_run body_code body_size ran size whole at_test holds
      at_end =
    let laid =
      exec_while-code exec_expr block p q1 q2 regs r m k cond body cond_run cond_code cond_size
        popped body_run body_code body_size in
    let front = p.out.bc ++ cond in
    let bytes =
      p.out.bc ++ (cond ++ (jump op_jnif r (k + 2) ++ (body ++ jump op_jrelb 0 (m + 1 + k)))) in
    let (over, back, same) =
      passed (ltb (k + 2) (2 ^ 16)) (ltb (m + 1 + k) (2 ^ 16)) (with_code bytes (flushed q2)) q
        (sym laid ∙ ran) in
    let here = rw (← same) at whole in
    let first : bytes ++ rest
        ≡ front ++ (jump op_jnif r (k + 2) ++ (body ++ (jump op_jrelb 0 (m + 1 + k) ++ rest))) =
      simp append_assoc in
    let second : bytes ++ rest
        ≡ (front ++ (jump op_jnif r (k + 2) ++ body)) ++ (jump op_jrelb 0 (m + 1 + k) ++ rest) =
      simp append_assoc in
    let size1 = length-append p.out.bc cond in
    let size2 = length-append front (jump op_jnif r (k + 2) ++ body) in
    let (after, tested_runs) =
      jnif_at fl prog code tested front (body ++ (jump op_jrelb 0 (m + 1 + k) ++ rest)) r (k + 2) v
        (rw first at here) (omega arith) (ltb→lt _ _ over) holds in
    let (after', ended_runs) =
      jrelb_at fl prog code ended (front ++ (jump op_jnif r (k + 2) ++ body)) rest (m + 1 + k)
        (rw second at here) (omega arith) (ltb→lt _ _ back) (omega arith) in
    let inside : tested.pc + 1 ≡ a + m + 1 = omega arith in
    let behind : tested.pc + (k + 2) ≡ a + m + k + 2 = omega arith in
    let again : ended.pc - (m + 1 + k) ≡ a = omega arith in
    (after, after', rw (inside, behind) at tested_runs, rw again at ended_runs)
