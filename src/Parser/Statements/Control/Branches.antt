-- ===== src/Parser/Statements/Control/Branches.antt =====
-- An if of src/core/parser/impl/stmt.c on the machine of src/core/vm/vm.c: which part it goes to.
use aument.Prelude.{
  ℕ, ◌+◌, ◌*◌, ◌^◌, ◌≡◌, sym, ◌∙◌, Bool, true, false, List, ◌++◌, some, if◌then◌else◌, ltb, length,
  arith, length-append, append_assoc, ltb→lt,
}
use aument.Value.{Float, Value, is_truthy}
use aument.Parser.Regs.{Regs, pop_reg, flush_cached_regs}
use aument.Parser.Emit.{op_jnif}
use aument.Parser.State.{Parser, ok, M, with_code, keyword_cmp, first, rest_of}
use aument.Parser.Statements.{op_jrel}
use aument.Parser.Statements.Control.{exec_if, exec_else, word_else}
use aument.Parser.Statements.Control.Layout.{jump, passed}
use aument.Parser.Statements.Control.While.{after_condition, flushed}
use aument.Parser.Statements.Control.Leave.{leave, leave_size, returns}
use aument.Parser.Statements.Control.If.{if_code, exec_if-else-code}
use aument.Parser.Statements.Control.Execute.{jnif_at, jrel_at}
use aument.Vm.{Insn, Program, Machine, next, reg}
use aument.Vm.Step.{tick}
use aument.Vm.Code.{insns}

-- When an if with an else part is parsed, the code up to its condition's jump has c instructions, its block
-- makes k instructions that do not end with a return, and its else part makes n: then, in any code that
-- begins with the result, the machine that has run the condition goes to the block if the
-- value in register r is true and to the else part if not, and the machine that has run the block goes
-- behind the else part, and behind the jump with which the else part ends if it does not return.
pub exec_if-tick :
    (exec_expr block else_if : M (Unit {0})) (p q1 q2 q3 q : Parser) (regs : Regs) (r c k n : ℕ)
    (cond body rest after : List ℕ) (b' : Bool) (fl : Float) (prog : Program fl.Double)
    (code : List Insn) (tested ended : Machine fl.Double) (v : Value fl.Double)
    → exec_expr (flushed p) ≡ ok (tt, q1)
    → q1.out.bc ≡ p.out.bc ++ cond
    → pop_reg (flush_cached_regs q1.out.regs) ≡ some (r, regs)
    → block (after_condition q1 r regs) ≡ ok (tt, q2)
    → q2.out.bc ≡ (q1.out.bc ++ jump op_jnif r 0) ++ body
    → length body ≡ 4 * k
    → returns q2 ≡ false
    → keyword_cmp (first q2.input).token word_else ≡ true
    → exec_else block else_if
        (record (with_code (q2.out.bc ++ leave false 0) (flushed q2)) { input = rest_of q2.input })
      ≡ ok (tt, q3)
    → q3.out.bc ≡ (q2.out.bc ++ leave false 0) ++ rest
    → length rest ≡ 4 * n
    → returns q3 ≡ b'
    → exec_if exec_expr block else_if p ≡ ok (tt, q)
    → length (p.out.bc ++ cond) ≡ 4 * c
    → insns (q.out.bc ++ after) ≡ some code
    → tested.pc ≡ c
    → reg tested r ≡ some v
    → ended.pc ≡ c + 1 + k
    → (rewritten rewritten' : List Insn) × (tick fl prog code tested
        ≡ some
            (rewritten, next (record tested { pc = if is_truthy fl v then c + 1 else c + k + 2 })))
      × (tick fl prog code ended
          ≡ some (rewritten', next (record ended { pc = c + k + 2 + n + leave_size b' })))
exec_if-tick exec_expr block else_if p q1 q2 q3 q regs r c k n cond body rest after b' fl prog code
      tested ended v cond_run cond_code popped body_run body_code body_size ends is_else rest_run
      rest_code rest_size rest_ends ran size whole at_test holds at_end =
    let front = p.out.bc ++ cond in
    let over = k + 1 + 1 in
    let leaving = n + leave_size b' + 1 in
    let laid =
      exec_if-else-code exec_expr block p q1 q2 regs r k cond body false cond_run cond_code popped
        body_run body_code body_size ends else_if q3 rest n b' is_else rest_run rest_code rest_size
        rest_ends in
    let bytes = if_code front r body false over leaving (rest ++ leave b' 1) in
    let (small, small', same) =
      passed (ltb over (2 ^ 16)) (ltb leaving (2 ^ 16)) (with_code bytes (flushed q3)) q
        (sym laid ∙ ran) in
    let here = rw (← same) at whole in
    let tail = (rest ++ leave b' 1) ++ after in
    let first_jump : bytes ++ after
        ≡ front ++ (jump op_jnif r over ++ (body ++ (jump op_jrel 0 leaving ++ tail))) =
      simp append_assoc in
    let second_jump : bytes ++ after
        ≡ (front ++ (jump op_jnif r over ++ body)) ++ (jump op_jrel 0 leaving ++ tail) =
      simp append_assoc in
    let size2 = length-append front (jump op_jnif r over ++ body) in
    let (rewritten, tested_runs) =
      jnif_at fl prog code tested front (body ++ (jump op_jrel 0 leaving ++ tail)) r over v
        (rw first_jump at here) (omega arith) (ltb→lt _ _ small) holds in
    let (rewritten', ended_runs) =
      jrel_at fl prog code ended (front ++ (jump op_jnif r over ++ body)) tail leaving
        (rw second_jump at here) (omega arith) (ltb→lt _ _ small') in
    let inside : tested.pc + 1 ≡ c + 1 = omega arith in
    let behind : tested.pc + over ≡ c + k + 2 = omega arith in
    let beyond : ended.pc + leaving ≡ c + k + 2 + n + leave_size b' = omega arith in
    (rewritten, rewritten', rw (inside, behind) at tested_runs, rw beyond at ended_runs)
