-- ===== src/Parser/Statements/Control/Falling.antt =====
-- An if of src/core/parser/impl/stmt.c whose block ends with a return inside another if.
use aument.Prelude.{
  ℕ, ◌+◌, ◌*◌, ◌^◌, ◌<◌, ◌≡◌, sym, ap, ◌∙◌, Bool, true, false, List, [], ◌++◌, some, ltb, length,
  arith, length-append, append_assoc,
}
use aument.Value.{Float, Value, is_truthy}
use aument.Parser.Regs.{Regs, pop_reg, flush_cached_regs}
use aument.Parser.Emit.{op_jnif}
use aument.Parser.State.{Parser, ok, M, with_code, keyword_cmp, first, rest_of}
use aument.Parser.Statements.Control.{exec_if, exec_else, word_else}
use aument.Parser.Statements.Control.Layout.{jump, passed}
use aument.Parser.Statements.Control.While.{after_condition, flushed}
use aument.Parser.Statements.Control.Leave.{leave, leave_size, returns}
use aument.Parser.Statements.Control.If.{if_code, exec_if-else-code}
use aument.Parser.Statements.Control.Execute.{jnif_at}
use aument.Vm.{Insn, Program, Machine, next, reg}
use aument.Vm.Step.{tick}
use aument.Vm.Code.{insns}

-- When an if with an else part is parsed, and its block makes the code `inner` of j instructions, a jump
-- on a false value in r' over i instructions, fewer than 2 ^ 16 - 1, and those instructions, the last of which returns (so
-- for an inner if whose block returns): then the machine that is at the inner jump with a false value
-- goes to the first instruction of the else part.
pub exec_if-falls_into_else :
    (exec_expr block else_if : M (Unit {0})) (p q1 q2 q3 q : Parser) (regs : Regs)
    (r r' c i j n : ℕ) (cond inner returning rest after : List ℕ) (b' : Bool) (fl : Float)
    (prog : Program fl.Double) (code : List Insn) (machine : Machine fl.Double)
    (v : Value fl.Double)
    → exec_expr (flushed p) ≡ ok (tt, q1)
    → q1.out.bc ≡ p.out.bc ++ cond
    → pop_reg (flush_cached_regs q1.out.regs) ≡ some (r, regs)
    → block (after_condition q1 r regs) ≡ ok (tt, q2)
    → q2.out.bc
      ≡ (q1.out.bc ++ jump op_jnif r 0) ++ (inner ++ (jump op_jnif r' (i + 1) ++ returning))
    → length inner ≡ 4 * j
    → length returning ≡ 4 * i
    → i + 1 < 2 ^ 16
    → returns q2 ≡ true
    → keyword_cmp (first q2.input).token word_else ≡ true
    → exec_else block else_if
        (record (with_code (q2.out.bc ++ []) (flushed q2)) { input = rest_of q2.input })
      ≡ ok (tt, q3)
    → q3.out.bc ≡ (q2.out.bc ++ []) ++ rest
    → length rest ≡ 4 * n
    → returns q3 ≡ b'
    → exec_if exec_expr block else_if p ≡ ok (tt, q)
    → length (p.out.bc ++ cond) ≡ 4 * c
    → insns (q.out.bc ++ after) ≡ some code
    → machine.pc ≡ c + 1 + j
    → reg machine r' ≡ some v
    → is_truthy fl v ≡ false
    → (rewritten : List Insn) × (before : List ℕ) × (tick fl prog code machine
        ≡ some (rewritten, next (record machine { pc = c + j + i + 2 })))
      × (q.out.bc ≡ before ++ (rest ++ leave b' 1))
      × (length before ≡ 4 * (c + j + i + 2))
exec_if-falls_into_else exec_expr block else_if p q1 q2 q3 q regs r r' c i j n cond inner returning
      rest after b' fl prog code machine v cond_run cond_code popped body_run body_code inner_size
      returning_size few ends is_else rest_run rest_code rest_size rest_ends ran size whole at_inner
      holds is_false =
    let front = p.out.bc ++ cond in
    let over = j + (i + 1) + 1 + 0 in
    let body = inner ++ (jump op_jnif r' (i + 1) ++ returning) in
    let body_size : length body ≡ 4 * (j + (i + 1)) =
      omega (arith, length-append inner (jump op_jnif r' (i + 1) ++ returning)) in
    let laid =
      exec_if-else-code exec_expr block p q1 q2 regs r (j + (i + 1)) cond body true cond_run
        cond_code popped body_run body_code body_size ends else_if q3 rest n b' is_else rest_run
        rest_code rest_size rest_ends in
    let bytes = if_code front r body true over (n + leave_size b' + 1) (rest ++ leave b' 1) in
    let (_, _, same) =
      passed (ltb over (2 ^ 16)) true (with_code bytes (flushed q3)) q (sym laid ∙ ran) in
    let here = rw (← same) at whole in
    let before = front ++ (jump op_jnif r over ++ body) in
    let up_to_else : bytes ≡ before ++ (rest ++ leave b' 1) = simp append_assoc in
    let inner_jump : bytes ++ after
        ≡ (front ++ (jump op_jnif r over ++ inner))
          ++ (jump op_jnif r' (i + 1) ++ (returning ++ ((rest ++ leave b' 1) ++ after))) =
      simp append_assoc in
    let size1 = length-append front (jump op_jnif r over ++ inner) in
    let size2 = length-append front (jump op_jnif r over ++ body) in
    let (rewritten, runs) =
      jnif_at fl prog code machine (front ++ (jump op_jnif r over ++ inner))
        (returning ++ ((rest ++ leave b' 1) ++ after)) r' (i + 1) v (rw inner_jump at here)
        (omega arith) few holds in
    let target : machine.pc + (i + 1) ≡ c + j + i + 2 = omega arith in
    (
      rewritten,
      before,
      rw (is_false, target) at runs,
      ap (λ (z : Parser). z.out.bc) (sym same) ∙ up_to_else,
      omega arith,
    )
