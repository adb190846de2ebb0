-- ===== src/Parser/Statements/Control/While.antt =====
-- The code of a loop: au_parser_exec_while_statement of src/core/parser/impl/stmt.c.
use aument.Prelude.{
  ℕ, ◌+◌, ◌-◌, ◌/◌, ◌*◌, ◌^◌, ◌≡◌, refl, ap, ◌∙◌, ◌&&◌, some, List, [], ◌++◌, ltb, if◌then◌else◌,
  length, arith, length-append, append_assoc,
}
use aument.Parser.Regs.{Regs, pop_reg, flush_cached_regs}
use aument.Parser.Emit.{op_jnif}
use aument.Parser.State.{Parser, ok, failed, bytecode_gen, M, with_code, with_regs, pop}
use aument.Parser.Statements.{op_jrelb}
use aument.Parser.Statements.Control.{exec_while}
use aument.Parser.Statements.Control.Layout.{jump, patch-patch}

-- what the block of a loop or an if starts from
abbrev pub after_condition : Parser → ℕ → Regs → Parser
after_condition p r regs = with_code (p.out.bc ++ jump op_jnif r 0) (with_regs regs p)

abbrev pub flushed : Parser → Parser
flushed p = with_regs (flush_cached_regs p.out.regs) p

-- A loop whose condition makes the code `cond` of m instructions with its value in register r, and
-- whose block makes the k instructions `body`: its code is the condition, a jump on a false value over the block
-- and the jump back, the block, and the jump back over the block and the condition. It is refused when
-- an offset, k + 2 or m + 1 + k, is 2 ^ 16 or more.
pub exec_while-code :
    (exec_expr block : M (Unit {0})) (p q1 q2 : Parser) (regs : Regs) (r m k : ℕ)
    (cond body : List ℕ)
    → exec_expr (flushed p) ≡ ok (tt, q1)
    → q1.out.bc ≡ p.out.bc ++ cond
    → length cond ≡ 4 * m
    → pop_reg (flush_cached_regs q1.out.regs) ≡ some (r, regs)
    → block (after_condition q1 r regs) ≡ ok (tt, q2)
    → q2.out.bc ≡ (q1.out.bc ++ jump op_jnif r 0) ++ body
    → length body ≡ 4 * k
    → exec_while exec_expr block p ≡ (
        if ltb (k + 2) (2 ^ 16) && ltb (m + 1 + k) (2 ^ 16)
        then ok (
          tt,
          with_code
              (p.out.bc
                ++ (cond ++ (jump op_jnif r (k + 2) ++ (body ++ jump op_jrelb 0 (m + 1 + k)))))
              (flushed q2),
        )
        else failed bytecode_gen)
unfolding exec_while pop
exec_while-code exec_expr block p q1 q2 regs r m k cond body cond_run cond_code cond_size popped
      body_run body_code body_size =
    let whole = p.out.bc ++ cond in
    let code : q2.out.bc ++ jump op_jrelb 0 0
        ≡ whole ++ (jump op_jnif r 0 ++ (body ++ jump op_jrelb 0 0)) =
      rw (body_code, cond_code)
        (append_assoc (whole ++ jump op_jnif r 0) body (jump op_jrelb 0 0)
          ∙ append_assoc whole (jump op_jnif r 0) (body ++ jump op_jrelb 0 0)) in
    let size : length q1.out.bc ≡ length whole = ap length cond_code in
    let size1 : length whole ≡ length p.out.bc + 4 * m =
      omega (arith, length-append p.out.bc cond) in
    let size2 : length q2.out.bc ≡ length whole + 4 + 4 * k =
      rw (body_code, cond_code)
        (omega (
          arith,
          length-append (whole ++ jump op_jnif r 0) body,
          length-append whole (jump op_jnif r 0),
        )) in
    let size3 = length-append q2.out.bc (jump op_jrelb 0 0) in
    let over : (length (q2.out.bc ++ jump op_jrelb 0 0) - length q1.out.bc) / 4 ≡ k + 2 =
      omega arith in
    let back : (length q2.out.bc - length p.out.bc) / 4 ≡ m + 1 + k = omega arith in
    let patched =
      patch-patch (length q1.out.bc + 2) (k + 2) (length q2.out.bc + 2) (m + 1 + k)
        (with_code (q2.out.bc ++ jump op_jrelb 0 0) (flushed q2)) whole body [] op_jnif r op_jrelb 0
        0 0 0 0 (omega arith) (omega arith) code in
    let joined =
      append_assoc p.out.bc cond
        (jump op_jnif r (k + 2) ++ (body ++ jump op_jrelb 0 (m + 1 + k))) in
    rw cond_run (rw popped (rw body_run (rw (over, back) (rw patched (rw joined refl)))))
