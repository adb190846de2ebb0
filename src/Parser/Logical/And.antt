-- ===== src/Parser/Logical/And.antt =====
-- The whole of `&&` in au_parser_exec_logical_expr of src/core/parser/impl/expr.c.
use aument.Prelude.{
  ℕ, ◌+◌, ◌*◌, ◌/◌, ◌%◌, ◌^◌, ◌<◌, ◌≡◌, refl, sym, ap, ◌∙◌, Bool, true, Option, some, List, [], ◌∷◌,
  ◌++◌, arith, length, length-append, append_assoc,
}
use aument.Parser.Regs.{Regs, new_reg, swap_top_regs, pop_reg, flush_cached_regs}
use aument.Parser.Operators.Generate.{Generator}
use aument.Parser.Emit.{op_mov_bool, op_jnif, emit_jnif}
use aument.Parser.Logical.{start_and, exec_and}
use aument.Parser.Logical.Code.{and_tail, finish_and-code}

-- the code between the left and the right operand
abbrev pub and_head : ℕ → ℕ → ℕ → ℕ → List ℕ
and_head reg l low high = op_mov_bool ∷ (0 ∷ (reg ∷ (0 ∷ (op_jnif ∷ (l ∷ (low ∷ (high ∷ [])))))))

-- For `&&`: when a result register is free, the left operand's register l lies below it, and the
-- right operand makes code of m instructions, m below 2 ^ 16 - 3, whose value is in register r, then
-- the code is: the result false, a jump on l over m + 3 instructions, the right operand, a jump on r
-- over 2 instructions, the result true. Both jumps go to the end of the code.
pub exec_and-code :
    (exec_expr : Generator → Option (Bool × Generator)) (p q : Generator) (r1 r2 r3 r4 : Regs)
    (reg l r m : ℕ) (right : List ℕ)
    → new_reg (flush_cached_regs p.regs) ≡ some (reg, r1)
    → swap_top_regs r1 ≡ some r2
    → pop_reg r2 ≡ some (l, r3)
    → exec_expr (record { regs = r3; bc = p.bc ++ and_head reg l 0 0 }) ≡ some (true, q)
    → q.bc ≡ (p.bc ++ and_head reg l 0 0) ++ right
    → length right ≡ 4 * m
    → m + 3 < 2 ^ 16
    → pop_reg (flush_cached_regs q.regs) ≡ some (r, r4)
    → (low high : ℕ) × (low + 256 * high ≡ m + 3)
      × (exec_and exec_expr p
          ≡ some (
            true,
            record {
              regs = r4;
              bc = p.bc ++ (and_head reg l low high ++ (right ++ and_tail r reg 2));
            },
          ))
unfolding exec_and start_and emit_jnif
exec_and-code exec_expr p q r1 r2 r3 r4 reg l r m right fresh swapped popped made same size small
      taken =
    let low = (length right + 12) / 4 % 2 ^ 16 % 256 in
    let high = (length right + 12) / 4 % 2 ^ 16 / 256 % 256 in
    let offset : low + 256 * high ≡ m + 3 = rw size (omega arith) in
    let false_first = op_mov_bool ∷ (0 ∷ (reg ∷ (0 ∷ []))) in
    let before = p.bc ++ false_first in
    let split : (p.bc ++ false_first) ++ (op_jnif ∷ (l ∷ (0 ∷ (0 ∷ []))))
        ≡ p.bc ++ and_head reg l 0 0 =
      append_assoc p.bc false_first (op_jnif ∷ (l ∷ (0 ∷ (0 ∷ [])))) in
    let code : q.bc ≡ before ++ (op_jnif ∷ (l ∷ (0 ∷ (0 ∷ right)))) =
      same
      ∙ (ap (λ z. z ++ right) (sym split)
          ∙ append_assoc before (op_jnif ∷ (l ∷ (0 ∷ (0 ∷ [])))) right) in
    let start : length p.bc + 4 ≡ length before = sym (length-append p.bc false_first) in
    let done = finish_and-code reg r before right op_jnif l q r4 code taken in
    let joined =
      append_assoc p.bc false_first
        (op_jnif ∷ (l ∷ (low ∷ (high ∷ (right ++ and_tail r reg 2))))) in
    (
      low,
      high,
      offset,
      rw (fresh, swapped) (rw popped (rw (split, made) (rw (start, done) (rw joined refl)))),
    )
