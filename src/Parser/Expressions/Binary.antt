-- ===== src/Parser/Expressions/Binary.antt =====
-- Operators around values: au_parser_exec_logical_expr, au_parser_exec_binary_expr and
-- au_parser_exec_unary_expr of src/core/parser/impl/expr.c.
use aument.Prelude.{ℕ, zero, suc, ◌+◌, Bool, Option, none, some, List, [], ◌∷◌, if◌then◌else◌}
use aument.Parser.Regs.{swap_top_regs}
use aument.Parser.Logical.{start_and, finish_and}
use aument.Parser.Logical.Or.{emit_jif, finish_or}
use aument.Parser.Operators.{OperatorInfo, get_operator_info, yields}
use aument.Parser.Operators.Generate.{Generator, operator_info_generate}
use aument.Parser.State.{
  bytecode_gen, Result, ok, aborted, starved, M, ◌>>=◌, ◌>>◌, return, expect, peek_token,
  next_token, is_op, code_len, emit_code, flush_cached, pop,
}
use aument.Parser.State.Steps.{on_out, allocate, on_regs, within, option_case, is_op2}
use aument.Parser.Expressions.{op_not, op_bnot}

unfoldable pub exec_prefix : M (Unit {0}) → ℕ → M (Unit {0})
exec_prefix exec_expr op = do
  _ ← next_token
  exec_expr
  reg ← pop
  result_reg ← allocate
  emit_code (op ∷ (reg ∷ (result_reg ∷ (0 ∷ []))))

-- au_parser_exec_unary_expr
unfoldable pub exec_unary_expr : M (Unit {0}) → M (Unit {0}) → M (Unit {0})
exec_unary_expr exec_expr exec_index_expr = do
  tok ← peek_token
  if is_op tok.token 33
      then exec_prefix exec_expr op_not
      else if is_op tok.token 126
      then exec_prefix exec_expr op_bnot
      else exec_index_expr

-- operator_info_generate, with its result
abbrev pub generated : Option (Bool × Generator) → Result (Bool × Generator)
generated none = aborted
generated (some r) = ok r

unfoldable pub generate : OperatorInfo → M Bool
generate info = on_out (λ g. generated (operator_info_generate info g))

-- the inner loop of au_parser_exec_binary_expr: the operators that stay on the stack
unfoldable pub reduce_stack : OperatorInfo → List OperatorInfo → M (List OperatorInfo)
reduce_stack cur_op [] = return []
reduce_stack cur_op (top_op ∷ rest) =
    let more = generate top_op >>= λ made. expect made bytecode_gen >> reduce_stack cur_op rest in
    if yields cur_op top_op then more else return (top_op ∷ rest)

-- the last loop, which does not look at the result
unfoldable pub drain_stack : List OperatorInfo → M (Unit {0})
drain_stack [] = return tt
drain_stack (top_op ∷ rest) = generate top_op >>= λ _. drain_stack rest

-- `while (1)`, with at most `fuel` turns; `missing` is 1 - balance
unfoldable pub binary_loop : ℕ → M (Unit {0}) → List OperatorInfo → ℕ → M (Unit {0})
binary_loop zero exec_unary stack missing = λ p. starved
binary_loop (suc fuel) exec_unary stack missing = do
  tok ← peek_token
  option_case
      (elim missing [
        | zero ↦ drain_stack stack
        | suc k ↦ exec_unary >> binary_loop fuel exec_unary stack k
      ])
      (λ cur_op. next_token >>= λ _. reduce_stack cur_op stack >>= λ rest.
        binary_loop fuel exec_unary (cur_op ∷ rest) (suc missing))
      (get_operator_info tok.token)

-- after the left operand of `&&`, and of `||`
unfoldable pub exec_and_rest : M (Unit {0}) → M (Unit {0})
exec_and_rest exec_expr = do
  _ ← next_token
  flush_cached
  reg ← allocate
  start ← code_len
  within (λ g. start_and reg g.regs g)
  exec_expr
  within (finish_and reg (start + 4))

unfoldable pub exec_or_rest : M (Unit {0}) → M (Unit {0})
exec_or_rest exec_expr = do
  _ ← next_token
  flush_cached
  reg ← allocate
  on_regs swap_top_regs
  left_len ← code_len
  within emit_jif
  exec_expr
  within (finish_or reg left_len)

-- au_parser_exec_logical_expr
unfoldable pub exec_logical_expr : M (Unit {0}) → M (Unit {0}) → M (Unit {0})
exec_logical_expr exec_expr exec_binary = do
  exec_binary
  tok ← peek_token
  if is_op2 tok.token 38 38
      then exec_and_rest exec_expr
      else if is_op2 tok.token 124 124
      then exec_or_rest exec_expr
      else return tt
