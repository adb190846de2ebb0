-- ===== src/Parser/Expressions/Assign.antt =====
-- Assignments: au_parser_exec_assign_expr of src/core/parser/impl/expr.c, to a local and to a field of
-- the object that a method runs on.
use aument.Prelude.{ℕ, Option, none, some, [], ◌∷◌, ◌==◌, if◌then◌else◌, get_elem?, drop}
use aument.Lexer.{Token, at_identifier}
use aument.Parser.Regs.{cached_reg_none}
use aument.Parser.State.{
  unknown_var, class_scope_only, M, ◌>>=◌, ◌>>◌, return, gets, next_token, is_type, is_op,
  emit_code, pop, last, lookup, resolve,
}
use aument.Parser.State.Steps.{allocate, on_regs, some_or, present}
use aument.Parser.Statements.{op_mov_reg_local, op_mov_local_reg, low_high, recache}
use aument.Parser.Expressions.{op_class_get_inner, op_class_set_inner, compound_op, cache}

-- a field of the class, whose name follows the `@`
unfoldable pub field_of : Token → M ℕ
field_of id_tok = do
  interface ← gets (λ p. p.class_interface)
  class ← some_or (class_scope_only id_tok) interface
  some_or (unknown_var id_tok) (lookup (drop 1 id_tok.src) class.map)

-- The value so far is loaded after the operand, so it is the right side of the operator. Another
-- operator than the five does not come here.
unfoldable pub exec_field_operator : ℕ → Token → M (Unit {0})
exec_field_operator value op = do
  reg ← allocate
  emit_code (op_class_get_inner ∷ (reg ∷ low_high value))
  opcode ← present (compound_op op.src)
  right_reg ← pop
  left_reg ← pop
  result_reg ← allocate
  emit_code (opcode ∷ (left_reg ∷ (right_reg ∷ (result_reg ∷ []))))

unfoldable pub exec_assign_field : Token → Token → M (Unit {0})
exec_assign_field id_tok op = do
  value ← field_of id_tok
  if is_op op 61 then return tt else exec_field_operator value op
  reg ← last
  emit_code (op_class_set_inner ∷ (reg ∷ low_high value))

unfoldable pub exec_assign_plain : Token → M (Unit {0})
exec_assign_plain id_tok = do
  new_reg ← last
  old_value ← gets (λ p. resolve id_tok.src p.vars)
  value ← some_or (unknown_var id_tok) old_value
  on_regs (λ r. some (recache value new_reg r))
  emit_code (op_mov_reg_local ∷ (new_reg ∷ low_high value))

-- a register for the local, which then counts as the one that caches it
unfoldable pub fresh_result : ℕ → M ℕ
fresh_result local = do reg ← allocate; on_regs (λ r. some (cache local reg r)); return reg

unfoldable pub result_register : ℕ → Option ℕ → M ℕ
result_register local none = fresh_result local
result_register local (some reg) = if reg == cached_reg_none then fresh_result local else return reg

unfoldable pub exec_assign_compound : Token → Token → M (Unit {0})
exec_assign_compound id_tok op = do
  local_value ← gets (λ p. resolve id_tok.src p.vars)
  local ← some_or (unknown_var id_tok) local_value
  modifier_reg ← last
  cached ← gets (λ p. get_elem? p.out.regs.local_to_reg local)
  result_reg ← result_register local cached
  emit_code (op_mov_local_reg ∷ (result_reg ∷ low_high local))
  opcode ← present (compound_op op.src)
  emit_code (opcode ∷ (result_reg ∷ (modifier_reg ∷ (result_reg ∷ []))))
  emit_code (op_mov_reg_local ∷ (result_reg ∷ low_high local))

-- au_parser_exec_assign_expr
unfoldable pub exec_assign_expr : M (Unit {0}) → Token → M (Unit {0})
exec_assign_expr exec_expr id_tok = do
  op ← next_token
  exec_expr
  if is_type at_identifier id_tok.type
      then exec_assign_field id_tok op.token
      else if is_op op.token 61
      then exec_assign_plain id_tok
      else exec_assign_compound id_tok op.token
