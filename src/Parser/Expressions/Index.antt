-- ===== src/Parser/Expressions/Index.antt =====
-- What follows a value: au_parser_exec_index_expr of src/core/parser/impl/expr.c, with the names of
-- au_parser_exec_fixed_element_name.
use aument.Prelude.{ℕ, zero, suc, true, Option, none, some, [], ◌∷◌, ltb, if◌then◌else◌, length}
use aument.Lexer.{Token, identifier}
use aument.Parser.Regs.{swap_top_regs}
use aument.Parser.Resolve.{resolve_fn}
use aument.Parser.State.{
  unexpected_token, bytecode_gen, starved, M, ◌>>=◌, ◌>>◌, return, expect, peek_token, next_token,
  is_type, is_op, emit_code, pop, last,
}
use aument.Parser.State.Steps.{allocate, on_regs, give_back_all, present, is_op2}
use aument.Parser.Statements.{low_high}
use aument.Parser.Expressions.{
  op_idx_get, op_idx_set, op_load_func, op_bind_arg_to_func, op_call_func_value,
  op_call_func_value_catch, max_func_id, is_assign_tok, compound_op, drop_operands,
}
use aument.Parser.Expressions.Calls.{calling_op, args_code, registers, exec_call_args, exec_call}

-- a name, which may follow a module and `::`
unfoldable pub exec_element_name : Token → M (Option Token × Token)
exec_element_name id_tok = do
  peek ← peek_token
  if is_op2 peek.token 58 58
      then (do
        _ ← next_token
        name_tok ← next_token
        expect (is_type identifier name_tok.token.type) (unexpected_token name_tok.token)
        return (some id_tok, name_tok.token))
      else return (none, id_tok)

-- a function as a value
unfoldable pub load_func : Option Token → Token → M ℕ
load_func module_tok id_tok = do
  resolved ← resolve_fn module_tok id_tok 1
  expect (ltb resolved.func_idx max_func_id) bytecode_gen
  func_reg ← allocate
  emit_code (op_load_func ∷ (func_reg ∷ low_high resolved.func_idx))
  return func_reg

-- `a[i] op= e` on the three registers
unfoldable pub index_operator : ℕ → ℕ → ℕ → Token → M (Unit {0})
index_operator left_reg idx_reg right_reg op = do
  result_reg ← allocate
  emit_code (op_idx_get ∷ (left_reg ∷ (idx_reg ∷ (result_reg ∷ []))))
  opcode ← present (compound_op op.src)
  emit_code (opcode ∷ (result_reg ∷ (right_reg ∷ (result_reg ∷ []))))
  emit_code (op_idx_set ∷ (left_reg ∷ (idx_reg ∷ (result_reg ∷ []))))
  on_regs swap_top_regs
  _ ← pop
  return tt

unfoldable pub index_get : ℕ → ℕ → M (Unit {0})
index_get left_reg idx_reg = do
  result_reg ← allocate
  emit_code (op_idx_get ∷ (left_reg ∷ (idx_reg ∷ (result_reg ∷ []))))
  on_regs drop_operands

-- a method of the value, which is called or bound to it
unfoldable pub bind_method : ℕ → Option Token → Token → M (Unit {0})
bind_method left_reg module_tok id_tok = do
  func_reg ← load_func module_tok id_tok
  emit_code (op_bind_arg_to_func ∷ (func_reg ∷ (left_reg ∷ (0 ∷ []))))

module _ (exec_expr : M (Unit {0})) where
  unfoldable pub index_set : ℕ → ℕ → Token → M (Unit {0})
  index_set left_reg idx_reg op = do
    exec_expr
    right_reg ← last
    if is_op op 61
        then emit_code (op_idx_set ∷ (left_reg ∷ (idx_reg ∷ (right_reg ∷ []))))
        else index_operator left_reg idx_reg right_reg op
    on_regs drop_operands

  -- after `[`; an assignment ends the loop
  unfoldable pub exec_index : ℕ → M (Unit {0}) → M (Unit {0})
  exec_index left_reg others = do
    exec_expr
    idx_reg ← last
    tok ← next_token
    expect (is_op tok.token 93) (unexpected_token tok.token)
    op ← peek_token
    if is_assign_tok op.token
        then (next_token >>= λ _. index_set left_reg idx_reg op.token)
        else (index_get left_reg idx_reg >> others)

  -- after `.(`
  unfoldable pub exec_call_value : ℕ → M (Unit {0})
  exec_call_value fuel = do
    args ← exec_call_args fuel exec_expr
    expect (ltb (length args.0) 256) bytecode_gen
    op ← calling_op op_call_func_value op_call_func_value_catch args.1
    func_reg ← pop
    return_reg ← allocate
    emit_code (op ∷ (func_reg ∷ (length args.0 ∷ (return_reg ∷ []))))
    emit_code (args_code (registers args.0))
    give_back_all args.0

  unfoldable pub exec_method : ℕ → ℕ → Token → M (Unit {0})
  exec_method fuel left_reg id_tok = do
    expect (is_type identifier id_tok.type) (unexpected_token id_tok)
    name ← exec_element_name id_tok
    peek ← peek_token
    if is_op peek.token 40
        then (next_token >>= λ _. exec_call fuel exec_expr name.0 name.1 true)
        else bind_method left_reg name.0 name.1

  -- after `.`
  unfoldable pub exec_member : ℕ → ℕ → M (Unit {0})
  exec_member fuel left_reg = do
    id_tok ← next_token
    if is_op id_tok.token 40 then exec_call_value fuel else exec_method fuel left_reg id_tok.token

  unfoldable pub index_loop : ℕ → M (Unit {0})
  index_loop zero = λ p. starved
  index_loop (suc fuel) =
      let others = index_loop fuel in
      do
        left_reg ← last
        tok ← peek_token
        if is_op tok.token 91
            then (next_token >>= λ _. exec_index left_reg others)
            else if is_op tok.token 46
            then (next_token >>= λ _. exec_member fuel left_reg >> others)
            else return tt

  -- au_parser_exec_index_expr
  unfoldable pub exec_index_expr : ℕ → M (Unit {0}) → M (Unit {0})
  exec_index_expr fuel exec_value = exec_value >> index_loop fuel
