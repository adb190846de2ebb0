-- ===== src/Parser/Expressions/Objects.antt =====
-- Arrays, tuples, dictionaries and objects: au_parser_exec_array_or_tuple, au_parser_exec_dict and
-- au_parser_exec_new_expr of src/core/parser/impl/expr.c.
use aument.Prelude.{
  ℕ, ◌+◌, ◌%◌, ◌^◌, Bool, true, false, not, Option, none, some, List, [], ◌∷◌, ◌++◌, ◌==◌,
  if◌then◌else◌, get_elem?,
}
use aument.Lexer.{identifier}
use aument.Parser.Regs.{OwnedReg, set_reg_unused}
use aument.Parser.Program.{Class}
use aument.Parser.State.{
  unexpected_token, bytecode_gen, unknown_class, unknown_var, M, ◌>>=◌, ◌>>◌, return, gets, expect,
  peek_token, next_token, is_type, is_op, code_len, emit_code, pop, replace, lookup,
}
use aument.Parser.State.Steps.{
  allocate, on_regs, take_ownership, give_back, some_or, undefined, present,
}
use aument.Parser.State.Lists.{fold_list}
use aument.Parser.Statements.{low_high}
use aument.Parser.Expressions.{
  op_array_new, op_array_push, op_tuple_new, op_idx_set_static, op_dict_new, op_class_new,
  op_class_new_initialized, op_class_set_inner, op_nop,
}

-- struct new_initializer
pub record NewInitializer : Type 0 where
  pub reg_state : OwnedReg
  pub local : ℕ

-- In a tuple the index is cut to 8 bits.
abbrev pub item_code : Bool → ℕ → ℕ → ℕ → List ℕ
item_code true array_reg capacity value_reg =
    op_idx_set_static ∷ (array_reg ∷ ((capacity % 256) ∷ (value_reg ∷ [])))
item_code false array_reg capacity value_reg = op_array_push ∷ (array_reg ∷ (value_reg ∷ (0 ∷ [])))

abbrev pub new_op : Bool → ℕ
new_op true = op_tuple_new
new_op false = op_array_new

-- au_parser_exec_dict; a dictionary with entries is an abort
unfoldable pub exec_dict : M (Unit {0})
exec_dict = do
  dict_reg ← allocate
  emit_code (op_dict_new ∷ (dict_reg ∷ (0 ∷ (0 ∷ []))))
  tok ← next_token
  if is_op tok.token 125 then return tt else undefined

-- CLASS_SET_INNER for each initializer
unfoldable pub set_fields : List NewInitializer → M (Unit {0})
set_fields [] = return tt
set_fields (init ∷ rest) = do
  emit_code (op_class_set_inner ∷ (init.reg_state.reg ∷ low_high init.local))
  on_regs (λ r. set_reg_unused r init.reg_state.reg)
  set_fields rest

unfoldable pub give_back_fields : List NewInitializer → M (Unit {0})
give_back_fields [] = return tt
give_back_fields (init ∷ rest) = give_back init.reg_state >> give_back_fields rest

unfoldable pub exec_new_plain : ℕ → M (Unit {0})
exec_new_plain class_idx = do
  result_reg ← allocate
  emit_code (op_class_new ∷ (result_reg ∷ low_high class_idx))

unfoldable pub exec_new_initialized : ℕ → List NewInitializer → M (Unit {0})
exec_new_initialized class_idx array = do
  result_reg ← allocate
  emit_code (op_class_new_initialized ∷ (result_reg ∷ low_high class_idx))
  set_fields array
  give_back_fields array
  emit_code (op_nop ∷ (0 ∷ (0 ∷ (0 ∷ []))))

abbrev pub finish_new : ℕ → List NewInitializer → M (Unit {0})
finish_new class_idx [] = exec_new_plain class_idx
finish_new class_idx (init ∷ rest) = exec_new_initialized class_idx (init ∷ rest)

-- the class, which is defined by now
abbrev pub defined : Option (Option Class) → M Class
defined none = undefined
defined (some class) = present class

module _ (exec_expr : M (Unit {0})) where
  -- one item, and how many there are then
  unfoldable pub exec_item : Bool → ℕ → ℕ → M ℕ
  exec_item is_tuple array_reg capacity = do
    exec_expr
    value_reg ← pop
    emit_code (item_code is_tuple array_reg capacity value_reg)
    if is_tuple then expect (not (capacity == 65535)) bytecode_gen else return tt
    return ((capacity + 1) % 2 ^ 16)

  unfoldable pub exec_items : ℕ → Bool → ℕ → ℕ → M (Unit {0})
  exec_items fuel is_tuple array_reg cap_offset = do
    capacity ← fold_list 93 (exec_item is_tuple array_reg) fuel 0
    replace cap_offset capacity

  -- au_parser_exec_array_or_tuple
  unfoldable pub exec_array_or_tuple : ℕ → Bool → M (Unit {0})
  exec_array_or_tuple fuel is_tuple = do
    array_reg ← allocate
    start ← code_len
    emit_code (new_op is_tuple ∷ (array_reg ∷ (0 ∷ (0 ∷ []))))
    tok ← peek_token
    if is_op tok.token 93
        then (next_token >>= λ _. return tt)
        else exec_items fuel is_tuple array_reg (start + 2)

  -- one initializer, after those before it
  unfoldable pub exec_initializer : Class → List NewInitializer → M (List NewInitializer)
  exec_initializer interface array = do
    name_tok ← next_token
    expect (is_type identifier name_tok.token.type) bytecode_gen
    key ← some_or (unknown_var name_tok.token) (lookup name_tok.token.src interface.map)
    separator_tok ← next_token
    expect (is_op separator_tok.token 58) (unexpected_token separator_tok.token)
    exec_expr
    right_reg ← take_ownership
    return (array ++ (record { reg_state = right_reg; local = key } ∷ []))

  unfoldable pub exec_initializers : ℕ → ℕ → M (Unit {0})
  exec_initializers fuel class_idx = do
    found ← gets (λ p. get_elem? p.program.classes class_idx)
    interface ← defined found
    array ← fold_list 125 (exec_initializer interface) fuel []
    finish_new class_idx array

  -- au_parser_exec_new_expr
  unfoldable pub exec_new_expr : ℕ → M (Unit {0})
  exec_new_expr fuel = do
    id_tok ← next_token
    expect (is_type identifier id_tok.token.type) (unexpected_token id_tok.token)
    class_value ← gets (λ p. lookup id_tok.token.src p.program.class_map)
    class_idx ← some_or (unknown_class id_tok.token) class_value
    tok ← peek_token
    if is_op tok.token 123
        then (next_token >>= λ _. exec_initializers fuel class_idx)
        else exec_new_plain class_idx
