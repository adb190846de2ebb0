-- ===== src/Parser/Expressions/Values.antt =====
-- Values: au_parser_exec_value of src/core/parser/impl/expr.c.
use aument.Prelude.{
  ℕ, ◌%◌, ◌^◌, true, false, Option, none, some, List, [], ◌∷◌, ◌++◌, ◌==◌, if◌then◌else◌, length,
  get_elem?, set,
}
use aument.BitArray.{set_at}
use aument.Lexer.{
  Token, TokenType, eof, int_literal, double_literal, identifier, string, operator, at_identifier,
  char_string, unknown, bytes_eq,
}
use aument.Parser.Regs.{Regs, cached_reg_none, push_reg}
use aument.Parser.Emit.{op_mov_bool}
use aument.Parser.Program.{Scope, none_value, Module, Program}
use aument.Parser.State.{
  unexpected_token, unknown_var, class_scope_only, M, ◌>>=◌, ◌>>◌, return, refuse, gets, expect,
  peek_token, next_token, is_type, keyword_cmp, is_op, emit_code, lookup, resolve,
}
use aument.Parser.State.Steps.{
  allocate, on_regs, write_program, option_case, some_or, resolve_module, is_op2,
}
use aument.Parser.Statements.{op_mov_local_reg, low_high}
use aument.Parser.Expressions.{op_load_nil, op_neg, op_class_get_inner, is_assign_tok, cache}
use aument.Parser.Expressions.Assign.{field_of, exec_assign_expr}
use aument.Parser.Expressions.Binary.{exec_prefix}
use aument.Parser.Expressions.Calls.{exec_call}
use aument.Parser.Expressions.Index.{exec_element_name, load_func}
use aument.Parser.Expressions.Literals.{
  load_const, exec_int, exec_double, exec_string, exec_char_string,
}
use aument.Parser.Expressions.Objects.{exec_array_or_tuple, exec_dict, exec_new_expr}

abbrev pub word_true : List ℕ
word_true = 116 ∷ (114 ∷ (117 ∷ (101 ∷ [])))

abbrev pub word_false : List ℕ
word_false = 102 ∷ (97 ∷ (108 ∷ (115 ∷ (101 ∷ []))))

abbrev pub word_nil : List ℕ
word_nil = 110 ∷ (105 ∷ (108 ∷ []))

abbrev pub word_new : List ℕ
word_new = 110 ∷ (101 ∷ (119 ∷ []))

unfoldable pub load_bool : ℕ → M (Unit {0})
load_bool bit = do reg ← allocate; emit_code (op_mov_bool ∷ (bit ∷ (reg ∷ (0 ∷ []))))

unfoldable pub load_nil : M (Unit {0})
load_nil = do reg ← allocate; emit_code (op_load_nil ∷ (reg ∷ (0 ∷ (0 ∷ []))))

unfoldable pub load_indexed : ℕ → M (Unit {0})
load_indexed idx = do reg ← allocate; load_const reg idx

-- a constant of another module, which that module fills in
abbrev pub with_const : List ℕ → ℕ → Module → Program → Program
with_const name module_idx imported d = record d {
  data_val = d.data_val ++ (none_value ∷ []);
  imported_modules =
      set d.imported_modules module_idx
        (record imported { const_map = (name, length d.data_val) ∷ imported.const_map });
}

unfoldable pub add_module_const : List ℕ → ℕ → Module → M (Unit {0})
add_module_const name module_idx imported = do
  idx ← gets (λ p. length p.program.data_val)
  write_program (with_const name module_idx imported)
  load_indexed idx

unfoldable pub exec_module_const : Token → Token → M (Unit {0})
exec_module_const module_tok tok = do
  found ← resolve_module module_tok
  option_case (add_module_const tok.src found.0 found.1) load_indexed
      (lookup tok.src found.1.const_map)

-- AU_BA_SET_BIT(p->pinned_regs, reg)
abbrev pub pin : ℕ → Regs → Regs
pin reg r = record r { pinned = set_at r.pinned reg }

unfoldable pub load_local : ℕ → M (Unit {0})
load_local local = do
  reg ← allocate
  emit_code (op_mov_local_reg ∷ (reg ∷ low_high local))
  on_regs (λ r. some (pin reg (cache local reg r)))

unfoldable pub push_cached : ℕ → M (Unit {0})
push_cached cached_reg = do
  on_regs (λ r. push_reg r cached_reg)
  on_regs (λ r. some (pin cached_reg r))

-- A local is loaded once, and then its register is used again.
unfoldable pub exec_local : ℕ → M (Unit {0})
exec_local local = do
  cached ← gets (λ p. get_elem? p.out.regs.local_to_reg local)
  option_case (load_local local)
      (λ cached_reg.
        if cached_reg == cached_reg_none then load_local local else push_cached cached_reg)
      cached

abbrev pub lookup_in : List ℕ → Option Scope → Option ℕ
lookup_in name none = none
lookup_in name (some scope) = lookup name scope

unfoldable pub exec_const : Token → M (Unit {0})
exec_const tok = do
  const_val ← gets (λ p. lookup tok.src p.consts)
  top_val ← gets (λ p. lookup_in tok.src p.top_consts)
  option_case (option_case (refuse (unknown_var tok)) load_indexed top_val) load_indexed const_val

unfoldable pub exec_variable : Token → M (Unit {0})
exec_variable tok = do
  val ← gets (λ p. resolve tok.src p.vars)
  option_case (exec_const tok) (λ local. exec_local (local % 2 ^ 16)) val

-- a name that is neither called nor assigned to
unfoldable pub exec_named : Option Token → Token → M (Unit {0})
exec_named none tok = exec_variable tok
exec_named (some module_tok) tok = exec_module_const module_tok tok

-- a function that is named after a dot
unfoldable pub exec_dot : M (Unit {0})
exec_dot = do
  tok ← next_token
  expect (is_type identifier tok.token.type) (unexpected_token tok.token)
  name ← exec_element_name tok.token
  _ ← load_func name.0 name.1
  return tt

unfoldable pub load_field : Token → M (Unit {0})
load_field tok = do
  reg ← allocate
  value ← field_of tok
  emit_code (op_class_get_inner ∷ (reg ∷ low_high value))

module _ (strtod : List ℕ → ℕ) (fuel : ℕ) (exec_expr : M (Unit {0})) where
  -- after `(`
  unfoldable pub exec_parens : M (Unit {0})
  exec_parens = do
    tok ← peek_token
    if is_op tok.token 45 then exec_prefix exec_expr op_neg else exec_expr
    close ← next_token
    expect (bytes_eq close.token.src (41 ∷ [])) (unexpected_token close.token)

  unfoldable pub exec_operator : Token → M (Unit {0})
  exec_operator tok =
      if is_op tok 40
      then exec_parens
      else if is_op tok 91
      then exec_array_or_tuple exec_expr fuel false
      else if is_op2 tok 35 91
      then exec_array_or_tuple exec_expr fuel true
      else if is_op tok 123
      then exec_dict
      else if is_op tok 46
      then exec_dot
      else refuse (unexpected_token tok)

  -- a name, which is called or not
  unfoldable pub exec_name_or_call : Token → M (Unit {0})
  exec_name_or_call tok = do
    name ← exec_element_name tok
    peek ← peek_token
    if is_op peek.token 40
        then (next_token >>= λ _. exec_call fuel exec_expr name.0 name.1 false)
        else exec_named name.0 name.1

  -- `new` before `(` is a function of that name.
  unfoldable pub exec_new_or_name : Token → Token → M (Unit {0})
  exec_new_or_name tok peek =
      if keyword_cmp tok word_new
      then (if is_op peek 40 then exec_name_or_call tok else exec_new_expr exec_expr fuel)
      else exec_name_or_call tok

  unfoldable pub exec_identifier : Token → M (Unit {0})
  exec_identifier tok =
      if keyword_cmp tok word_true
      then load_bool 1
      else if keyword_cmp tok word_false
      then load_bool 0
      else if keyword_cmp tok word_nil
      then load_nil
      else peek_token >>= λ peek.
          if is_assign_tok peek.token
          then exec_assign_expr exec_expr tok
          else exec_new_or_name tok peek.token

  unfoldable pub exec_at_identifier : Token → M (Unit {0})
  exec_at_identifier tok = do
    interface ← gets (λ p. p.class_interface)
    _ ← some_or (class_scope_only tok) interface
    peek ← peek_token
    if is_assign_tok peek.token then exec_assign_expr exec_expr tok else load_field tok

  -- the switch on the type of the token
  unfoldable pub exec_value_of : TokenType → Token → M (Unit {0})
  exec_value_of int_literal tok = exec_int tok.src
  exec_value_of double_literal tok = exec_double strtod tok.src
  exec_value_of operator tok = exec_operator tok
  exec_value_of identifier tok = exec_identifier tok
  exec_value_of string tok = exec_string tok.src
  exec_value_of char_string tok = exec_char_string tok.src
  exec_value_of at_identifier tok = exec_at_identifier tok
  exec_value_of eof tok = refuse (unexpected_token tok)
  exec_value_of unknown tok = refuse (unexpected_token tok)

  -- au_parser_exec_value
  unfoldable pub exec_value : M (Unit {0})
  exec_value = next_token >>= λ tok. exec_value_of tok.token.type tok.token
