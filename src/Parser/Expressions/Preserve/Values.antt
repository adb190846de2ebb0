-- ===== src/Parser/Expressions/Preserve/Values.antt =====
-- Values of src/core/parser/impl/expr.c ensure a relation that their steps ensure.
use aument.Prelude.{ℕ, Bool, true, false, Option, none, some, List, [], ◌∷◌}
use aument.Lexer.{
  Token, TokenType, eof, int_literal, double_literal, identifier, string, operator, at_identifier,
  char_string, unknown,
}
use aument.Parser.Program.{Class, Constant}
use aument.Parser.State.{M}
use aument.Parser.State.Ensures.{Relation, Ensures}
use aument.Parser.Expressions.Primitives.{Primitives, primitive_rules, fold_list-Ensures}
use aument.Parser.Expressions.Literals.{
  load_const, load_data, load_number, exec_int, exec_double, exec_string, exec_char_string,
}
use aument.Parser.Expressions.Objects.{
  NewInitializer, exec_dict, set_fields, give_back_fields, exec_new_plain, exec_new_initialized,
  finish_new, defined, exec_item, exec_items, exec_array_or_tuple, exec_initializer,
  exec_initializers, exec_new_expr,
}
use aument.Parser.Expressions.Values.{
  load_bool, load_nil, load_indexed, load_local, push_cached, exec_local, exec_const, exec_variable,
  exec_named, exec_dot, load_field, exec_parens, exec_operator, exec_name_or_call, exec_new_or_name,
  exec_identifier, exec_at_identifier, exec_value_of, exec_value,
}
use aument.Parser.Expressions.Preserve.Calls.{
  exec_call-Ensures, field_of-Ensures, exec_assign_expr-Ensures,
}
use aument.Parser.Expressions.Preserve.Index.{
  exec_element_name-Ensures, load_func-Ensures, exec_prefix-Ensures,
}

module _ {o : Relation} (r : Primitives o) where
  load_data-Ensures : (value : Constant) → Ensures o (load_data value)
  unfolding load_data load_const
  load_data-Ensures value = search primitive_rules depth 30

  exec_int-Ensures : (src : List ℕ) → Ensures o (exec_int src)
  unfolding exec_int load_number
  exec_int-Ensures src = search (primitive_rules, load_data-Ensures) depth 30

  exec_string-Ensures : (src : List ℕ) → Ensures o (exec_string src)
  unfolding exec_string load_const
  exec_string-Ensures src = search primitive_rules depth 30

  exec_char_string-Ensures : (src : List ℕ) → Ensures o (exec_char_string src)
  unfolding exec_char_string load_const
  exec_char_string-Ensures src = search primitive_rules depth 30

  exec_dict-Ensures : Ensures o exec_dict
  unfolding exec_dict
  exec_dict-Ensures = search primitive_rules depth 30

  set_fields-Ensures : (array : List NewInitializer) → Ensures o (set_fields array)
  unfolding set_fields
  set_fields-Ensures [] = search primitive_rules
  set_fields-Ensures (init ∷ rest) =
      let more = set_fields-Ensures rest in search primitive_rules depth 30

  give_back_fields-Ensures : (array : List NewInitializer) → Ensures o (give_back_fields array)
  unfolding give_back_fields
  give_back_fields-Ensures [] = search primitive_rules
  give_back_fields-Ensures (init ∷ rest) =
      let more = give_back_fields-Ensures rest in search primitive_rules depth 30

  exec_new_plain-Ensures : (class_idx : ℕ) → Ensures o (exec_new_plain class_idx)
  unfolding exec_new_plain
  exec_new_plain-Ensures class_idx = search primitive_rules depth 30

  finish_new-Ensures :
      (class_idx : ℕ) (array : List NewInitializer) → Ensures o (finish_new class_idx array)
  unfolding exec_new_initialized
  finish_new-Ensures class_idx [] = exec_new_plain-Ensures class_idx
  finish_new-Ensures class_idx (init ∷ rest) =
      search (primitive_rules, set_fields-Ensures, give_back_fields-Ensures) depth 30

  defined-Ensures : (found : Option (Option Class)) → Ensures o (defined found)
  defined-Ensures none = search primitive_rules
  defined-Ensures (some class) = search primitive_rules

  exec_array_or_tuple-Ensures :
      (exec_expr : M (Unit {0})) (fuel : ℕ) (is_tuple : Bool)
      → Ensures o exec_expr
      → Ensures o (exec_array_or_tuple exec_expr fuel is_tuple)
  unfolding exec_array_or_tuple exec_items exec_item
  exec_array_or_tuple-Ensures exec_expr fuel true he =
      search (primitive_rules, fold_list-Ensures) depth 50
  exec_array_or_tuple-Ensures exec_expr fuel false he =
      search (primitive_rules, fold_list-Ensures) depth 50

  exec_new_expr-Ensures :
      (exec_expr : M (Unit {0})) (fuel : ℕ)
      → Ensures o exec_expr
      → Ensures o (exec_new_expr exec_expr fuel)
  unfolding exec_new_expr exec_initializers exec_initializer
  exec_new_expr-Ensures exec_expr fuel he =
      search
        (
          primitive_rules, fold_list-Ensures, exec_new_plain-Ensures, finish_new-Ensures,
          defined-Ensures,
        )
        depth 60

  exec_variable-Ensures : (tok : Token) → Ensures o (exec_variable tok)
  unfolding exec_variable exec_const exec_local load_local push_cached load_indexed load_const
  exec_variable-Ensures tok = search primitive_rules depth 60

  exec_named-Ensures :
      (module_tok : Option Token) (tok : Token) → Ensures o (exec_named module_tok tok)
  unfolding exec_named
  exec_named-Ensures none tok = exec_variable-Ensures tok
  exec_named-Ensures (some module_tok) tok = search primitive_rules

  module _ (strtod : List ℕ → ℕ) (fuel : ℕ) (exec_expr : M (Unit {0}))
      (he : Ensures o exec_expr) where
    exec_operator-Ensures : (tok : Token) → Ensures o (exec_operator strtod fuel exec_expr tok)
    unfolding exec_operator exec_parens exec_dot
    exec_operator-Ensures tok =
        search
          (
            primitive_rules, exec_prefix-Ensures, exec_array_or_tuple-Ensures, exec_dict-Ensures,
            exec_element_name-Ensures, load_func-Ensures,
          )
          depth 40

    exec_name_or_call-Ensures :
        (tok : Token) → Ensures o (exec_name_or_call strtod fuel exec_expr tok)
    unfolding exec_name_or_call
    exec_name_or_call-Ensures tok =
        search (primitive_rules, exec_element_name-Ensures, exec_call-Ensures, exec_named-Ensures)
          depth 30

    exec_identifier-Ensures : (tok : Token) → Ensures o (exec_identifier strtod fuel exec_expr tok)
    unfolding exec_identifier exec_new_or_name load_bool load_nil
    exec_identifier-Ensures tok =
        search
          (
            primitive_rules, exec_name_or_call-Ensures, exec_assign_expr-Ensures,
            exec_new_expr-Ensures,
          )
          depth 40

    exec_at_identifier-Ensures :
        (tok : Token) → Ensures o (exec_at_identifier strtod fuel exec_expr tok)
    unfolding exec_at_identifier load_field
    exec_at_identifier-Ensures tok =
        search (primitive_rules, field_of-Ensures, exec_assign_expr-Ensures) depth 30

    exec_value_of-Ensures :
        (type : TokenType) (tok : Token) → Ensures o (exec_value_of strtod fuel exec_expr type tok)
    unfolding exec_value_of exec_double
    exec_value_of-Ensures int_literal tok = exec_int-Ensures tok.src
    exec_value_of-Ensures double_literal tok = load_data-Ensures _
    exec_value_of-Ensures operator tok = exec_operator-Ensures tok
    exec_value_of-Ensures identifier tok = exec_identifier-Ensures tok
    exec_value_of-Ensures string tok = exec_string-Ensures tok.src
    exec_value_of-Ensures char_string tok = exec_char_string-Ensures tok.src
    exec_value_of-Ensures at_identifier tok = exec_at_identifier-Ensures tok
    exec_value_of-Ensures eof tok = search primitive_rules
    exec_value_of-Ensures unknown tok = search primitive_rules

    pub exec_value-Ensures : Ensures o (exec_value strtod fuel exec_expr)
    unfolding exec_value
    exec_value-Ensures = search (primitive_rules, exec_value_of-Ensures)
