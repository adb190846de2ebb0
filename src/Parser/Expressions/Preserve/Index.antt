-- ===== src/Parser/Expressions/Preserve/Index.antt =====
-- Operators and what follows a value, in src/core/parser/impl/expr.c, ensure a relation that their steps
-- ensure.
use aument.Prelude.{ℕ, zero, suc, Option, List, [], ◌∷◌}
use aument.Lexer.{Token}
use aument.Parser.Operators.{OperatorInfo}
use aument.Parser.State.{M}
use aument.Parser.State.Ensures.{Relation, Ensures}
use aument.Parser.Expressions.Primitives.{Primitives, primitive_rules}
use aument.Parser.Expressions.Binary.{
  exec_prefix, exec_unary_expr, reduce_stack, drain_stack, binary_loop, exec_and_rest, exec_or_rest,
  exec_logical_expr,
}
use aument.Parser.Expressions.Index.{
  exec_element_name, load_func, index_operator, index_get, bind_method, index_set, exec_index,
  exec_call_value, exec_method, exec_member, index_loop, exec_index_expr,
}
use aument.Parser.Expressions.Preserve.Calls.{
  args_code-Whole, exec_call_args-Ensures, calling_op-Ensures, exec_call-Ensures,
}

module _ {o : Relation} (r : Primitives o) where
  pub exec_element_name-Ensures : (id_tok : Token) → Ensures o (exec_element_name id_tok)
  unfolding exec_element_name
  exec_element_name-Ensures id_tok = search primitive_rules depth 30

  pub load_func-Ensures :
      (module_tok : Option Token) (id_tok : Token) → Ensures o (load_func module_tok id_tok)
  unfolding load_func
  load_func-Ensures module_tok id_tok = search primitive_rules depth 30

  index_set-Ensures :
      (exec_expr : M (Unit {0})) (left_reg idx_reg : ℕ) (op : Token)
      → Ensures o exec_expr
      → Ensures o (index_set exec_expr left_reg idx_reg op)
  unfolding index_set index_operator
  index_set-Ensures exec_expr left_reg idx_reg op he = search primitive_rules depth 40

  exec_index-Ensures :
      (exec_expr : M (Unit {0})) (left_reg : ℕ) (others : M (Unit {0}))
      → Ensures o exec_expr
      → Ensures o others
      → Ensures o (exec_index exec_expr left_reg others)
  unfolding exec_index index_get
  exec_index-Ensures exec_expr left_reg others he ho =
      search (primitive_rules, index_set-Ensures) depth 40

  exec_member-Ensures :
      (exec_expr : M (Unit {0})) (fuel left_reg : ℕ)
      → Ensures o exec_expr
      → Ensures o (exec_member exec_expr fuel left_reg)
  unfolding exec_member exec_method exec_call_value bind_method
  exec_member-Ensures exec_expr fuel left_reg he =
      search
        (
          primitive_rules, exec_call_args-Ensures, calling_op-Ensures, exec_call-Ensures,
          args_code-Whole, exec_element_name-Ensures, load_func-Ensures,
        )
        depth 50

  index_loop-Ensures :
      (exec_expr : M (Unit {0})) (fuel : ℕ)
      → Ensures o exec_expr
      → Ensures o (index_loop exec_expr fuel)
  unfolding index_loop
  index_loop-Ensures exec_expr zero he = search primitive_rules
  index_loop-Ensures exec_expr (suc fuel) he =
      let rest = index_loop-Ensures exec_expr fuel he in
      search (primitive_rules, exec_index-Ensures, exec_member-Ensures) depth 30

  pub exec_index_expr-Ensures :
      (exec_expr : M (Unit {0})) (fuel : ℕ) (exec_value : M (Unit {0}))
      → Ensures o exec_expr
      → Ensures o exec_value
      → Ensures o (exec_index_expr exec_expr fuel exec_value)
  unfolding exec_index_expr
  exec_index_expr-Ensures exec_expr fuel exec_value he hv =
      search (primitive_rules, index_loop-Ensures)

  pub exec_prefix-Ensures :
      (exec_expr : M (Unit {0})) (op : ℕ)
      → Ensures o exec_expr
      → Ensures o (exec_prefix exec_expr op)
  unfolding exec_prefix
  exec_prefix-Ensures exec_expr op he = search primitive_rules depth 30

  pub exec_unary_expr-Ensures :
      (exec_expr exec_index_expr : M (Unit {0}))
      → Ensures o exec_expr
      → Ensures o exec_index_expr
      → Ensures o (exec_unary_expr exec_expr exec_index_expr)
  unfolding exec_unary_expr
  exec_unary_expr-Ensures exec_expr exec_index_expr he hi =
      search (primitive_rules, exec_prefix-Ensures)

  reduce_stack-Ensures :
      (cur_op : OperatorInfo) (stack : List OperatorInfo) → Ensures o (reduce_stack cur_op stack)
  unfolding reduce_stack
  reduce_stack-Ensures cur_op [] = search primitive_rules
  reduce_stack-Ensures cur_op (top_op ∷ rest) =
      let more = reduce_stack-Ensures cur_op rest in search primitive_rules depth 30

  drain_stack-Ensures : (stack : List OperatorInfo) → Ensures o (drain_stack stack)
  unfolding drain_stack
  drain_stack-Ensures [] = search primitive_rules
  drain_stack-Ensures (top_op ∷ rest) =
      let more = drain_stack-Ensures rest in search primitive_rules

  pub binary_loop-Ensures :
      (fuel : ℕ) (exec_unary : M (Unit {0})) (stack : List OperatorInfo) (missing : ℕ)
      → Ensures o exec_unary
      → Ensures o (binary_loop fuel exec_unary stack missing)
  unfolding binary_loop
  binary_loop-Ensures zero exec_unary stack missing hu = search primitive_rules
  binary_loop-Ensures (suc fuel) exec_unary stack zero hu =
      let more : (s : List OperatorInfo) (m : ℕ) → Ensures o (binary_loop fuel exec_unary s m) =
        λ s m. binary_loop-Ensures fuel exec_unary s m hu in
      search (primitive_rules, drain_stack-Ensures, reduce_stack-Ensures) depth 30
  binary_loop-Ensures (suc fuel) exec_unary stack (suc k) hu =
      let more : (s : List OperatorInfo) (m : ℕ) → Ensures o (binary_loop fuel exec_unary s m) =
        λ s m. binary_loop-Ensures fuel exec_unary s m hu in
      search (primitive_rules, reduce_stack-Ensures) depth 30

  pub exec_logical_expr-Ensures :
      (exec_expr exec_binary : M (Unit {0}))
      → Ensures o exec_expr
      → Ensures o exec_binary
      → Ensures o (exec_logical_expr exec_expr exec_binary)
  unfolding exec_logical_expr exec_and_rest exec_or_rest
  exec_logical_expr-Ensures exec_expr exec_binary he hb = search primitive_rules depth 50
