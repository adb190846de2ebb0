-- ===== src/Parser/Expressions/Run.antt =====
-- The knot of the expressions in src/core/parser/impl/expr.c: au_parser_exec_expr.
use aument.Prelude.{ℕ, zero, suc, List, []}
use aument.Parser.State.{starved, M}
use aument.Parser.Expressions.Binary.{binary_loop, exec_unary_expr, exec_logical_expr}
use aument.Parser.Expressions.Index.{exec_index_expr}
use aument.Parser.Expressions.Values.{exec_value}

module _ (strtod : List ℕ → ℕ) where
  -- one level, with loops of at most `fuel` turns
  unfoldable pub exec_level : ℕ → M (Unit {0}) → M (Unit {0})
  exec_level fuel exec_expr =
      let value = exec_value strtod fuel exec_expr in
      let unary = exec_unary_expr exec_expr (exec_index_expr exec_expr fuel value) in
      exec_logical_expr exec_expr (binary_loop fuel unary [] 1)

  -- au_parser_exec_expr, with less than `fuel` calls of it inside each other
  unfoldable pub expr_at : ℕ → M (Unit {0})
  expr_at zero = λ p. starved
  expr_at (suc fuel) = exec_level fuel (expr_at fuel)
