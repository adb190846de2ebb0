-- ===== src/Parser/Expressions/Preserve.antt =====
-- Every expression of src/core/parser/impl/expr.c ensures a relation that its steps ensure.
pub mod Calls
pub mod Index
pub mod Values
use aument.Prelude.{ℕ, zero, suc, List, []}
use aument.Parser.State.Ensures.{Relation, Ensures, Ensures-starved}
use aument.Parser.Expressions.Run.{exec_level, expr_at}
use aument.Parser.Expressions.Primitives.{Primitives}
use aument.Parser.Expressions.Preserve.Index.{
  exec_index_expr-Ensures, exec_unary_expr-Ensures, binary_loop-Ensures, exec_logical_expr-Ensures,
}
use aument.Parser.Expressions.Preserve.Values.{exec_value-Ensures}

module _ {o : Relation} (r : Primitives o) (strtod : List ℕ → ℕ) where
  pub expr_at-Ensures : (fuel : ℕ) → Ensures o (expr_at strtod fuel)
  unfolding expr_at exec_level
  expr_at-Ensures zero = Ensures-starved
  expr_at-Ensures (suc fuel) =
      let he = expr_at-Ensures fuel in
      exec_logical_expr-Ensures r _ _ he (
        binary_loop-Ensures r fuel _ [] 1 (
          exec_unary_expr-Ensures r _ _ he
            (exec_index_expr-Ensures r _ fuel _ he (exec_value-Ensures r strtod fuel _ he))))
