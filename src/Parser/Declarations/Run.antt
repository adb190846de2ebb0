-- ===== src/Parser/Declarations/Run.antt =====
-- The knot of expressions, statements and declarations: the whole parser of src/core/parser/impl, and
-- au_parse of src/core/parser/impl/parser.c.
use aument.Prelude.{ℕ, zero, suc, true, false, Option, none, some, List, [], ◌∷◌, if◌then◌else◌}
use aument.Lexer.{Token}
use aument.Parser.Program.{none_func, Fn}
use aument.Parser.State.{
  unexpected_token, unknown_function, starved, M, ◌>>=◌, ◌>>◌, return, refuse, gets, next_token,
  keyword_cmp,
}
use aument.Parser.State.Steps.{option_case}
use aument.Parser.Statements.{with_semicolon, exec_const_statement}
use aument.Parser.Statements.Control.{block_loop, exec_block}
use aument.Parser.Statements.Run.{
  Kind, struct_stmt, func_stmt, import_stmt, public_stmt, statement_at, exec_program, word_struct,
  word_func, word_const,
}
use aument.Parser.Expressions.Run.{expr_at}
use aument.Parser.Declarations.{exec_import_statement, exec_struct_statement}
use aument.Parser.Declarations.Function.{exec_func_statement}

-- au_parser_exec_public_statement
unfoldable pub exec_public_statement : ℕ → M (Unit {0}) → M (Unit {0}) → M (Unit {0})
exec_public_statement fuel exec_expr block = do
  tok ← next_token
  if keyword_cmp tok.token word_func
      then exec_func_statement fuel block true
      else if keyword_cmp tok.token word_struct
      then exec_struct_statement fuel true
      else if keyword_cmp tok.token word_const
      then (with_semicolon (exec_const_statement exec_expr true) >>= λ retval. return tt)
      else refuse (unexpected_token tok.token)

-- a declaration, after its keyword; no other keyword comes here
unfoldable pub exec_declaration : ℕ → M (Unit {0}) → M (Unit {0}) → Kind → M (Unit {0})
exec_declaration fuel exec_expr block struct_stmt = exec_struct_statement fuel false
exec_declaration fuel exec_expr block func_stmt = exec_func_statement fuel block false
exec_declaration fuel exec_expr block import_stmt = exec_import_statement
exec_declaration fuel exec_expr block public_stmt = exec_public_statement fuel exec_expr block
exec_declaration fuel exec_expr block _ = return tt

-- the functions that were called and not defined
unfoldable pub undefined_function : List Fn → Option Token
undefined_function [] = none
undefined_function (fn ∷ fns) = elim fn.callee [
  | none_func tok ↦ some tok
  | _ ↦ undefined_function fns
]

module _ (strtod : List ℕ → ℕ) where
  -- the declarations, with less than `fuel` functions inside each other
  unfoldable pub top_at : ℕ → Kind → M (Unit {0})
  top_at zero kind = λ p. starved
  top_at (suc fuel) kind =
      let body =
        exec_block false
          (block_loop fuel (statement_at (expr_at strtod fuel) (top_at fuel) fuel)) in
      exec_declaration fuel (expr_at strtod fuel) body kind

  -- au_parser_exec
  unfoldable pub exec : ℕ → M (Unit {0})
  exec fuel = exec_program (expr_at strtod fuel) (top_at fuel) fuel

  -- au_parse, after au_parser_init; the program is in the parser after it
  unfoldable pub parse : ℕ → M (Unit {0})
  parse fuel = do
    exec fuel
    missing ← gets (λ p. undefined_function p.program.fns)
    option_case (return tt) (λ tok. refuse (unknown_function tok)) missing
