-- ===== src/Parser/Statements/Run.antt =====
-- A whole program: the dispatch of au_parser_exec_statement in src/core/parser/impl/stmt.c, the knot of
-- statements and blocks, and au_parser_exec of src/core/parser/impl/parser.c.
use aument.Prelude.{ℕ, zero, suc, true, false, List, [], ◌∷◌, ◌++◌, ◌==◌, if◌then◌else◌, length}
use aument.Lexer.{Token}
use aument.Parser.State.{
  Parser, expect_global_scope, ok, starved, M, ◌>>=◌, ◌>>◌, return, expect, peek_token, next_token,
  keyword_cmp, is_eof, code_len, emit_code, flush_free,
}
use aument.Parser.Statements.{
  Retval, done, at_end, op_ret_null, with_semicolon, exec_let_statement, exec_const_statement,
  print_one, exec_return_statement, exec_raise_statement,
}
use aument.Parser.Statements.Control.{
  exec_while, exec_if, exec_block, after_statement, block_loop, comma_list, word_if,
}

abbrev pub word_struct : List ℕ
word_struct = 115 ∷ (116 ∷ (114 ∷ (117 ∷ (99 ∷ (116 ∷ [])))))

abbrev pub word_func : List ℕ
word_func = 102 ∷ (117 ∷ (110 ∷ (99 ∷ [])))

abbrev pub word_import : List ℕ
word_import = 105 ∷ (109 ∷ (112 ∷ (111 ∷ (114 ∷ (116 ∷ [])))))

abbrev pub word_public : List ℕ
word_public = 112 ∷ (117 ∷ (98 ∷ (108 ∷ (105 ∷ (99 ∷ [])))))

abbrev pub word_let : List ℕ
word_let = 108 ∷ (101 ∷ (116 ∷ []))

abbrev pub word_const : List ℕ
word_const = 99 ∷ (111 ∷ (110 ∷ (115 ∷ (116 ∷ []))))

abbrev pub word_while : List ℕ
word_while = 119 ∷ (104 ∷ (105 ∷ (108 ∷ (101 ∷ []))))

abbrev pub word_print : List ℕ
word_print = 112 ∷ (114 ∷ (105 ∷ (110 ∷ (116 ∷ []))))

abbrev pub word_return : List ℕ
word_return = 114 ∷ (101 ∷ (116 ∷ (117 ∷ (114 ∷ (110 ∷ [])))))

abbrev pub word_raise : List ℕ
word_raise = 114 ∷ (97 ∷ (105 ∷ (115 ∷ (101 ∷ []))))

-- what a statement begins with; a statement that begins with no keyword is an expression
pub data Kind : Type 0 where
  struct_stmt func_stmt import_stmt public_stmt let_stmt const_stmt if_stmt while_stmt print_stmt
        return_stmt raise_stmt expr_stmt :
      Kind

abbrev pub keywords : List (List ℕ × Kind)
keywords =
    (word_struct, struct_stmt)
    ∷ (word_func, func_stmt)
    ∷ (word_import, import_stmt)
    ∷ (word_public, public_stmt)
    ∷ (word_let, let_stmt)
    ∷ (word_const, const_stmt)
    ∷ (word_if, if_stmt)
    ∷ (word_while, while_stmt)
    ∷ (word_print, print_stmt)
    ∷ (word_return, return_stmt)
    ∷ (word_raise, raise_stmt)
    ∷ []

unfoldable pub classify : List (List ℕ × Kind) → Token → Kind
classify [] tok = expr_stmt
classify ((word, kind) ∷ rest) tok = if keyword_cmp tok word then kind else classify rest tok

-- the entry of the source map for a statement that made code
abbrev pub mapped : ℕ → ℕ → Parser → Parser
mapped bc_from source_start p = record p {
  source_map =
      p.source_map
      ++ (record {
        bc_from = bc_from;
        bc_to = length p.out.bc;
        source_start = source_start;
        func_idx = p.func_idx;
      }
          ∷ []);
}

unfoldable pub add_source_map : ℕ → ℕ → M (Unit {0})
add_source_map bc_from source_start p =
    if bc_from == length p.out.bc then ok (tt, p) else ok (tt, mapped bc_from source_start p)

abbrev pub in_global_scope : Token → M (Unit {0})
in_global_scope tok p = expect (p.block_level == 0) (expect_global_scope tok) p

abbrev pub completes : M (Unit {0}) → M Retval
completes m = m >> return done

module _ (exec_expr : M (Unit {0})) (exec_top : Kind → M (Unit {0})) where
  -- after the keyword, which is passed over; an expression has none
  unfoldable pub exec_kind : ℕ → M (Unit {0}) → M (Unit {0}) → Token → Kind → M Retval
  exec_kind fuel block else_if tok struct_stmt =
      in_global_scope tok >> (next_token >>= λ _. completes (exec_top struct_stmt))
  exec_kind fuel block else_if tok func_stmt =
      in_global_scope tok >> (next_token >>= λ _. completes (exec_top func_stmt))
  exec_kind fuel block else_if tok import_stmt =
      in_global_scope tok >> (next_token >>= λ _. with_semicolon (exec_top import_stmt))
  exec_kind fuel block else_if tok public_stmt =
      in_global_scope tok >> (next_token >>= λ _. completes (exec_top public_stmt))
  exec_kind fuel block else_if tok let_stmt =
      next_token >>= λ _. with_semicolon (exec_let_statement exec_expr)
  exec_kind fuel block else_if tok const_stmt =
      next_token >>= λ _. with_semicolon (exec_const_statement exec_expr false)
  exec_kind fuel block else_if tok if_stmt = next_token >>= λ _. completes else_if
  exec_kind fuel block else_if tok while_stmt =
      next_token >>= λ _. completes (exec_while exec_expr block)
  exec_kind fuel block else_if tok print_stmt =
      next_token >>= λ _. completes (comma_list fuel 59 (print_one exec_expr))
  exec_kind fuel block else_if tok return_stmt =
      next_token >>= λ _. with_semicolon (exec_return_statement exec_expr)
  exec_kind fuel block else_if tok raise_stmt =
      next_token >>= λ _. with_semicolon (exec_raise_statement exec_expr)
  exec_kind fuel block else_if tok expr_stmt = with_semicolon exec_expr

  -- au_parser_exec_statement
  unfoldable pub exec_statement : ℕ → M (Unit {0}) → M (Unit {0}) → M Retval
  exec_statement fuel block else_if = do
    tok ← peek_token
    bc_from ← code_len
    if is_eof tok.token then return at_end else (do
      retval ← exec_kind fuel block else_if tok.token (classify keywords tok.token)
      add_source_map bc_from tok.start
      return retval)

  -- `block n` and `else_if n` are the recursive calls that at most n nested ones may follow.
  unfoldable mutual
    pub block_at : ℕ → M (Unit {0})
    block_at zero = λ p. starved
    block_at (suc fuel) =
        exec_block true (block_loop fuel (exec_statement fuel (block_at fuel) (if_at fuel)))

    pub if_at : ℕ → M (Unit {0})
    if_at zero = λ p. starved
    if_at (suc fuel) = exec_if exec_expr (block_at fuel) (if_at fuel)

  unfoldable pub statement_at : ℕ → M Retval
  statement_at fuel = exec_statement fuel (block_at fuel) (if_at fuel)

  -- the loop of au_parser_exec
  unfoldable pub program_loop : ℕ → ℕ → M (Unit {0})
  program_loop fuel zero = λ p. starved
  program_loop fuel (suc rounds) =
      let rest = flush_free >> program_loop fuel rounds in
      statement_at fuel >>= after_statement rest

  unfoldable pub exec_program : ℕ → M (Unit {0})
  exec_program fuel = program_loop fuel fuel >> emit_code (op_ret_null ∷ (0 ∷ (0 ∷ (0 ∷ []))))
