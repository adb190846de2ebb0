-- ===== src/Parser/Statements/Control.antt =====
-- The statements of src/core/parser/impl/stmt.c that hold others: blocks, if,
-- while, and lists with commas.
pub mod Layout
pub mod While
pub mod Leave
pub mod If
pub mod Execute
pub mod Loops
pub mod Branches
pub mod Falling
use aument.Prelude.{
  ℕ, zero, suc, ◌+◌, ◌-◌, ◌/◌, Bool, true, false, ◌&&◌, ◌||◌, not, Option, none, some, List, [],
  ◌∷◌, ◌++◌, ltb, ◌==◌, if◌then◌else◌, length, map,
}
use aument.Lexer.{Token, identifier}
use aument.Parser.Emit.{op_jnif}
use aument.Vm.{SourceMap}
use aument.Parser.State.{
  Source, Parser, Failure, unexpected_token, bytecode_gen, expect_global_scope, Result, ok, failed,
  aborted, starved, M, then_run, ◌>>=◌, ◌>>◌, return, refuse, expect, peek_token, next_token,
  is_type, keyword_cmp, is_op, is_eof, code_len, emit_code, flush_cached, flush_free, pop,
}
use aument.Parser.Statements.{
  Retval, done, at_end, op_jrel, op_jrelb, op_ret_null, is_return_op, byte_before_end, patch,
  with_semicolon, open_scope, close_scope, enter_block, leave_block, exec_let_statement,
  exec_const_statement, print_one, exec_return_statement, exec_raise_statement,
}

-- au_parser_exec_while_statement
unfoldable pub exec_while : M (Unit {0}) → M (Unit {0}) → M (Unit {0})
exec_while exec_expr block = do
  flush_cached
  cond_part ← code_len
  exec_expr
  flush_cached
  c_len ← code_len
  reg ← pop
  emit_code (op_jnif ∷ (reg ∷ (0 ∷ (0 ∷ []))))
  block
  flush_cached
  body_len ← code_len
  emit_code (op_jrelb ∷ (0 ∷ (0 ∷ (0 ∷ []))))
  end_len ← code_len
  patch (c_len + 2) ((end_len - c_len) / 4)
  patch (body_len + 2) ((body_len - cond_part) / 4)

-- the jump over what follows a body, unless its last instruction returns; where its offset stands
unfoldable pub emit_jump_out : M (Option ℕ)
emit_jump_out = do
  body_len ← code_len
  emit_code (op_jrel ∷ (0 ∷ (0 ∷ (0 ∷ []))))
  return (some body_len)

unfoldable pub emit_leave : M (Option ℕ)
unfolding emit_jump_out
emit_leave p = if is_return_op (byte_before_end 4 p.out.bc) then ok (none, p) else emit_jump_out p

-- the offset of such a jump, which goes to the end of the code
unfoldable pub patch_leave : Option ℕ → M (Unit {0})
patch_leave none = return tt
patch_leave (some body_len) = do end_len ← code_len; patch (body_len + 2) ((end_len - body_len) / 4)

-- the condition of an if, and its jump over the block; its place in the code
unfoldable pub exec_condition : M (Unit {0}) → M ℕ
exec_condition exec_expr = do
  flush_cached
  exec_expr
  c_len ← code_len
  flush_cached
  reg ← pop
  emit_code (op_jnif ∷ (reg ∷ (0 ∷ (0 ∷ []))))
  return c_len

unfoldable pub word_else : List ℕ
word_else = 101 ∷ (108 ∷ (115 ∷ (101 ∷ [])))

unfoldable pub word_if : List ℕ
word_if = 105 ∷ (102 ∷ [])

-- after `else`: another if, or a block
unfoldable pub exec_else : M (Unit {0}) → M (Unit {0}) → M (Unit {0})
exec_else block else_if = do
  tok ← peek_token
  if keyword_cmp tok.token word_if then (next_token >>= λ _. else_if) else block

-- the rest of an if after its block
unfoldable pub exec_tail : M (Unit {0}) → M (Unit {0}) → ℕ → M (Unit {0})
exec_tail block else_if c_len = do
  tok ← peek_token
  if keyword_cmp tok.token word_else
      then (do
        _ ← next_token
        else_start ← code_len
        exec_else block else_if
        flush_cached
        flush_cached
        leave ← emit_leave
        patch_leave leave
        patch (c_len + 2) ((else_start - c_len) / 4))
      else (do end_len ← code_len; patch (c_len + 2) ((end_len - c_len) / 4))

-- au_parser_exec_if_statement
unfoldable pub exec_if : M (Unit {0}) → M (Unit {0}) → M (Unit {0}) → M (Unit {0})
exec_if exec_expr block else_if = do
  c_len ← exec_condition exec_expr
  block
  flush_cached
  leave ← emit_leave
  exec_tail block else_if c_len
  patch_leave leave

-- what a loop over statements does after one
abbrev pub after_statement : M (Unit {0}) → Retval → M (Unit {0})
after_statement rest done = rest
after_statement rest at_end = return tt

-- the loop over the statements of a block, up to its `}` or the end of the text
unfoldable pub block_loop : ℕ → M Retval → M (Unit {0})
block_loop zero statement = λ p. starved
block_loop (suc fuel) statement =
    let rest = flush_free >> block_loop fuel statement in
    do
      tok ← peek_token
      if is_op tok.token 125
          then (next_token >>= λ _. return tt)
          else (statement >>= after_statement rest)

-- au_parser_exec_block
unfoldable pub exec_block : Bool → M (Unit {0}) → M (Unit {0})
exec_block allocate_local_vars loop = do
  enter_block
  if allocate_local_vars then open_scope else return tt
  tok ← next_token
  expect (is_op tok.token 123) (unexpected_token tok.token)
  loop
  if allocate_local_vars then close_scope else return tt
  leave_block

-- PARSE_COMMA_LIST with the end `ending`
abbrev pub ends_list : ℕ → Token → Bool
ends_list ending tok = is_eof tok || is_op tok ending

unfoldable pub comma_loop : ℕ → ℕ → M (Unit {0}) → M (Unit {0})
comma_loop zero ending item = λ p. starved
comma_loop (suc fuel) ending item =
    let rest = item >> comma_loop fuel ending item in
    do
      tok ← next_token
      if ends_list ending tok.token
          then return tt
          else if is_op tok.token 44
          then (do
            tok' ← peek_token
            if ends_list ending tok'.token then (next_token >>= λ _. return tt) else rest)
          else refuse (unexpected_token tok.token)

unfoldable pub comma_list : ℕ → ℕ → M (Unit {0}) → M (Unit {0})
comma_list fuel ending item = do
  tok ← peek_token
  if ends_list ending tok.token
      then (next_token >>= λ _. return tt)
      else (item >> comma_loop fuel ending item)
