-- ===== src/Parser/Statements.antt =====
-- Statements: src/core/parser/impl/stmt.c and au_parser_exec of src/core/parser/impl/parser.c. What
-- au_parser_exec_expr does is the parameter `exec_expr`, and what the handlers of struct, func, import
-- and public do is the parameter `exec_top`, which is given their keyword. A block is given as a
-- parameter to the statements that hold one; `Run` ties the knot.
pub mod Control
pub mod Run
pub mod Scopes
pub mod Operand
use aument.Prelude.{
  ℕ, zero, suc, ◌+◌, ◌-◌, ◌/◌, ◌%◌, ◌^◌, Bool, true, false, ◌&&◌, ◌||◌, not, Option, none, some,
  List, [], ◌∷◌, ◌++◌, leb, ltb, ◌==◌, if◌then◌else◌, length, get_or, set,
}
use aument.BitArray.{set_at, reset_at}
use aument.Lexer.{Token, string, identifier}
use aument.Parser.Regs.{Regs}
use aument.Parser.Emit.{op_jnif}
use aument.Vm.{SourceMap}
use aument.Parser.Program.{none_value}
use aument.Parser.State.{
  Source, Scope, Parser, Failure, unexpected_token, bytecode_gen, expect_global_scope,
  duplicate_const, Result, ok, failed, aborted, starved, M, then_run, ◌>>=◌, ◌>>◌, gets, modify,
  return, refuse, expect, peek_token, next_token, is_type, keyword_cmp, is_op, is_eof, code_len,
  with_regs, with_code, emit_code, flush_cached, flush_free, pop, last, replace, lookup, declare,
  bump_local, pop_locals,
}

-- the opcodes
abbrev pub op_jrel : ℕ
op_jrel = 22

abbrev pub op_jrelb : ℕ
op_jrelb = 23

abbrev pub op_ret_local : ℕ
op_ret_local = 26

abbrev pub op_ret : ℕ
op_ret = 27

abbrev pub op_ret_null : ℕ
op_ret_null = 28

abbrev pub op_print : ℕ
op_print = 46

abbrev pub op_raise : ℕ
op_raise = 45

abbrev pub op_mov_reg_local : ℕ
op_mov_reg_local = 2

abbrev pub op_mov_local_reg : ℕ
op_mov_local_reg = 3

abbrev pub op_set_const : ℕ
op_set_const = 7

-- AU_MAX_LOCALS
abbrev pub locals_limit : ℕ
locals_limit = 65536

-- AU_SM_FUNC_ID_MAIN
abbrev pub func_id_main : ℕ
func_id_main = 2 ^ 64 - 1

-- what a statement's handler returns: 1, or -1 at the end of the text
pub data Retval : Type 0 where
  done : Retval
  at_end : Retval

unfoldable pub is_return_op : ℕ → Bool
is_return_op op = op == op_ret_local || op == op_ret || op == op_ret_null

-- `bc.data[bc.len - k]`, or 0 where that lies before the code
unfoldable pub byte_before_end : ℕ → List ℕ → ℕ
byte_before_end k bc = if leb k (length bc) then get_or bc (length bc - k) 0 else 0

-- EXPECT_BYTECODE on a 16-bit offset, and the write of it
unfoldable pub patch : ℕ → ℕ → M (Unit {0})
patch idx offset = expect (ltb offset (2 ^ 16)) bytecode_gen >> replace idx offset

unfoldable pub with_semicolon : M (Unit {0}) → M Retval
with_semicolon m = do
  m
  tok ← next_token
  expect (is_eof tok.token || is_op tok.token 59) (unexpected_token tok.token)
  return done

-- after `let` or `const`: the name and `=`
unfoldable pub exec_name : M Source
exec_name = do
  id_tok ← next_token
  expect (is_type identifier id_tok.token.type) (unexpected_token id_tok.token)
  eq_tok ← next_token
  expect (is_op eq_tok.token 61) (unexpected_token eq_tok.token)
  return id_tok

abbrev pub low_high : ℕ → List ℕ
low_high n = (n % 256) ∷ ((n / 256 % 256) ∷ [])

-- the register that caches a local, when one was recorded for it
unfoldable pub recache : ℕ → ℕ → Regs → Regs
recache value new_reg r =
    if ltb value (length r.local_to_reg)
    then record r {
      local_to_reg = set r.local_to_reg value new_reg;
      pinned = set_at (reset_at r.pinned (get_or r.local_to_reg value 0)) new_reg;
    }
    else r

abbrev pub innermost : List Scope → Scope
innermost [] = []
innermost (scope ∷ scopes) = scope

-- a local for the name, in the innermost scope
unfoldable pub exec_let_new : List ℕ → M (Unit {0})
exec_let_new name = do
  new_value ← bump_local
  expect (leb new_value locals_limit) bytecode_gen
  modify (λ p. record p { vars = declare name new_value p.vars })
  emit_code (low_high new_value)

unfoldable pub exec_let_old : ℕ → ℕ → M (Unit {0})
exec_let_old value new_reg = do
  modify (λ p. with_regs (recache value new_reg p.out.regs) p)
  emit_code (low_high value)

abbrev pub let_slot : List ℕ → ℕ → Option ℕ → M (Unit {0})
let_slot name new_reg none = exec_let_new name
let_slot name new_reg (some value) = exec_let_old value new_reg

abbrev pub add_const : List ℕ → ℕ → Parser → Parser
add_const name data_len p = record p {
  consts = (name, data_len) ∷ p.consts;
  program = record p.program { data_val = p.program.data_val ++ (none_value ∷ []) };
}

abbrev pub add_exported : List ℕ → ℕ → Parser → Parser
add_exported name value p = record p {
  exported_consts = elim (lookup name p.exported_consts) [
    | none ↦ (name, value) ∷ p.exported_consts
    | some old ↦ p.exported_consts
  ];
}

-- outside the main function the code aborts
abbrev pub in_main : M (Unit {0})
in_main p = if p.func_idx == func_id_main then ok (tt, p) else aborted

abbrev pub const_slot : List ℕ → ℕ → ℕ → Bool → Option ℕ → Token → M (Unit {0})
const_slot name data_len right_reg exported (some old) tok = refuse (duplicate_const tok)
const_slot name data_len right_reg exported none tok = do
  modify (add_const name data_len)
  emit_code (op_set_const ∷ (right_reg ∷ low_high data_len))
  if exported then modify (add_exported name data_len) else return tt

-- the scope that a block opens and closes
unfoldable pub open_scope : M (Unit {0})
open_scope p = ok (tt, record p { vars = [] ∷ p.vars })

abbrev pub rest_scopes : List Scope → List Scope
rest_scopes [] = []
rest_scopes (scope ∷ scopes) = scopes

unfoldable pub close_scope : M (Unit {0})
close_scope = do
  nitems ← gets (λ p. length (innermost p.vars))
  modify (λ p. record p { vars = rest_scopes p.vars })
  pop_locals nitems

abbrev pub enter_block : M (Unit {0})
enter_block p = ok (tt, record p { block_level = p.block_level + 1 })

abbrev pub leave_block : M (Unit {0})
leave_block p = ok (tt, record p { block_level = p.block_level - 1 })

-- whether the last instruction loads a local into the register
unfoldable pub loads_last : ℕ → List ℕ → Bool
loads_last reg bc =
    ltb 4 (length bc) && (byte_before_end 4 bc == op_mov_local_reg && byte_before_end 3 bc == reg)

-- such an instruction becomes RET_LOCAL
abbrev pub return_local : List ℕ → List ℕ
return_local bc = set bc (length bc - 4) op_ret_local

unfoldable pub emit_return : ℕ → M (Unit {0})
emit_return reg p =
    if loads_last reg p.out.bc
    then ok (tt, with_code (return_local p.out.bc) p)
    else emit_code (op_ret ∷ (reg ∷ (0 ∷ (0 ∷ [])))) p

abbrev pub set_may_fail : Parser → Parser
set_may_fail p = record p { may_fail = true }

module _ (exec_expr : M (Unit {0})) where
  unfoldable pub exec_let_statement : M (Unit {0})
  exec_let_statement = do
    id_tok ← exec_name
    exec_expr
    new_reg ← last
    emit_code (op_mov_reg_local ∷ (new_reg ∷ []))
    old_value ← gets (λ p. lookup id_tok.token.src (innermost p.vars))
    let_slot id_tok.token.src new_reg old_value

  unfoldable pub exec_const_statement : Bool → M (Unit {0})
  exec_const_statement exported = do
    id_tok ← exec_name
    exec_expr
    right_reg ← pop
    in_main
    data_len ← gets (λ p. length p.program.data_val)
    old ← gets (λ p. lookup id_tok.token.src p.consts)
    const_slot id_tok.token.src data_len right_reg exported old id_tok.token

  unfoldable pub print_one : M (Unit {0})
  print_one = do exec_expr; reg ← pop; emit_code (op_print ∷ (reg ∷ (0 ∷ (0 ∷ []))))

  unfoldable pub exec_return_statement : M (Unit {0})
  exec_return_statement = do exec_expr; reg ← pop; emit_return reg

  unfoldable pub exec_raise_statement : M (Unit {0})
  exec_raise_statement = do
    exec_expr
    reg ← pop
    emit_code (op_raise ∷ (reg ∷ (0 ∷ (0 ∷ []))))
    modify set_may_fail
