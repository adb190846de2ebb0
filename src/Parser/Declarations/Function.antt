-- ===== src/Parser/Declarations/Function.antt =====
-- Functions: au_parser_exec_func_statement of src/core/parser/impl/stmt.c. The body is parsed by a parser
-- of its own, which shares the text and the program data with the one around it.
use aument.Prelude.{
  ℕ, ◌+◌, ◌%◌, ◌^◌, Bool, false, ◌&&◌, Option, none, some, List, [], ◌∷◌, ltb, ◌==◌, if◌then◌else◌,
  length, get_elem?, set,
}
use aument.Lexer.{Token, identifier}
use aument.Parser.Regs.{init}
use aument.Parser.Emit.{replace_bc_u16}
use aument.Parser.Program.{Class, Body, bc_func, Fn, Program}
use aument.Parser.State.{
  Parser, unexpected_token, bytecode_gen, wrong_args, duplicate_arg, Result, ok, failed, aborted,
  starved, M, ◌>>=◌, ◌>>◌, refuse, return, gets, modify, expect, next_token, is_type, keyword_cmp,
  is_op, emit_code, lookup, declare, bump_local,
}
use aument.Parser.State.Steps.{write_program, option_case, undefined, present}
use aument.Parser.State.Lists.{fold_list}
use aument.Parser.Statements.{op_ret_null, locals_limit, innermost}
use aument.Parser.Declarations.Head.{Head, has_receiver, exec_head, Slot, exec_slot}

-- LOAD_SELF
abbrev pub op_load_self : ℕ
op_load_self = 0

abbrev pub word_underscore : List ℕ
word_underscore = 95 ∷ []

-- au_parser_init, with what au_parser_exec_func_statement sets after it
abbrev pub function_parser : Parser → List ℕ → ℕ → Option Class → Parser
function_parser p name func_idx interface = record {
  input = p.input;
  out = record { regs = init; bc = [] };
  vars = [] ∷ [];
  local_placement = 0;
  max_locals = 0;
  consts = [];
  exported_consts = p.exported_consts;
  program = p.program;
  self_name = some name;
  self_num_args = 0;
  self_fill_call = [];
  class_interface = interface;
  top_consts = some p.consts;
  func_idx = func_idx;
  block_level = 0;
  may_fail = false;
  source_map = p.source_map;
}

-- the parser around the function, with what both share
abbrev pub resumed : {A : Type 0} → Parser → Result (A × Parser) → Result (A × Parser)
resumed p (ok (a, q)) = ok (
  a,
  record p {
    input = q.input;
    exported_consts = q.exported_consts;
    program = q.program;
    source_map = q.source_map;
  },
)
resumed p (failed e) = failed e
resumed p aborted = aborted
resumed p starved = starved

unfoldable pub in_function : {A : Type 0} → List ℕ → ℕ → Option Class → M A → M A
in_function name func_idx interface m p = resumed p (m (function_parser p name func_idx interface))

-- a name for an argument's local
unfoldable pub declare_arg : List ℕ → ℕ → M (Unit {0})
declare_arg name local p = ok (tt, record p { vars = declare name local p.vars })

-- `local_placement++`, which leaves max_locals as it was
unfoldable pub place_arg : M (Unit {0})
place_arg p = ok (tt, record p { local_placement = p.local_placement + 1 })

unfoldable pub name_self : Token → M (Unit {0})
name_self self_tok =
    if keyword_cmp self_tok word_underscore then return tt else declare_arg self_tok.src 0

-- the local of the receiver, which has a name unless that is `_`; the number of arguments
unfoldable pub exec_self : Option Token → M ℕ
exec_self none = return 0
exec_self (some self_tok) = do name_self self_tok; _ ← bump_local; return 1

-- one argument, and the number of arguments then
unfoldable pub exec_parameter : ℕ → M ℕ
exec_parameter num_args = do
  tok ← next_token
  expect (is_type identifier tok.token.type) (unexpected_token tok.token)
  old ← gets (λ p. lookup tok.token.src (innermost p.vars))
  option_case (declare_arg tok.token.src num_args) (λ value. refuse (duplicate_arg tok.token)) old
  place_arg
  local_placement ← gets (λ p. p.local_placement)
  expect (ltb local_placement locals_limit) bytecode_gen
  return (num_args + 1)

-- from `(` on, after so many arguments
unfoldable pub read_parameters : ℕ → ℕ → M ℕ
read_parameters fuel num_self = do
  tok ← next_token
  expect (is_op tok.token 40) (unexpected_token tok.token)
  fold_list 41 exec_parameter fuel num_self

unfoldable pub exec_parameters : ℕ → Option Token → M ℕ
exec_parameters fuel self_tok = exec_self self_tok >>= read_parameters fuel

-- the number of arguments that a definition or a call before gave the name
unfoldable pub check_num_args : Token → Slot → ℕ → M (Unit {0})
check_num_args id_tok slot num_args =
    option_case (return tt)
      (λ expected.
        if num_args == expected
        then return tt
        else option_case (refuse (wrong_args num_args expected id_tok))
            (λ old_id_tok. refuse (wrong_args expected num_args old_id_tok)) slot.old_id_tok)
      slot.expected_num_args

-- the index of the function in each call of itself
unfoldable pub fill_calls : List ℕ → ℕ → List ℕ → Option (List ℕ)
fill_calls [] func_value bc = some bc
fill_calls (offset ∷ rest) func_value bc = elim (replace_bc_u16 offset (func_value % 2 ^ 16) bc) [
  | none ↦ none
  | some bc' ↦ fill_calls rest func_value bc'
]

abbrev pub body_of : ℕ → ℕ → Head → List ℕ → Parser → Body
body_of num_args source_map_start head bc p = record {
  num_args = num_args;
  num_registers = p.out.regs.num_registers;
  num_locals = p.max_locals;
  num_values = p.max_locals + p.out.regs.num_registers;
  class_idx = head.class_idx;
  class_interface = head.class_interface;
  bc = bc;
  source_map_start = source_map_start;
  func_idx = p.func_idx;
}

abbrev pub function_of : Bool → Head → Body → Bool → Fn
function_of exported head body may_fail = record {
  num_args = body.num_args;
  is_exported = exported;
  has_class = has_receiver head;
  may_fail = may_fail;
  callee = bc_func body;
}

abbrev pub place_fn : ℕ → Fn → Program → Program
place_fn func_value fn d = record d { fns = set d.fns func_value fn }

-- au_fn_array_at_mut aborts when the index is out of bounds.
unfoldable pub store_function : ℕ → Fn → M (Unit {0})
store_function func_value fn = do
  found ← gets (λ p. get_elem? p.program.fns func_value)
  _ ← present found
  write_program (place_fn func_value fn)

-- the end of the function: its last instruction, and what is stored of it
unfoldable pub finish_function : Bool → Head → Slot → ℕ → ℕ → M (Unit {0})
finish_function exported head slot num_args source_map_start = do
  emit_code (op_ret_null ∷ [])
  may_fail ← gets (λ p. p.may_fail)
  if slot.expected_no_fail && may_fail then undefined else return tt
  filled ← gets (λ p. fill_calls p.self_fill_call slot.func_value p.out.bc)
  bc ← present filled
  body ← gets (body_of num_args source_map_start head bc)
  store_function slot.func_value (function_of exported head body may_fail)

abbrev pub with_num_args : ℕ → Parser → Parser
with_num_args num_args p = record p { self_num_args = num_args }

-- from the arguments on, in the parser of the function
unfoldable pub exec_function : ℕ → M (Unit {0}) → Token → Bool → Head → Slot → M (Unit {0})
exec_function fuel block id_tok exported head slot = do
  num_args ← exec_parameters fuel head.self_tok
  check_num_args id_tok slot num_args
  modify (with_num_args num_args)
  if has_receiver head then emit_code (op_load_self ∷ (0 ∷ (0 ∷ (0 ∷ [])))) else return tt
  source_map_start ← gets (λ p. length p.source_map)
  block
  finish_function exported head slot num_args source_map_start

-- au_parser_exec_func_statement
unfoldable pub exec_func_statement : ℕ → M (Unit {0}) → Bool → M (Unit {0})
exec_func_statement fuel block exported = do
  head ← exec_head
  id_tok ← next_token
  expect (is_type identifier id_tok.token.type) (unexpected_token id_tok.token)
  slot ← exec_slot id_tok.token.src exported head
  in_function id_tok.token.src slot.func_value head.class_interface
      (exec_function fuel block id_tok.token exported head slot)
