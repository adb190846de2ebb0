-- ===== src/Parser/Expressions/Calls.antt =====
-- Calls: au_parser_exec_call_args and au_parser_exec_call of src/core/parser/impl/expr.c.
use aument.Prelude.{
  ℕ, zero, suc, ◌+◌, Bool, true, false, ◌&&◌, not, Option, none, some, List, [], ◌∷◌, ◌++◌, map,
  ltb, ◌==◌, if◌then◌else◌, length, get_elem?, set,
}
use aument.Lexer.{Token}
use aument.Parser.Regs.{OwnedReg}
use aument.Parser.Program.{Fn, Program}
use aument.Parser.Resolve.{Resolved, resolve_fn}
use aument.Parser.State.{
  unexpected_token, bytecode_gen, wrong_args, ok, starved, M, ◌>>=◌, ◌>>◌, return, refuse, gets,
  expect, peek_token, next_token, is_op, is_eof, code_len, emit_code, replace,
}
use aument.Parser.State.Steps.{
  allocate, take_ownership, give_back_all, write_program, set_self_may_fail, option_case, undefined,
  present, is_op2,
}
use aument.Parser.Expressions.{op_call, op_call_catch, op_push_arg, max_func_id}

-- enum calling_type
pub data CallingType : Type 0 where
  normal : CallingType
  catch_error : CallingType
  ignore_error : CallingType

abbrev pub is_normal : CallingType → Bool
is_normal normal = true
is_normal _ = false

-- `)`, `)?` and `)!`
unfoldable pub closing : Token → Option CallingType
closing t =
    if is_op t 41
    then some normal
    else if is_op2 t 41 63
    then some catch_error
    else if is_op2 t 41 33
    then some ignore_error
    else none

abbrev pub Args : Type 0
Args = List OwnedReg × CallingType

-- one argument before the others
unfoldable pub exec_arg : M (Unit {0}) → M Args → M Args
exec_arg exec_expr others = do
  exec_expr
  state ← take_ownership
  rest ← others
  return (state ∷ rest.0, rest.1)

-- the loop over the arguments after the first
unfoldable pub arg_loop : ℕ → M (Unit {0}) → M Args
arg_loop zero exec_expr = λ p. starved
arg_loop (suc fuel) exec_expr =
    let more = exec_arg exec_expr (arg_loop fuel exec_expr) in
    do
      tok ← next_token
      if is_eof tok.token
          then return ([], normal)
          else option_case
              (if is_op tok.token 44 then more else refuse (unexpected_token tok.token))
              (λ calling. return ([], calling)) (closing tok.token)

-- au_parser_exec_call_args
unfoldable pub exec_call_args : ℕ → M (Unit {0}) → M Args
exec_call_args fuel exec_expr = do
  tok ← peek_token
  option_case (exec_arg exec_expr (arg_loop fuel exec_expr))
      (λ calling. next_token >>= λ _. return ([], calling)) (closing tok.token)

-- the instructions PUSH_ARG, of three registers each, 0 for those that there are not
unfoldable pub args_code : List ℕ → List ℕ
args_code [] = []
args_code (a ∷ []) = op_push_arg ∷ (a ∷ (0 ∷ (0 ∷ [])))
args_code (a ∷ (b ∷ [])) = op_push_arg ∷ (a ∷ (b ∷ (0 ∷ [])))
args_code (a ∷ (b ∷ (c ∷ rest))) = op_push_arg ∷ (a ∷ (b ∷ (c ∷ args_code rest)))

abbrev pub registers : List OwnedReg → List ℕ
registers params = map (λ state. state.reg) params

-- a function that may fail must not be called with `)`, where the code aborts
unfoldable pub check_calling : Bool → CallingType → M (Unit {0})
check_calling may_fail calling = if may_fail && is_normal calling then undefined else return tt

unfoldable pub check_self : ℕ → CallingType → Token → M (Unit {0})
check_self num_params calling id_tok = do
  expected ← gets (λ p. p.self_num_args)
  expect (expected == num_params) (wrong_args num_params expected id_tok)
  may_fail ← gets (λ p. p.may_fail)
  check_calling may_fail calling

abbrev pub marked : List Fn → ℕ → Option Fn → List Fn
marked fns idx none = fns
marked fns idx (some fn) = set fns idx (record fn { may_fail = true })

abbrev pub mark_may_fail : ℕ → Program → Program
mark_may_fail idx d = record d { fns = marked d.fns idx (get_elem? d.fns idx) }

-- A call that creates its function says whether it may fail.
unfoldable pub check_fn : Resolved → ℕ → CallingType → Token → M (Unit {0})
check_fn resolved num_params calling id_tok = do
  found ← gets (λ p. get_elem? p.program.fns resolved.func_idx)
  fn ← present found
  expect (fn.num_args == num_params) (wrong_args num_params fn.num_args id_tok)
  if resolved.create_function && not (is_normal calling) && not fn.may_fail
      then write_program (mark_may_fail resolved.func_idx)
      else return tt
  check_calling fn.may_fail calling

unfoldable pub check_call : Resolved → ℕ → CallingType → Token → M (Unit {0})
check_call resolved num_params calling id_tok =
    if resolved.execute_self
    then check_self num_params calling id_tok
    else check_fn resolved num_params calling id_tok

-- the opcode, of the two given; a call that may raise marks the function around it
unfoldable pub calling_op : ℕ → ℕ → CallingType → M ℕ
calling_op op op_catch normal = return op
calling_op op op_catch catch_error = set_self_may_fail >> return op_catch
calling_op op op_catch ignore_error = set_self_may_fail >> return op

-- where the index of the function goes, at once or when the function around it is known
unfoldable pub fill_later : ℕ → M (Unit {0})
fill_later offset p = ok (tt, record p { self_fill_call = p.self_fill_call ++ (offset ∷ []) })

unfoldable pub fill_index : Resolved → ℕ → M (Unit {0})
fill_index resolved offset =
    if resolved.execute_self then fill_later offset else replace offset resolved.func_idx

unfoldable pub emit_call : Resolved → List OwnedReg → CallingType → M (Unit {0})
emit_call resolved params calling = do
  op ← calling_op op_call op_call_catch calling
  result_reg ← allocate
  start ← code_len
  emit_code (op ∷ (result_reg ∷ (0 ∷ (0 ∷ []))))
  emit_code (args_code (registers params))
  fill_index resolved (start + 2)
  give_back_all params

-- the receiver, which stands on the register stack
unfoldable pub self_params : Bool → M (List OwnedReg)
self_params has_self_argument =
    if has_self_argument then (take_ownership >>= λ state. return (state ∷ [])) else return []

-- au_parser_exec_call
unfoldable pub exec_call : ℕ → M (Unit {0}) → Option Token → Token → Bool → M (Unit {0})
exec_call fuel exec_expr module_tok id_tok has_self_argument = do
  self ← self_params has_self_argument
  args ← exec_call_args fuel exec_expr
  let params = self ++ args.0
  resolved ← resolve_fn module_tok id_tok (length params)
  expect (ltb resolved.func_idx max_func_id) bytecode_gen
  check_call resolved (length params) args.1 id_tok
  emit_call resolved params args.1
