-- ===== src/Parser/Expressions/Preserve/Calls.antt =====
-- Calls and assignments of src/core/parser/impl/expr.c ensure a relation that their steps ensure.
use aument.Prelude.{ℕ, zero, suc, Bool, Option, none, some, List, [], ◌∷◌}
use aument.Lexer.{Token}
use aument.Parser.Resolve.{Resolved}
use aument.Parser.Regs.{OwnedReg}
use aument.Parser.State.{M}
use aument.Parser.State.Ensures.{Relation, Ensures}
use aument.Parser.Expressions.Primitives.{
  Whole, whole_none, whole_more, Primitives, primitive_rules,
}
use aument.Parser.Expressions.Calls.{
  CallingType, normal, catch_error, ignore_error, exec_arg, arg_loop, exec_call_args, args_code,
  check_calling, check_self, check_fn, check_call, calling_op, fill_index, emit_call, self_params,
  exec_call,
}
use aument.Parser.Expressions.Assign.{
  field_of, exec_field_operator, exec_assign_field, exec_assign_plain, fresh_result,
  result_register, exec_assign_compound, exec_assign_expr,
}

pub args_code-Whole : (regs : List ℕ) → Whole (args_code regs)
unfolding args_code
args_code-Whole [] = whole_none
args_code-Whole (a ∷ []) = whole_more whole_none
args_code-Whole (a ∷ (b ∷ [])) = whole_more whole_none
args_code-Whole (a ∷ (b ∷ (c ∷ rest))) = whole_more (args_code-Whole rest)

module _ {o : Relation} (r : Primitives o) where
  -- Calls
  arg_loop-Ensures :
      (fuel : ℕ) (exec_expr : M (Unit {0}))
      → Ensures o exec_expr
      → Ensures o (arg_loop fuel exec_expr)
  unfolding arg_loop exec_arg
  arg_loop-Ensures zero exec_expr he = search primitive_rules
  arg_loop-Ensures (suc fuel) exec_expr he =
      let rest = arg_loop-Ensures fuel exec_expr he in search primitive_rules depth 30

  pub exec_call_args-Ensures :
      (fuel : ℕ) (exec_expr : M (Unit {0}))
      → Ensures o exec_expr
      → Ensures o (exec_call_args fuel exec_expr)
  unfolding exec_call_args exec_arg
  exec_call_args-Ensures fuel exec_expr he =
      let rest = arg_loop-Ensures fuel exec_expr he in search primitive_rules depth 30

  check_call-Ensures :
      (resolved : Resolved) (n : ℕ) (calling : CallingType) (id_tok : Token)
      → Ensures o (check_call resolved n calling id_tok)
  unfolding check_call check_self check_fn check_calling
  check_call-Ensures resolved n calling id_tok = search primitive_rules depth 40

  pub calling_op-Ensures :
      (op op_catch : ℕ) (calling : CallingType) → Ensures o (calling_op op op_catch calling)
  unfolding calling_op
  calling_op-Ensures op op_catch normal = search primitive_rules
  calling_op-Ensures op op_catch catch_error = search primitive_rules
  calling_op-Ensures op op_catch ignore_error = search primitive_rules

  emit_call-Ensures :
      (resolved : Resolved) (params : List OwnedReg) (calling : CallingType)
      → Ensures o (emit_call resolved params calling)
  unfolding emit_call fill_index
  emit_call-Ensures resolved params calling =
      search (primitive_rules, args_code-Whole, calling_op-Ensures) depth 40

  pub exec_call-Ensures :
      (fuel : ℕ) (exec_expr : M (Unit {0})) (module_tok : Option Token) (id_tok : Token)
      (self : Bool)
      → Ensures o exec_expr
      → Ensures o (exec_call fuel exec_expr module_tok id_tok self)
  unfolding exec_call self_params
  exec_call-Ensures fuel exec_expr module_tok id_tok self he =
      search (primitive_rules, exec_call_args-Ensures, check_call-Ensures, emit_call-Ensures) depth
        40

  -- Assignments
  pub field_of-Ensures : (id_tok : Token) → Ensures o (field_of id_tok)
  unfolding field_of
  field_of-Ensures id_tok = search primitive_rules depth 30

  fresh_result-Ensures : (local : ℕ) → Ensures o (fresh_result local)
  unfolding fresh_result
  fresh_result-Ensures local = search primitive_rules depth 30

  result_register-Ensures :
      (local : ℕ) (cached : Option ℕ) → Ensures o (result_register local cached)
  unfolding result_register
  result_register-Ensures local none = search (primitive_rules, fresh_result-Ensures)
  result_register-Ensures local (some reg) = search (primitive_rules, fresh_result-Ensures)

  pub exec_assign_expr-Ensures :
      (exec_expr : M (Unit {0})) (id_tok : Token)
      → Ensures o exec_expr
      → Ensures o (exec_assign_expr exec_expr id_tok)
  unfolding exec_assign_expr exec_assign_field exec_field_operator exec_assign_plain
      exec_assign_compound
  exec_assign_expr-Ensures exec_expr id_tok he =
      search (primitive_rules, field_of-Ensures, result_register-Ensures) depth 60
