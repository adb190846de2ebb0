-- ===== src/Parser/Declarations/Scoped.antt =====
-- Declarations of src/core/parser/impl/stmt.c leave the scopes of the parser around them alone, so what is
-- known of statements holds of whole programs.
use aument.Prelude.{ℕ, zero, suc, ◌<◌, ◌≡◌, refl, Bool, false, Option, none, some, List}
use mathlib.Core.Path.{subst}
use aument.Lexer.{Token}
use aument.Parser.Program.{
  Class, Callee, none_func, lib_func, bc_func, imported_func, dispatch_func, Fn,
}
use aument.Parser.State.{Parser, Result, ok, failed, aborted, starved, M, resolve}
use aument.Parser.State.Ensures.{Ensures}
use aument.Parser.Statements.{Retval}
use aument.Parser.Statements.Run.{
  Kind, struct_stmt, func_stmt, import_stmt, public_stmt, let_stmt, const_stmt, if_stmt, while_stmt,
  print_stmt, return_stmt, raise_stmt, expr_stmt, statement_at,
}
use aument.Parser.Statements.Scopes.{IsScoped, Scoped, scoped, aside}
use aument.Parser.Statements.Scopes.Handlers.{handler_rules, exec_const-Scoped}
use aument.Parser.Statements.Scopes.Distinct.{statement_at-IsDistinct}
use aument.Parser.Expressions.Index.{exec_element_name}
use aument.Parser.Expressions.Preserve.{expr_at-Ensures}
use aument.Parser.Expressions.Preserve.Index.{exec_element_name-Ensures}
use aument.Parser.Expressions.Primitives.{fold_list-Ensures}
use aument.Parser.Expressions.Run.{expr_at}
use aument.Parser.Expressions.Scoped.{program_rules, resolve_module-Scoped, scoped_primitives}
use aument.Parser.Declarations.{
  import_as, exec_import_statement, exec_field, exec_fields, exec_struct_statement,
}
use aument.Parser.Declarations.Head.{
  Head, add_module_class, resolve_class, exec_receiver, exec_head, method_slot, add_method,
  redefine, old_slot, new_slot, exec_slot,
}
use aument.Parser.Declarations.Function.{resumed, in_function, exec_func_statement}
use aument.Parser.Declarations.Run.{exec_public_statement, exec_declaration, top_at}

resumed-Scoped :
    {A : Type 0} (p q : Parser) (a : A) (r : Result (A × Parser))
    → resumed p r ≡ ok (a, q)
    → Scoped p q
resumed-Scoped p q a (ok (b, s)) e = subst (Scoped p) (cc) (
    aside p
      (record p {
        input = s.input;
        exported_consts = s.exported_consts;
        program = s.program;
        source_map = s.source_map;
      })
      refl refl refl refl)
resumed-Scoped p q a (failed f) e = absurd (cc)
resumed-Scoped p q a aborted e = absurd (cc)
resumed-Scoped p q a starved e = absurd (cc)

in_function-Scoped :
    {A : Type 0} (name : List ℕ) (func_idx : ℕ) (interface : Option Class) (m : M A)
    → Ensures scoped (in_function name func_idx interface m)
unfolding in_function
in_function-Scoped name func_idx interface m = record { at = λ p q a e. resumed-Scoped p q a _ e }

element_name-Scoped : (id_tok : Token) → Ensures scoped (exec_element_name id_tok)
element_name-Scoped = exec_element_name-Ensures scoped_primitives

resolve_class-Scoped :
    (module_tok : Option Token) (name_tok : Token)
    → Ensures scoped (resolve_class module_tok name_tok)
unfolding resolve_class add_module_class
resolve_class-Scoped none name_tok = search program_rules depth 30
resolve_class-Scoped (some module_tok) name_tok =
    search (program_rules, resolve_module-Scoped) depth 30

exec_head-Scoped : Ensures scoped exec_head
unfolding exec_head exec_receiver
exec_head-Scoped = search (program_rules, element_name-Scoped, resolve_class-Scoped) depth 50

method_slot-Scoped :
    (name : List ℕ) (head : Head) (value : ℕ) (old : Fn) (len : ℕ) (callee : Callee)
    → Ensures scoped (method_slot name head value old len callee)
unfolding method_slot
method_slot-Scoped name head value old len (none_func tok) = search program_rules
method_slot-Scoped name head value old len lib_func = search program_rules
method_slot-Scoped name head value old len (bc_func body) = search program_rules
method_slot-Scoped name head value old len (imported_func idx id) = search program_rules
method_slot-Scoped name head value old len (dispatch_func instances fallback) = search program_rules

redefine-Scoped :
    (name : List ℕ) (exported : Bool) (head : Head) (value : ℕ) (old : Fn)
    → Ensures scoped (redefine name exported head value old)
unfolding redefine add_method
redefine-Scoped name exported head value old = search (program_rules, method_slot-Scoped) depth 30

old_slot-Scoped :
    (name : List ℕ) (exported : Bool) (head : Head) (value : ℕ) (old : Fn) (callee : Callee)
    → Ensures scoped (old_slot name exported head value old callee)
unfolding old_slot
old_slot-Scoped name exported head value old (none_func tok) = search program_rules
old_slot-Scoped name exported head value old lib_func = redefine-Scoped name exported head value old
old_slot-Scoped name exported head value old (bc_func body) =
    redefine-Scoped name exported head value old
old_slot-Scoped name exported head value old (imported_func idx id) =
    redefine-Scoped name exported head value old
old_slot-Scoped name exported head value old (dispatch_func instances fallback) =
    redefine-Scoped name exported head value old

exec_slot-Scoped :
    (name : List ℕ) (exported : Bool) (head : Head) → Ensures scoped (exec_slot name exported head)
unfolding exec_slot new_slot
exec_slot-Scoped name exported head = search (program_rules, old_slot-Scoped) depth 40

exec_func-Scoped :
    (fuel : ℕ) (block : M (Unit {0})) (exported : Bool)
    → Ensures scoped (exec_func_statement fuel block exported)
unfolding exec_func_statement
exec_func-Scoped fuel block exported =
    search (program_rules, exec_head-Scoped, exec_slot-Scoped, in_function-Scoped) depth 40

exec_struct-Scoped :
    (fuel : ℕ) (exported : Bool) → Ensures scoped (exec_struct_statement fuel exported)
unfolding exec_struct_statement exec_fields exec_field
exec_struct-Scoped fuel exported = search (program_rules, fold_list-Ensures) depth 50

exec_import-Scoped : Ensures scoped exec_import_statement
unfolding exec_import_statement import_as
exec_import-Scoped = search program_rules depth 50

exec_public-Scoped :
    (fuel : ℕ) (exec_expr block : M (Unit {0}))
    → Ensures scoped exec_expr
    → Ensures scoped (exec_public_statement fuel exec_expr block)
unfolding exec_public_statement
exec_public-Scoped fuel exec_expr block he =
    search (program_rules, handler_rules, exec_func-Scoped, exec_struct-Scoped, exec_const-Scoped)
      depth 40

exec_declaration-Scoped :
    (fuel : ℕ) (exec_expr block : M (Unit {0})) (kind : Kind)
    → Ensures scoped exec_expr
    → Ensures scoped (exec_declaration fuel exec_expr block kind)
unfolding exec_declaration
exec_declaration-Scoped fuel exec_expr block struct_stmt he = exec_struct-Scoped fuel false
exec_declaration-Scoped fuel exec_expr block func_stmt he = exec_func-Scoped fuel block false
exec_declaration-Scoped fuel exec_expr block import_stmt he = exec_import-Scoped
exec_declaration-Scoped fuel exec_expr block public_stmt he =
    exec_public-Scoped fuel exec_expr block he
exec_declaration-Scoped fuel exec_expr block let_stmt he = search program_rules
exec_declaration-Scoped fuel exec_expr block const_stmt he = search program_rules
exec_declaration-Scoped fuel exec_expr block if_stmt he = search program_rules
exec_declaration-Scoped fuel exec_expr block while_stmt he = search program_rules
exec_declaration-Scoped fuel exec_expr block print_stmt he = search program_rules
exec_declaration-Scoped fuel exec_expr block return_stmt he = search program_rules
exec_declaration-Scoped fuel exec_expr block raise_stmt he = search program_rules
exec_declaration-Scoped fuel exec_expr block expr_stmt he = search program_rules

module _ (strtod : List ℕ → ℕ) where
  pub expr_at-Scoped : (fuel : ℕ) → Ensures scoped (expr_at strtod fuel)
  expr_at-Scoped fuel = expr_at-Ensures scoped_primitives strtod fuel

  pub top_at-Scoped : (fuel : ℕ) (kind : Kind) → Ensures scoped (top_at strtod fuel kind)
  unfolding top_at
  top_at-Scoped zero kind = search program_rules
  top_at-Scoped (suc fuel) kind =
      exec_declaration-Scoped fuel (expr_at strtod fuel) _ kind (expr_at-Scoped fuel)

-- When the scopes are in order before a statement of the whole language, then after the statement, if it
-- is parsed, a variable that a name resolves to is below the number of locals of the frame, and two names
-- that resolve to the same local are the same name.
pub statement-IsDistinct :
    (strtod : List ℕ → ℕ) (fuel : ℕ) (p q : Parser) (v : Retval)
    → IsScoped p
    → statement_at (expr_at strtod fuel) (top_at strtod fuel) fuel p ≡ ok (v, q)
    → (a b : List ℕ) (i j : ℕ) → resolve a q.vars ≡ some i
    → resolve b q.vars ≡ some j
    → (i < q.max_locals) × (i ≡ j → a ≡ b)
statement-IsDistinct strtod fuel p q v =
    statement_at-IsDistinct (expr_at strtod fuel) (top_at strtod fuel) (expr_at-Scoped strtod fuel)
      (top_at-Scoped strtod fuel) fuel p q v
