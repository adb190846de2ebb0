-- ===== src/Parser/Expressions/Scoped.antt =====
-- Expressions of src/core/parser/impl/expr.c leave the scopes of variables alone.
use aument.Prelude.{ℕ, refl, Option, none, some}
use aument.Lexer.{Token}
use aument.Parser.Operators.Generate.{Generator}
use aument.Parser.Program.{Constant, Program}
use aument.Parser.Resolve.{create, resolve_imported, resolve_own, resolve_fn}
use aument.Parser.State.{Parser}
use aument.Parser.State.Ensures.{Ensures, Ensures-total}
use aument.Parser.State.Steps.{write_program, add_data, set_self_may_fail, resolve_module}
use aument.Parser.Statements.Scopes.{
  Scoped, scoped, aside, scoped_rules, Ensures-peek_token, Ensures-next_token,
}
use aument.Parser.Expressions.Calls.{fill_later}
use aument.Parser.Expressions.Ignoring.{
  ignores-code_len, ignores-emit_code, ignores-flush_cached, ignores-pop, ignores-last,
  ignores-replace, ignores-allocate, ignores-on_regs, ignores-within, ignores-take_ownership,
  ignores-generate,
}
use aument.Parser.Expressions.Primitives.{Primitives, Ensures-undefined, Ensures-option_case}
use aument.Parser.Expressions.Values.{load_indexed, add_module_const, exec_module_const}
use aument.Parser.Expressions.Literals.{load_const}

ignores_out : (p : Parser) (g : Generator) → Scoped p (record p { out = g })
ignores_out p g = aside p _ refl refl refl refl

pub write_program-Scoped : (f : Program → Program) → Ensures scoped (write_program f)
unfolding write_program
write_program-Scoped f = Ensures-total _ _ _ (λ p. refl) (λ p. aside p _ refl refl refl refl)

pub ruleset program_rules =
    (scoped_rules, write_program-Scoped, Ensures-undefined, Ensures-option_case)

add_data-Scoped : (value : Constant) → Ensures scoped (add_data value)
unfolding add_data
add_data-Scoped value = search program_rules

set_self_may_fail-Scoped : Ensures scoped set_self_may_fail
unfolding set_self_may_fail
set_self_may_fail-Scoped = Ensures-total _ _ _ (λ p. refl) (λ p. aside p _ refl refl refl refl)

fill_later-Scoped : (offset : ℕ) → Ensures scoped (fill_later offset)
unfolding fill_later
fill_later-Scoped offset = Ensures-total _ _ _ (λ p. refl) (λ p. aside p _ refl refl refl refl)

pub resolve_module-Scoped : (module_tok : Token) → Ensures scoped (resolve_module module_tok)
unfolding resolve_module
resolve_module-Scoped module_tok = search program_rules depth 30

resolve_fn-Scoped :
    (module_tok : Option Token) (id_tok : Token) (n : ℕ)
    → Ensures scoped (resolve_fn module_tok id_tok n)
unfolding resolve_fn resolve_imported resolve_own create
resolve_fn-Scoped none id_tok n = search program_rules depth 30
resolve_fn-Scoped (some module_tok) id_tok n =
    search (program_rules, resolve_module-Scoped) depth 30

exec_module_const-Scoped :
    (module_tok tok : Token) → Ensures scoped (exec_module_const module_tok tok)
unfolding exec_module_const add_module_const load_indexed load_const
exec_module_const-Scoped module_tok tok =
    let alloc = ignores-allocate scoped ignores_out in
    search (program_rules, resolve_module-Scoped) depth 30

pub scoped_primitives : Primitives scoped
scoped_primitives = record {
  peek = Ensures-peek_token;
  next = Ensures-next_token;
  len = ignores-code_len scoped ignores_out;
  emit = λ code w. ignores-emit_code scoped ignores_out code;
  flush = ignores-flush_cached scoped ignores_out;
  pops = ignores-pop scoped ignores_out;
  top = ignores-last scoped ignores_out;
  write = ignores-replace scoped ignores_out;
  alloc = ignores-allocate scoped ignores_out;
  regs = ignores-on_regs scoped ignores_out;
  take = ignores-take_ownership scoped ignores_out;
  and_start = λ reg. ignores-within scoped ignores_out _;
  and_end = λ reg len. ignores-within scoped ignores_out _;
  or_start = ignores-within scoped ignores_out _;
  or_end = λ reg len. ignores-within scoped ignores_out _;
  operate = ignores-generate scoped ignores_out;
  fail = set_self_may_fail-Scoped;
  fill = fill_later-Scoped;
  mark = λ idx. write_program-Scoped _;
  data_added = add_data-Scoped;
  resolved = resolve_fn-Scoped;
  module_const = exec_module_const-Scoped;
}
