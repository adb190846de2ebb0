-- ===== src/Parser/Statements/Scopes/Programs.antt =====
-- Blocks of src/core/parser/impl/stmt.c give their locals back, and a whole program keeps its scopes in
-- order.
use mathlib.Core.Path.{subst}
use aument.Prelude.{
  ℕ, zero, suc, ◌+◌, ◌-◌, ◌≤◌, ◌≡◌, refl, inl, inr, true, Option, none, some, List, [], ◌∷◌, length,
  arith, append-nil, Bool-cases, ◌==◌,
}
use aument.Lexer.{Token}
use aument.Parser.State.{
  Parser, Scope, ok, M, ◌>>◌, expect_global_scope, first, rest_of, is_op, pop_locals,
}
use aument.Parser.State.Ensures.{
  Ensures, Ensures-starved, Ensures-return, Ensures-expect, bind-eq-ok,
}
use aument.Parser.Statements.{
  Retval, done, at_end, open_scope, close_scope, leave_block, rest_scopes, innermost, is_return_op,
  byte_before_end,
}
use aument.Parser.Statements.Control.{
  emit_jump_out, emit_leave, patch_leave, exec_condition, exec_else, exec_tail, exec_if,
  after_statement, block_loop, exec_block, comma_loop, comma_list,
}
use aument.Parser.Statements.Run.{
  Kind, struct_stmt, func_stmt, import_stmt, public_stmt, let_stmt, const_stmt, if_stmt, while_stmt,
  print_stmt, return_stmt, raise_stmt, expr_stmt, in_global_scope, exec_kind, exec_statement,
  add_source_map, mapped, block_at, if_at, statement_at, program_loop, exec_program,
}
use aument.Parser.Statements.Scopes.{
  IsNumbered, IsNumberedFrom, IsScoped, total, Scoped, Grows, same, grown, scoped, aside,
}
use aument.Parser.Statements.Scopes.Handlers.{
  handler_rules, exec_while-Scoped, exec_let-Scoped, exec_const-Scoped, print_one-Scoped,
  exec_return-Scoped, exec_raise-Scoped,
}

-- What a block changes of the scopes: nothing but the highest number of locals.
pub record Restores (p q : Parser) : Type 0 where
  pub vars : q.vars ≡ p.vars
  pub level : q.block_level ≡ p.block_level
  pub peak : p.max_locals ≤ q.max_locals
  pub placement : IsScoped p → q.local_placement ≡ p.local_placement

-- the parser behind the opening brace, and the one behind the closing brace
abbrev opened : Parser → Parser
opened p = record p { input = rest_of p.input; vars = [] ∷ p.vars; block_level = p.block_level + 1 }

abbrev closed : Parser → Parser
closed p = record p {
  vars = rest_scopes p.vars;
  local_placement = p.local_placement - length (innermost p.vars);
  block_level = p.block_level - 1;
}

Grows-new :
    (scopes vars : List Scope) → Grows ([] ∷ scopes) vars → (new : Scope) × (vars ≡ new ∷ scopes)
Grows-new scopes vars same = ([], refl)
Grows-new scopes vars (grown new e) = (new, rw (e, append-nil) refl)

closed-Restores : (p q : Parser) → Scoped (opened p) q → Restores p (closed q)
unfolding total IsNumbered IsNumberedFrom
closed-Restores p q s =
    let (new, e) = Grows-new p.vars q.vars s.grows in
    record {
      vars = rw e refl;
      level = let l = s.level in omega arith;
      peak = s.peak;
      placement = λ h.
          let after = s.keeps (record {
            numbered = (tt, h.numbered);
            placed = omega (arith, h.placed);
            bounded = h.bounded;
            inside = omega arith;
          }) in
          let size : total q.vars ≡ length new + total p.vars = rw e refl in
          let mine : length (innermost q.vars) ≡ length new = rw e refl in
          let x = after.placed in let y = h.placed in omega arith;
    }

-- What stands between the braces keeps the scopes in order.
exec_block-Restores :
    (loop : M (Unit {0})) (p q : Parser) (a : Unit {0})
    → Ensures scoped loop
    → exec_block true loop p ≡ ok (a, q)
    → Restores p q
unfolding exec_block open_scope close_scope pop_locals
exec_block-Restores loop p q a h e = elim (Bool-cases (is_op (first p.input).token 123)) [
  | inl brace ↦
      let (b, r, ran, rest) =
        bind-eq-ok (loop (opened p)) (λ _. close_scope >> leave_block) a q (rw brace at e) in
      subst (Restores p) (cc) (closed-Restores p r (h.at (opened p) r b ran))
  | inr other ↦ let refused = rw other at e in absurd (cc)
]

Restores-Scoped : (p q : Parser) → Restores p q → Scoped p q
Restores-Scoped p q r = record {
  keeps = λ s. record {
    numbered = rw r.vars s.numbered;
    placed = rw (r.vars, r.placement s) s.placed;
    bounded = let a = r.peak in let b = r.placement s in let c = s.bounded in omega arith;
    inside = rw r.vars s.inside;
  };
  grows = rw r.vars same;
  level = r.level;
  peak = r.peak;
}

-- a change of the code alone, or of the source map
add_source_map-Scoped : (bc_from start : ℕ) → Ensures scoped (add_source_map bc_from start)
unfolding add_source_map
add_source_map-Scoped bc_from start = record {
  at = λ p q a e. elim (Bool-cases (bc_from == length p.out.bc)) [
    | inl none_made ↦
        let plain = rw none_made at e in subst (Scoped p) (cc) (aside p p refl refl refl refl)
    | inr some_made ↦
        let added = rw some_made at e in
        subst (Scoped p) (cc) (aside p (mapped bc_from start p) refl refl refl refl)
  ];
}

global-Scoped : (tok : Token) → Ensures scoped (in_global_scope tok)
global-Scoped tok = record {
  at = λ p q a e.
      (Ensures-expect {o = scoped} (p.block_level == 0) (expect_global_scope tok)).at p q a e;
}

leaving-Scoped : Ensures scoped emit_jump_out
unfolding emit_jump_out
leaving-Scoped = search handler_rules depth 30

emit_leave-Scoped : Ensures scoped emit_leave
unfolding emit_leave
emit_leave-Scoped = record {
  at = λ p q a e. elim (Bool-cases (is_return_op (byte_before_end 4 p.out.bc))) [
    | inl stays ↦ let plain = rw stays at e in subst (Scoped p) (cc) (aside p p refl refl refl refl)
    | inr leaves ↦ let jumps = rw leaves at e in leaving-Scoped.at p q a jumps
  ];
}

patch_leave-Scoped : (o : Option ℕ) → Ensures scoped (patch_leave o)
unfolding patch_leave
patch_leave-Scoped none = search handler_rules
patch_leave-Scoped (some at) = search handler_rules depth 30

ruleset control_rules =
    (handler_rules, emit_leave-Scoped, patch_leave-Scoped, add_source_map-Scoped, global-Scoped)

module _ (exec_expr : M (Unit {0})) (he : Ensures scoped exec_expr) where
  exec_condition-Scoped : Ensures scoped (exec_condition exec_expr)
  unfolding exec_condition
  exec_condition-Scoped = search handler_rules depth 30

  exec_if-Scoped :
      (block else_if : M (Unit {0}))
      → Ensures scoped block
      → Ensures scoped else_if
      → Ensures scoped (exec_if exec_expr block else_if)
  unfolding exec_if exec_tail exec_else
  exec_if-Scoped block else_if hb hi =
      search (control_rules, exec_condition-Scoped) fits 3000 depth 50

after_statement-Scoped :
    (rest : M (Unit {0})) (v : Retval)
    → Ensures scoped rest
    → Ensures scoped (after_statement rest v)
after_statement-Scoped rest done h = h
after_statement-Scoped rest at_end h = Ensures-return tt

block_loop-Scoped :
    (fuel : ℕ) (statement : M Retval)
    → Ensures scoped statement
    → Ensures scoped (block_loop fuel statement)
unfolding block_loop
block_loop-Scoped zero statement h = Ensures-starved
block_loop-Scoped (suc fuel) statement h =
    let ih = block_loop-Scoped fuel statement h in
    search (control_rules, after_statement-Scoped) depth 40

comma_loop-Scoped :
    (fuel ending : ℕ) (item : M (Unit {0}))
    → Ensures scoped item
    → Ensures scoped (comma_loop fuel ending item)
unfolding comma_loop
comma_loop-Scoped zero ending item h = Ensures-starved
comma_loop-Scoped (suc fuel) ending item h =
    let ih = comma_loop-Scoped fuel ending item h in search control_rules depth 40

comma_list-Scoped :
    (fuel ending : ℕ) (item : M (Unit {0}))
    → Ensures scoped item
    → Ensures scoped (comma_list fuel ending item)
unfolding comma_list
comma_list-Scoped fuel ending item h = search (control_rules, comma_loop-Scoped) depth 40

-- Whatever an expression, and a struct, a function, an import or a public declaration do, keeps the
-- scopes in order.
module _ (exec_expr : M (Unit {0})) (exec_top : Kind → M (Unit {0})) (he : Ensures scoped exec_expr)
    (ht : (kind : Kind) → Ensures scoped (exec_top kind)) where
  exec_kind-Scoped :
      (fuel : ℕ) (block else_if : M (Unit {0})) (tok : Token) (kind : Kind)
      → Ensures scoped block
      → Ensures scoped else_if
      → Ensures scoped (exec_kind exec_expr exec_top fuel block else_if tok kind)
  unfolding exec_kind
  exec_kind-Scoped fuel block else_if tok struct_stmt hb hi = search (control_rules, ht) depth 30
  exec_kind-Scoped fuel block else_if tok func_stmt hb hi = search (control_rules, ht) depth 30
  exec_kind-Scoped fuel block else_if tok import_stmt hb hi = search (control_rules, ht) depth 30
  exec_kind-Scoped fuel block else_if tok public_stmt hb hi = search (control_rules, ht) depth 30
  exec_kind-Scoped fuel block else_if tok let_stmt hb hi =
      search (control_rules, exec_let-Scoped) depth 30
  exec_kind-Scoped fuel block else_if tok const_stmt hb hi =
      search (control_rules, exec_const-Scoped) depth 30
  exec_kind-Scoped fuel block else_if tok if_stmt hb hi = search control_rules depth 30
  exec_kind-Scoped fuel block else_if tok while_stmt hb hi =
      search (control_rules, exec_while-Scoped) depth 30
  exec_kind-Scoped fuel block else_if tok print_stmt hb hi =
      search (control_rules, comma_list-Scoped, print_one-Scoped) depth 30
  exec_kind-Scoped fuel block else_if tok return_stmt hb hi =
      search (control_rules, exec_return-Scoped) depth 30
  exec_kind-Scoped fuel block else_if tok raise_stmt hb hi =
      search (control_rules, exec_raise-Scoped) depth 30
  exec_kind-Scoped fuel block else_if tok expr_stmt hb hi = search control_rules depth 30

  exec_statement-Scoped :
      (fuel : ℕ) (block else_if : M (Unit {0}))
      → Ensures scoped block
      → Ensures scoped else_if
      → Ensures scoped (exec_statement exec_expr exec_top fuel block else_if)
  unfolding exec_statement
  exec_statement-Scoped fuel block else_if hb hi = search (control_rules, exec_kind-Scoped) depth 30

  mutual
    unfolding block_at if_at

    block_at-Scoped : (fuel : ℕ) → Ensures scoped (block_at exec_expr exec_top fuel)
    block_at-Scoped zero = Ensures-starved
    block_at-Scoped (suc fuel) = record {
      at = λ p q a e. Restores-Scoped p q (
          exec_block-Restores _ p q a
            (block_loop-Scoped fuel _
              (exec_statement-Scoped fuel _ _ (block_at-Scoped fuel) (if_at-Scoped fuel)))
            e);
    }

    if_at-Scoped : (fuel : ℕ) → Ensures scoped (if_at exec_expr exec_top fuel)
    if_at-Scoped zero = Ensures-starved
    if_at-Scoped (suc fuel) =
        exec_if-Scoped exec_expr he _ _ (block_at-Scoped fuel) (if_at-Scoped fuel)

  pub statement_at-Scoped : (fuel : ℕ) → Ensures scoped (statement_at exec_expr exec_top fuel)
  unfolding statement_at
  statement_at-Scoped fuel =
      exec_statement-Scoped fuel _ _ (block_at-Scoped fuel) (if_at-Scoped fuel)

  -- A block that is parsed leaves the scopes and the block level as they were, and does not lower the
  -- highest number of locals. When the scopes are in order before it (the locals in use are
  -- those of the variables in scope, numbered from the outermost scope), it gives back its locals.
  pub block_at-Restores :
      (fuel : ℕ) (p q : Parser) → block_at exec_expr exec_top fuel p ≡ ok (tt, q) → Restores p q
  unfolding block_at statement_at
  block_at-Restores zero p q e = absurd (cc)
  block_at-Restores (suc fuel) p q e =
      exec_block-Restores _ p q tt (block_loop-Scoped fuel _ (statement_at-Scoped fuel)) e

  program_loop-Scoped :
      (fuel rounds : ℕ) → Ensures scoped (program_loop exec_expr exec_top fuel rounds)
  unfolding program_loop
  program_loop-Scoped fuel zero = Ensures-starved
  program_loop-Scoped fuel (suc rounds) =
      let ih = program_loop-Scoped fuel rounds in
      search (control_rules, statement_at-Scoped, after_statement-Scoped) depth 40

  pub exec_program-Scoped : (fuel : ℕ) → Ensures scoped (exec_program exec_expr exec_top fuel)
  unfolding exec_program
  exec_program-Scoped fuel = search (control_rules, program_loop-Scoped) depth 40
