-- ===== src/Parser/Statements/Scopes/Handlers.antt =====
-- Every statement of src/core/parser/impl/stmt.c keeps the scopes in order, and a block restores them.
use mathlib.Core.Path.{subst}
use aument.Prelude.{
  ℕ, ◌+◌, ◌<◌, ◌≡◌, refl, sym, inl, inr, Bool, Option, none, some, List, [], ◌∷◌, length, arith,
  leb, Bool-cases, ◌==◌,
}
use aument.Lexer.{Token}
use aument.Parser.State.{
  Parser, Scope, ok, M, ◌>>=◌, gets, modify, with_code, lookup, declare, bump_local,
}
use aument.Parser.State.Ensures.{Ensures, Ensures-total}
use aument.Parser.Statements.{
  patch, with_semicolon, add_const, set_may_fail, func_id_main, op_ret, loads_last, return_local,
  exec_name, locals_limit, innermost, exec_let_new, exec_let_old, let_slot, add_exported, in_main,
  const_slot, exec_let_statement, exec_const_statement, print_one, emit_return,
  exec_return_statement, exec_raise_statement,
}
use aument.Parser.Statements.Operand.{with_local}
use aument.Parser.Statements.Control.{exec_while}
use aument.Parser.Statements.Scopes.{
  IsNumbered, IsNumberedFrom, IsScoped, total, Scoped, Grows, same, grown, scoped, aside,
  scoped_rules, Ensures-emit_code,
}

pub patch-Scoped : (idx offset : ℕ) → Ensures scoped (patch idx offset)
unfolding patch
patch-Scoped idx offset = search scoped_rules

pub with_semicolon-Scoped :
    (m : M (Unit {0})) → Ensures scoped m → Ensures scoped (with_semicolon m)
unfolding with_semicolon
with_semicolon-Scoped m h = search scoped_rules

pub exec_name-Scoped : Ensures scoped exec_name
unfolding exec_name
exec_name-Scoped = search scoped_rules

pub exec_let_old-Scoped : (value new_reg : ℕ) → Ensures scoped (exec_let_old value new_reg)
unfolding exec_let_old
exec_let_old-Scoped value new_reg =
    Ensures-total _ _ _ (λ p. refl) (λ p. aside p _ refl refl refl refl)

pub ruleset handler_rules =
    (scoped_rules, patch-Scoped, with_semicolon-Scoped, exec_name-Scoped, exec_let_old-Scoped)

pub exec_while-Scoped :
    (exec_expr block : M (Unit {0}))
    → Ensures scoped exec_expr
    → Ensures scoped block
    → Ensures scoped (exec_while exec_expr block)
unfolding exec_while
exec_while-Scoped exec_expr block he hb = search handler_rules depth 30

declare-Grows :
    (name : List ℕ) (value : ℕ) (vars : List Scope) → Grows vars (declare name value vars)
declare-Grows name value [] = same
declare-Grows name value (scope ∷ scopes) = grown ((name, value) ∷ []) refl

declare-IsNumbered :
    (name : List ℕ) (vars : List Scope)
    → IsNumbered vars
    → 0 < length vars
    → lookup name (innermost vars) ≡ none
    → IsNumbered (declare name (total vars) vars)
      × (total (declare name (total vars) vars) ≡ total vars + 1)
      × (0 < length (declare name (total vars) vars))
unfolding IsNumbered IsNumberedFrom total
declare-IsNumbered name [] n h fresh = absurd (omega arith)
declare-IsNumbered name (scope ∷ scopes) (n, ns) h fresh =
    (((omega arith, fresh, n), ns), omega arith, omega arith)

with_local-Scoped :
    (name : List ℕ) (p : Parser)
    → lookup name (innermost p.vars) ≡ none
    → Scoped p (with_local name p)
with_local-Scoped name p fresh = record {
  keeps = λ s.
      let (n, size, room) = declare-IsNumbered name p.vars s.numbered s.inside fresh in
      record {
        numbered = rw s.placed n;
        placed = rw s.placed (sym size);
        bounded = omega arith;
        inside = rw s.placed room;
      };
  grows = declare-Grows name p.local_placement p.vars;
  level = refl;
  peak = omega arith;
}

exec_let_new-Scoped :
    (name : List ℕ) (p q : Parser) (a : Unit {0})
    → lookup name (innermost p.vars) ≡ none
    → exec_let_new name p ≡ ok (a, q)
    → Scoped p q
unfolding exec_let_new bump_local
exec_let_new-Scoped name p q a fresh e = elim (Bool-cases (leb p.local_placement locals_limit)) [
  | inl fits ↦ let made = rw fits at e in subst (Scoped p) (cc) (with_local-Scoped name p fresh)
  | inr large ↦ let refused = rw large at e in absurd (cc)
]

let_slot-Scoped :
    (name : List ℕ) (new_reg : ℕ) (p q : Parser) (a : Unit {0}) (o : Option ℕ)
    → lookup name (innermost p.vars) ≡ o
    → let_slot name new_reg o p ≡ ok (a, q)
    → Scoped p q
let_slot-Scoped name new_reg p q a none fresh e = exec_let_new-Scoped name p q a fresh e
let_slot-Scoped name new_reg p q a (some value) old e =
    (exec_let_old-Scoped value new_reg).at p q a e

find_slot-Scoped :
    (name : List ℕ) (new_reg : ℕ)
    → Ensures scoped (gets (λ p. lookup name (innermost p.vars)) >>= let_slot name new_reg)
find_slot-Scoped name new_reg = record {
  at = λ p q a e. let_slot-Scoped name new_reg p q a (lookup name (innermost p.vars)) refl e;
}

in_main-Scoped : Ensures scoped in_main
in_main-Scoped = record {
  at = λ p q a e. elim (Bool-cases (p.func_idx == func_id_main)) [
    | inl main ↦ let same = rw main at e in subst (Scoped p) (cc) (aside p p refl refl refl refl)
    | inr other ↦ let stopped = rw other at e in absurd (cc)
  ];
}

add_const-Scoped : (name : List ℕ) (value : ℕ) → Ensures scoped (modify (add_const name value))
add_const-Scoped name value =
    Ensures-total _ _ (add_const name value) (λ p. refl) (λ p. aside p _ refl refl refl refl)

add_exported-Scoped :
    (name : List ℕ) (value : ℕ) → Ensures scoped (modify (add_exported name value))
add_exported-Scoped name value =
    Ensures-total _ _ (add_exported name value) (λ p. refl) (λ p. aside p _ refl refl refl refl)

set_may_fail-Scoped : Ensures scoped (modify set_may_fail)
set_may_fail-Scoped =
    Ensures-total _ _ set_may_fail (λ p. refl) (λ p. aside p _ refl refl refl refl)

const_slot-Scoped :
    (name : List ℕ) (data_len right_reg : ℕ) (exported : Bool) (o : Option ℕ) (tok : Token)
    → Ensures scoped (const_slot name data_len right_reg exported o tok)
const_slot-Scoped name data_len right_reg exported (some old) tok = search handler_rules
const_slot-Scoped name data_len right_reg exported none tok =
    search (handler_rules, add_const-Scoped, add_exported-Scoped) depth 30

emit_return-Scoped : (reg : ℕ) → Ensures scoped (emit_return reg)
unfolding emit_return
emit_return-Scoped reg = record {
  at = λ p q a e. elim (Bool-cases (loads_last reg p.out.bc)) [
    | inl loads ↦
        let made = rw loads at e in
        subst (Scoped p) (cc) (aside p (with_code (return_local p.out.bc) p) refl refl refl refl)
    | inr other ↦
        let made = rw other at e in
        (Ensures-emit_code (op_ret ∷ (reg ∷ (0 ∷ (0 ∷ []))))).at p q a made
  ];
}

module _ (exec_expr : M (Unit {0})) (he : Ensures scoped exec_expr) where
  pub exec_let-Scoped : Ensures scoped (exec_let_statement exec_expr)
  unfolding exec_let_statement
  exec_let-Scoped = search (handler_rules, find_slot-Scoped) depth 30

  pub exec_const-Scoped :
      (exported : Bool) → Ensures scoped (exec_const_statement exec_expr exported)
  unfolding exec_const_statement
  exec_const-Scoped exported = search (handler_rules, in_main-Scoped, const_slot-Scoped) depth 30

  pub print_one-Scoped : Ensures scoped (print_one exec_expr)
  unfolding print_one
  print_one-Scoped = search handler_rules depth 30

  pub exec_return-Scoped : Ensures scoped (exec_return_statement exec_expr)
  unfolding exec_return_statement
  exec_return-Scoped = search (handler_rules, emit_return-Scoped) depth 30

  pub exec_raise-Scoped : Ensures scoped (exec_raise_statement exec_expr)
  unfolding exec_raise_statement
  exec_raise-Scoped = search (handler_rules, set_may_fail-Scoped) depth 30
