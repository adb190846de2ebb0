-- ===== src/Parser/Statements/Operand.antt =====
-- The operand that au_parser_exec_let_statement of src/core/parser/impl/stmt.c writes for a new local.
use aument.Prelude.{
  ℕ, ◌+◌, ◌*◌, ◌/◌, ◌%◌, ◌≤◌, ◌<◌, max, ◌≡◌, refl, some, List, [], ◌∷◌, ◌++◌, if◌then◌else◌, ◌==◌,
  length, arith, le→leb,
}
use aument.Lexer.{bytes_eq_refl}
use aument.Parser.Emit.{emit}
use aument.Parser.State.{Parser, ok, declare, lookup, bump_local}
use aument.Parser.Statements.{low_high, exec_let_new, locals_limit, innermost}

declare-lookup :
    (name : List ℕ) (value : ℕ) (vars : List (List (List ℕ × ℕ)))
    → 0 < length vars
    → lookup name (innermost (declare name value vars)) ≡ some value
unfolding lookup
declare-lookup name value [] h = absurd (omega arith)
declare-lookup name value (scope ∷ scopes) h = rw (bytes_eq_refl name) refl

-- the parser after a new local
abbrev pub with_local : List ℕ → Parser → Parser
with_local name p = record p {
  vars = declare name p.local_placement p.vars;
  local_placement = p.local_placement + 1;
  max_locals = max p.max_locals (p.local_placement + 1);
  out = emit (low_high p.local_placement) p.out;
}

-- Inside some scope, with at most 65536 locals in use, a new variable is declared and its local is the
-- number of those in use; the two bytes of its operand hold that number, except that local 65536 has the
-- operand of local 0.
pub exec_let_new-operand :
    (name : List ℕ) (p : Parser)
    → 0 < length p.vars
    → p.local_placement ≤ locals_limit
    → (q : Parser) × (low high : ℕ) × (exec_let_new name p ≡ ok (tt, q))
      × (lookup name (innermost q.vars) ≡ some p.local_placement)
      × (q.out.bc ≡ p.out.bc ++ (low ∷ (high ∷ [])))
      × (low + 256 * high ≡ (if p.local_placement == 65536 then 0 else p.local_placement))
unfolding exec_let_new bump_local
exec_let_new-operand name p inside small = (
  with_local name p,
  p.local_placement % 256,
  p.local_placement / 256 % 256,
  rw (le→leb _ _ small) refl,
  declare-lookup name p.local_placement p.vars inside,
  refl,
  ground arith,
)
