-- ===== src/Parser/Statements/Scopes/Distinct.antt =====
-- No two variables that a statement of src/core/parser/impl/stmt.c can name share a local.
use aument.Prelude.{ℕ, ◌+◌, ◌≤◌, ◌<◌, ◌≡◌, some, List, [], ◌∷◌, length, arith}
use aument.Lexer.{bytes_eq-eq}
use aument.Parser.State.{Parser, Scope, M, ok, lookup, resolve}
use aument.Parser.State.Ensures.{Ensures}
use aument.Parser.Statements.{Retval}
use aument.Parser.Statements.Run.{Kind, statement_at}
use aument.Parser.Statements.Scopes.{IsNumbered, IsNumberedFrom, IsScoped, total, scoped}
use aument.Parser.Statements.Scopes.Programs.{statement_at-Scoped}

-- The locals of a scope lie in its range.
lookup_range :
    (base : ℕ) (scope : Scope) (a : List ℕ) (i : ℕ)
    → IsNumberedFrom base scope
    → lookup a scope ≡ some i
    → (base ≤ i) × (i < base + length scope)
unfolding lookup IsNumberedFrom
lookup_range base [] a i n e = absurd (cc)
lookup_range base ((key, local) ∷ scope) a i (at, fresh, n) e =
    ground (arith, lookup_range base scope a i n)

lookup-injective :
    (base : ℕ) (scope : Scope) (a b : List ℕ) (i : ℕ)
    → IsNumberedFrom base scope
    → lookup a scope ≡ some i
    → lookup b scope ≡ some i
    → a ≡ b
unfolding lookup IsNumberedFrom
lookup-injective base [] a b i n e f = absurd (cc)
lookup-injective base ((key, local) ∷ scope) a b i (at, fresh, n) e f = ground (
  arith,
  bytes_eq-eq key a,
  bytes_eq-eq key b,
  lookup_range base scope a i n,
  lookup_range base scope b i n,
  lookup-injective base scope a b i n,
)

resolve_range :
    (scopes : List Scope) (a : List ℕ) (i : ℕ)
    → IsNumbered scopes
    → resolve a scopes ≡ some i
    → i < total scopes
unfolding resolve IsNumbered total
resolve_range [] a i n e = absurd (cc)
resolve_range (scope ∷ scopes) a i (n, ns) e =
    ground (arith, lookup_range (total scopes) scope a i n, resolve_range scopes a i ns)

resolve-injective :
    (scopes : List Scope) (a b : List ℕ) (i : ℕ)
    → IsNumbered scopes
    → resolve a scopes ≡ some i
    → resolve b scopes ≡ some i
    → a ≡ b
unfolding resolve IsNumbered
resolve-injective [] a b i n e f = absurd (cc)
resolve-injective (scope ∷ scopes) a b i (n, ns) e f = ground (
  arith,
  lookup_range (total scopes) scope a i n,
  lookup_range (total scopes) scope b i n,
  resolve_range scopes a i ns,
  resolve_range scopes b i ns,
  lookup-injective (total scopes) scope a b i n,
  resolve-injective scopes a b i ns,
)

-- When expressions and the declarations of structures, functions and imports keep the scopes in order,
-- and the scopes are in order before a statement: after the statement, if it is parsed, a variable that
-- a name resolves to is below the number of locals of the frame, and two names that resolve to the same local
-- are the same name.
pub statement_at-IsDistinct :
    (exec_expr : M (Unit {0})) (exec_top : Kind → M (Unit {0})) (he : Ensures scoped exec_expr)
    (ht : (kind : Kind) → Ensures scoped (exec_top kind)) (fuel : ℕ) (p q : Parser) (v : Retval)
    → IsScoped p
    → statement_at exec_expr exec_top fuel p ≡ ok (v, q)
    → (a b : List ℕ) (i j : ℕ) → resolve a q.vars ≡ some i
    → resolve b q.vars ≡ some j
    → (i < q.max_locals) × (i ≡ j → a ≡ b)
statement_at-IsDistinct exec_expr exec_top he ht fuel p q v s e a b i j at_a at_b =
    let after = (statement_at-Scoped exec_expr exec_top he ht fuel).at p q v e in
    let t = after.keeps s in
    let small = resolve_range q.vars a i t.numbered at_a in
    (
      (let x = t.placed in let y = t.bounded in omega arith),
      λ same. resolve-injective q.vars a b i t.numbered at_a (rw same at_b),
    )
