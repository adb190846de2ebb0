-- ===== src/Parser/Statements/Scopes.antt =====
-- Variables and their locals: what au_parser_exec_let_statement, au_parser_exec_block and the other
-- handlers of src/core/parser/impl/stmt.c keep true of the parser's scopes.
pub mod Handlers
pub mod Programs
pub mod Distinct
use mathlib.Core.Path.{subst}
use aument.Parser.Regs.{Regs, pop_reg, last_reg}
use aument.Prelude.{
  ℕ, zero, suc, ◌+◌, ◌-◌, ◌%◌, ◌^◌, ◌≤◌, ◌<◌, max, ◌≡◌, refl, sym, ap, ◌∙◌, inl, inr, Bool, true,
  false, Option, none, some, List, [], ◌∷◌, ◌++◌, if◌then◌else◌, length, arith, append_assoc,
}
use aument.Parser.Emit.{replace_bc_u16}
use aument.Parser.State.{
  Parser, Scope, Result, ok, failed, M, ◌>>=◌, ◌>>◌, peek_token, next_token, code_len, emit_code,
  took, topmost, replaced, with_regs, with_code, flush_cached, flush_free, pop, last, replace,
  lookup, declare, bump_local, pop_locals,
}
use aument.Parser.State.Ensures.{Relation, Ensures, Ensures-total, bind-eq-ok, ensures_rules}

-- how many variables the scopes hold
unfoldable pub total : List Scope → ℕ
total [] = 0
total (scope ∷ scopes) = length scope + total scopes

-- Each variable of a scope has the next_token local after those declared before it, and a name of its own.
unfoldable pub IsNumberedFrom : ℕ → Scope → Type 0
IsNumberedFrom base [] = Unit {0}
IsNumberedFrom base ((name, local) ∷ scope) =
    (local ≡ base + length scope) × (lookup name scope ≡ none) × IsNumberedFrom base scope

unfoldable pub IsNumbered : List Scope → Type 0
IsNumbered [] = Unit {0}
IsNumbered (scope ∷ scopes) = IsNumberedFrom (total scopes) scope × IsNumbered scopes

pub record IsScoped (p : Parser) : Type 0 where
  pub numbered : IsNumbered p.vars
  pub placed : p.local_placement ≡ total p.vars
  pub bounded : p.local_placement ≤ p.max_locals
  pub inside : 0 < length p.vars

-- Variables are only added, and only to the innermost scope.
pub data Grows : List Scope → List Scope → Type 0 where
  same : {scopes : List Scope} → Grows scopes scopes
  grown :
      {scope scope' : Scope} {scopes : List Scope} (new : Scope)
      → scope' ≡ new ++ scope
      → Grows (scope ∷ scopes) (scope' ∷ scopes)

pub record Scoped (p q : Parser) : Type 0 where
  pub keeps : IsScoped p → IsScoped q
  pub grows : Grows p.vars q.vars
  pub level : q.block_level ≡ p.block_level
  pub peak : p.max_locals ≤ q.max_locals

pub Grows-trans : (a b c : List Scope) → Grows a b → Grows b c → Grows a c
Grows-trans a b c same h = h
Grows-trans a b c (grown new e) same = grown new e
Grows-trans (a ∷ _) (b ∷ _) (c ∷ _) (grown new e) (grown newer e') =
    grown (newer ++ new) (rw (e', e) (sym (append_assoc newer new a)))

abbrev pub scoped : Relation
scoped = record {
  rel = Scoped;
  reflexive = λ p. record { keeps = λ h. h; grows = same; level = refl; peak = omega arith };
  transitive = λ p q r h k. record {
    keeps = λ s. k.keeps (h.keeps s);
    grows = Grows-trans p.vars q.vars r.vars h.grows k.grows;
    level = k.level ∙ h.level;
    peak = let a = h.peak in let b = k.peak in omega arith;
  };
}

-- a change that leaves the scopes alone
pub aside :
    (p q : Parser)
    → q.vars ≡ p.vars
    → q.local_placement ≡ p.local_placement
    → q.max_locals ≡ p.max_locals
    → q.block_level ≡ p.block_level
    → Scoped p q
aside p q vars placement peak level = record {
  keeps = λ s. record {
    numbered = rw vars s.numbered;
    placed = rw (vars, placement) s.placed;
    bounded = rw (placement, peak) s.bounded;
    inside = rw vars s.inside;
  };
  grows = rw vars same;
  level = level;
  peak = omega arith;
}

pub Ensures-peek_token : Ensures scoped peek_token
Ensures-peek_token =
    Ensures-total peek_token _ (λ p. p) (λ p. refl) (λ p. aside p _ refl refl refl refl)

pub Ensures-next_token : Ensures scoped next_token
Ensures-next_token = Ensures-total next_token _ _ (λ p. refl) (λ p. aside p _ refl refl refl refl)

pub Ensures-code_len : Ensures scoped code_len
Ensures-code_len =
    Ensures-total code_len _ (λ p. p) (λ p. refl) (λ p. aside p _ refl refl refl refl)

pub Ensures-emit_code : (code : List ℕ) → Ensures scoped (emit_code code)
Ensures-emit_code code =
    Ensures-total (emit_code code) _ _ (λ p. refl) (λ p. aside p _ refl refl refl refl)

pub Ensures-flush_cached : Ensures scoped flush_cached
Ensures-flush_cached =
    Ensures-total flush_cached _ _ (λ p. refl) (λ p. aside p _ refl refl refl refl)

pub Ensures-flush_free : Ensures scoped flush_free
Ensures-flush_free = Ensures-total flush_free _ _ (λ p. refl) (λ p. aside p _ refl refl refl refl)

took-Scoped : (p q : Parser) (o : Option (ℕ × Regs)) (a : ℕ) → took p o ≡ ok (a, q) → Scoped p q
took-Scoped p q none a e = absurd (cc)
took-Scoped p q (some (reg, regs)) a e =
    subst (Scoped p) (cc) (aside p (with_regs regs p) refl refl refl refl)

pub Ensures-pop : Ensures scoped pop
unfolding pop
Ensures-pop = record { at = λ p q a e. took-Scoped p q (pop_reg p.out.regs) a e }

topmost-Scoped : (p q : Parser) (o : Option ℕ) (a : ℕ) → topmost p o ≡ ok (a, q) → Scoped p q
topmost-Scoped p q none a e = absurd (cc)
topmost-Scoped p q (some reg) a e = subst (Scoped p) (cc) (aside p p refl refl refl refl)

pub Ensures-last : Ensures scoped last
unfolding last
Ensures-last = record { at = λ p q a e. topmost-Scoped p q (last_reg p.out.regs) a e }

replaced-Scoped :
    (p q : Parser) (o : Option (List ℕ)) (a : Unit {0}) → replaced p o ≡ ok (a, q) → Scoped p q
replaced-Scoped p q none a e = absurd (cc)
replaced-Scoped p q (some bc) a e =
    subst (Scoped p) (cc) (aside p (with_code bc p) refl refl refl refl)

pub Ensures-replace : (idx val : ℕ) → Ensures scoped (replace idx val)
unfolding replace
Ensures-replace idx val = record {
  at = λ p q a e. replaced-Scoped p q (replace_bc_u16 idx (val % 2 ^ 16) p.out.bc) a e;
}

pub ruleset scoped_rules = (
  ensures_rules, Ensures-peek_token, Ensures-next_token, Ensures-code_len, Ensures-emit_code,
  Ensures-flush_cached, Ensures-flush_free, Ensures-pop, Ensures-last, Ensures-replace,
)
