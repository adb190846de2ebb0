-- ===== src/Parser/Expressions/Ignoring.antt =====
-- A relation that does not look at the registers and the code is ensured by every step on these.
use aument.Prelude.{ℕ, ◌≡◌, refl, ◌%◌, ◌^◌, Option, none, some, List}
use aument.Parser.Regs.{Regs, new_reg, pop_reg, last_reg}
use aument.Parser.Emit.{replace_bc_u16}
use aument.Parser.Operators.{OperatorInfo}
use aument.Parser.Operators.Generate.{Generator}
use aument.Parser.State.{
  Parser, Result, ok, failed, aborted, starved, M, then_run, code_len, emit_code, flush_cached,
  flush_free, with_regs, took, topmost, replaced, pop, last, replace,
}
use aument.Parser.State.Ensures.{Relation, Ensures, Ensures-total, bind-eq-ok}
use aument.Parser.State.Steps.{
  out_result, on_out, new_reg_result, allocate, on_regs, within, take_ownership,
}
use aument.Parser.Expressions.Binary.{generate}

out_result-eq :
    {A : Type 0} (p q : Parser) (a : A) (r : Result (A × Generator))
    → out_result p r ≡ ok (a, q)
    → (g : Generator) × (r ≡ ok (a, g)) × (q ≡ record p { out = g })
out_result-eq p q a (ok (b, g)) e = (g, cc, cc)
out_result-eq p q a (failed f) e = absurd (cc)
out_result-eq p q a aborted e = absurd (cc)
out_result-eq p q a starved e = absurd (cc)

-- A step on the registers and the code that succeeds changes these alone.
pub on_out-eq :
    {A : Type 0} (f : Generator → Result (A × Generator)) (p q : Parser) (a : A)
    → on_out f p ≡ ok (a, q)
    → (g : Generator) × (f p.out ≡ ok (a, g)) × (q ≡ record p { out = g })
unfolding on_out
on_out-eq f p q a e = out_result-eq p q a (f p.out) e

pub took-eq :
    (p q : Parser) (o : Option (ℕ × Regs)) (a : ℕ)
    → took p o ≡ ok (a, q)
    → (regs : Regs) × (q ≡ record p { out = record p.out { regs = regs } })
took-eq p q none a e = absurd (cc)
took-eq p q (some (reg, regs)) a e = (regs, cc)

pub topmost-eq : (p q : Parser) (o : Option ℕ) (a : ℕ) → topmost p o ≡ ok (a, q) → q ≡ p
topmost-eq p q none a e = absurd (cc)
topmost-eq p q (some reg) a e = cc

pub replaced-eq :
    (p q : Parser) (o : Option (List ℕ)) (a : Unit {0})
    → replaced p o ≡ ok (a, q)
    → (bc : List ℕ) × (o ≡ some bc) × (q ≡ record p { out = record p.out { bc = bc } })
replaced-eq p q none a e = absurd (cc)
replaced-eq p q (some bc) a e = (bc, refl, cc)

new_reg_result-eq :
    (g h : Generator) (o : Option (ℕ × Regs)) (a : ℕ)
    → new_reg_result g o ≡ ok (a, h)
    → (regs : Regs) × (o ≡ some (a, regs)) × (h ≡ record g { regs = regs })
new_reg_result-eq g h none a e = absurd (cc)
new_reg_result-eq g h (some (reg, regs)) a e = (regs, cc, cc)

-- A register that is allocated is that of the allocator, and the code stays.
pub allocate-eq :
    (p q : Parser) (a : ℕ)
    → allocate p ≡ ok (a, q)
    → (regs : Regs) × (new_reg p.out.regs ≡ some (a, regs)) × (q ≡ with_regs regs p)
unfolding allocate
allocate-eq p q a e =
    let (g, made, at) = on_out-eq (λ g. new_reg_result g (new_reg g.regs)) p q a e in
    let (regs, found, set) = new_reg_result-eq p.out g (new_reg p.out.regs) a made in
    (regs, found, rw (at, set) refl)

-- A routine that begins with a new register goes on with it.
pub allocate-then :
    (k : ℕ → M (Unit {0})) (p q : Parser)
    → then_run k (allocate p) ≡ ok (tt, q)
    → (reg : ℕ) × (regs : Regs) × (new_reg p.out.regs ≡ some (reg, regs))
      × (k reg (with_regs regs p) ≡ ok (tt, q))
allocate-then k p q e =
    let (reg, r, made, rest) = bind-eq-ok (allocate p) k tt q e in
    let (regs, found, at) = allocate-eq p r reg made in (reg, regs, found, rw at at rest)

pub ok-injective :
    {A : Type 0} (a b : A) (p q : Parser)
    → ◌≡◌ {A = Result (A × Parser)} (ok (a, p)) (ok (b, q))
    → p ≡ q
ok-injective a b p q e = cc

module _ (o : Relation)
    (ignores : (p : Parser) (g : Generator) → o.rel p (record p { out = g })) where
  pub ignores-on_out : {A : Type 0} (f : Generator → Result (A × Generator)) → Ensures o (on_out f)
  ignores-on_out f = record {
    at = λ p q a e. let (g, made, at) = on_out-eq f p q a e in rw at (ignores p g);
  }

  pub ignores-code_len : Ensures o code_len
  ignores-code_len = Ensures-total code_len _ (λ p. p) (λ p. refl) o.reflexive

  pub ignores-emit_code : (code : List ℕ) → Ensures o (emit_code code)
  ignores-emit_code code = Ensures-total (emit_code code) _ _ (λ p. refl) (λ p. ignores p _)

  pub ignores-flush_cached : Ensures o flush_cached
  ignores-flush_cached = Ensures-total flush_cached _ _ (λ p. refl) (λ p. ignores p _)

  pub ignores-flush_free : Ensures o flush_free
  ignores-flush_free = Ensures-total flush_free _ _ (λ p. refl) (λ p. ignores p _)

  pub ignores-pop : Ensures o pop
  unfolding pop
  ignores-pop = record {
    at = λ p q a e. let (regs, at) = took-eq p q (pop_reg p.out.regs) a e in rw at (ignores p _);
  }

  pub ignores-last : Ensures o last
  unfolding last
  ignores-last = record {
    at = λ p q a e. rw (topmost-eq p q (last_reg p.out.regs) a e) (o.reflexive p);
  }

  pub ignores-replace : (idx val : ℕ) → Ensures o (replace idx val)
  unfolding replace
  ignores-replace idx val = record {
    at = λ p q a e.
        let (bc, made, at) = replaced-eq p q (replace_bc_u16 idx (val % 2 ^ 16) p.out.bc) a e in
        rw at (ignores p _);
  }

  pub ignores-allocate : Ensures o allocate
  unfolding allocate
  ignores-allocate = ignores-on_out _

  pub ignores-on_regs : (f : Regs → Option Regs) → Ensures o (on_regs f)
  unfolding on_regs
  ignores-on_regs f = ignores-on_out _

  pub ignores-within : (f : Generator → Option Generator) → Ensures o (within f)
  unfolding within
  ignores-within f = ignores-on_out _

  pub ignores-take_ownership : Ensures o take_ownership
  unfolding take_ownership
  ignores-take_ownership = ignores-on_out _

  pub ignores-generate : (info : OperatorInfo) → Ensures o (generate info)
  unfolding generate
  ignores-generate info = ignores-on_out _
