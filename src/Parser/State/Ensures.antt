-- ===== src/Parser/State/Ensures.antt =====
-- What a handler ensures between the parser before it and the parser after it, if it succeeds: one rule
-- for each way to build a handler of src/core/parser/impl/stmt.c.
use mathlib.Core.Path.{subst}
use aument.Prelude.{◌≡◌, refl, Bool, true, false, if◌then◌else◌}
use aument.Parser.State.{
  Parser, Failure, Result, ok, failed, aborted, starved, M, then_run, ◌>>=◌, return, refuse, expect,
  gets,
}

-- a relation on parsers that may be chained
pub record Relation : Type 1 where
  pub rel : Parser → Parser → Type 0
  pub reflexive : (p : Parser) → rel p p
  pub transitive : (p q r : Parser) → rel p q → rel q r → rel p r

pub record Ensures (o : Relation) {A : Type 0} (m : M A) : Type 0 where
  pub at : (p q : Parser) (a : A) → m p ≡ ok (a, q) → o.rel p q

module _ {o : Relation} {A : Type 0} where
  pub Ensures-return : (a : A) → Ensures o (return a)
  Ensures-return a = record { at = λ p q b e. subst (λ z. o.rel p z) (cc) (o.reflexive p) }

  pub Ensures-gets : (f : Parser → A) → Ensures o (gets f)
  Ensures-gets f = record { at = λ p q b e. subst (λ z. o.rel p z) (cc) (o.reflexive p) }

  pub Ensures-refuse : (e : Failure) → Ensures o (refuse {A = A} e)
  Ensures-refuse e = record { at = λ p q b h. absurd (cc) }

  pub Ensures-starved : Ensures o {A = A} (λ p. starved)
  Ensures-starved = record { at = λ p q b h. absurd (cc) }

  -- a handler that always succeeds
  pub Ensures-total :
      (m : M A) (g : Parser → A) (f : Parser → Parser)
      → ((p : Parser) → m p ≡ ok (g p, f p))
      → ((p : Parser) → o.rel p (f p))
      → Ensures o m
  Ensures-total m g f runs holds = record {
    at = λ p q b e. let h = runs p in subst (λ z. o.rel p z) (cc) (holds p);
  }

  pub Ensures-if :
      (b : Bool) (m n : M A) → Ensures o m → Ensures o n → Ensures o (if b then m else n)
  Ensures-if true m n km kn = km
  Ensures-if false m n km kn = kn

module _ {o : Relation} where
  pub Ensures-expect : (b : Bool) (e : Failure) → Ensures o (expect b e)
  Ensures-expect true e = record { at = λ p q b h. subst (λ z. o.rel p z) (cc) (o.reflexive p) }
  Ensures-expect false e = record { at = λ p q b h. absurd (cc) }

-- A chain that succeeds succeeds at each step.
pub bind-eq-ok :
    {A B : Type 0} (m : Result (A × Parser)) (f : A → M B) (b : B) (q : Parser)
    → then_run f m ≡ ok (b, q)
    → (a : A) × (p : Parser) × (m ≡ ok (a, p)) × (f a p ≡ ok (b, q))
bind-eq-ok (ok (a, p)) f b q e = (a, p, refl, e)
bind-eq-ok (failed e') f b q e = absurd (cc)
bind-eq-ok aborted f b q e = absurd (cc)
bind-eq-ok starved f b q e = absurd (cc)

module _ {o : Relation} {A B : Type 0} where
  pub Ensures-bind :
      (m : M A) (f : A → M B) → Ensures o m → ((a : A) → Ensures o (f a)) → Ensures o (m >>= f)
  Ensures-bind m f km kf = record {
    at = λ p q b e.
        let (a, r, first, second) = bind-eq-ok (m p) f b q e in
        o.transitive p r q (km.at p r a first) ((kf a).at r q b second);
  }

pub ruleset ensures_rules = (
  Ensures-return, Ensures-gets, Ensures-refuse, Ensures-starved, Ensures-if, Ensures-expect,
  Ensures-bind,
)
