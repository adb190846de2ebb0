-- ===== src/Parser/Expressions/Linked.antt =====
-- The indices in the program data: src/core/parser/impl/resolve.c and the routines of
-- src/core/parser/impl/expr.c that add to the program.
pub mod Resolve
pub mod Keep
use mathlib.Core.Path.{subst}
use aument.Prelude.{
  ℕ, zero, suc, ◌+◌, ◌≤◌, ◌<◌, ◌≡◌, refl, sym, ap, ◌∙◌, inl, inr, ◌⊎◌, Bool, true, false, ◌&&◌,
  Option, none, some, List, [], ◌∷◌, ◌++◌, if◌then◌else◌, length, get_elem?, set, arith,
  length-append, length-set, Bool-cases, Option-cases,
}
use aument.Lexer.{Token, bytes_eq}
use aument.Parser.Program.{Scope, Constant, Fn, Module, Program}
use aument.Parser.State.{Parser, ok, M, lookup}

-- each value of a table is below a bound
unfoldable pub IsBelow : ℕ → Scope → Type 0
IsBelow n [] = Unit {0}
IsBelow n ((name, value) ∷ scope) = (value < n) × IsBelow n scope

-- what a module's tables refer to
pub record IsLinkedModule (fns classes consts : ℕ) (m : Module) : Type 0 where
  pub to_fns : IsBelow fns m.fn_map
  pub to_classes : IsBelow classes m.class_map
  pub to_consts : IsBelow consts m.const_map

unfoldable pub AreLinked : (fns classes consts : ℕ) → List Module → Type 0
AreLinked fns classes consts [] = Unit {0}
AreLinked fns classes consts (m ∷ ms) =
    IsLinkedModule fns classes consts m × AreLinked fns classes consts ms

-- Each table refers to what is there.
pub record IsLinked (d : Program) : Type 0 where
  pub to_fns : IsBelow (length d.fns) d.fn_map
  pub to_classes : IsBelow (length d.classes) d.class_map
  pub to_modules : IsBelow (length d.imported_modules) d.imported_module_map
  pub modules : AreLinked (length d.fns) (length d.classes) (length d.data_val) d.imported_modules

-- More is there, and what was linked is linked.
pub record Extends (d e : Program) : Type 0 where
  pub more_fns : length d.fns ≤ length e.fns
  pub more_classes : length d.classes ≤ length e.classes
  pub more_consts : length d.data_val ≤ length e.data_val
  pub more_modules : length d.imported_modules ≤ length e.imported_modules
  pub keeps : IsLinked d → IsLinked e

pub IsBelow-le : (m n : ℕ) (scope : Scope) → m ≤ n → IsBelow m scope → IsBelow n scope
unfolding IsBelow
IsBelow-le m n [] h b = tt
IsBelow-le m n ((name, value) ∷ scope) h (low, b) = (omega arith, IsBelow-le m n scope h b)

pub lookup-IsBelow :
    (n : ℕ) (scope : Scope) (name : List ℕ) (value : ℕ)
    → IsBelow n scope
    → lookup name scope ≡ some value
    → value < n
unfolding IsBelow lookup
lookup-IsBelow n [] name value b e = absurd (cc)
lookup-IsBelow n ((key, first) ∷ scope) name value (low, b) e =
    ground (arith, lookup-IsBelow n scope name value b)

module _ (f f' c c' k k' : ℕ) (more_f : f ≤ f') (more_c : c ≤ c') (more_k : k ≤ k') where
  pub IsLinkedModule-le : (m : Module) → IsLinkedModule f c k m → IsLinkedModule f' c' k' m
  IsLinkedModule-le m l = record {
    to_fns = IsBelow-le f f' m.fn_map more_f l.to_fns;
    to_classes = IsBelow-le c c' m.class_map more_c l.to_classes;
    to_consts = IsBelow-le k k' m.const_map more_k l.to_consts;
  }

  pub AreLinked-le : (ms : List Module) → AreLinked f c k ms → AreLinked f' c' k' ms
  unfolding AreLinked
  AreLinked-le [] l = tt
  AreLinked-le (m ∷ ms) (l, ls) = (IsLinkedModule-le m l, AreLinked-le ms ls)

module _ (f c k : ℕ) where
  pub get-AreLinked :
      (ms : List Module) (i : ℕ) (m : Module)
      → AreLinked f c k ms
      → get_elem? ms i ≡ some m
      → IsLinkedModule f c k m
  unfolding AreLinked
  get-AreLinked [] i m l e = absurd (cc)
  get-AreLinked (x ∷ ms) zero m (l, ls) e = subst (IsLinkedModule f c k) (cc) l
  get-AreLinked (x ∷ ms) (suc i) m (l, ls) e = get-AreLinked ms i m ls e

  pub set-AreLinked :
      (ms : List Module) (i : ℕ) (m : Module)
      → AreLinked f c k ms
      → IsLinkedModule f c k m
      → AreLinked f c k (set ms i m)
  unfolding AreLinked
  set-AreLinked [] i m ls h = tt
  set-AreLinked (x ∷ ms) zero m (l, ls) h = (h, ls)
  set-AreLinked (x ∷ ms) (suc i) m (l, ls) h = (l, set-AreLinked ms i m ls h)
