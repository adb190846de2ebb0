-- ===== src/Parser/Operators/Tree.antt =====
-- Expressions over binary operators as trees, for src/core/parser/impl/expr.c: how a tree is written
-- without parentheses, which trees that writing stands for, and the order in which code is made.
use aument.Prelude.{
  ℕ, suc, ◌≤◌, ◌+◌, ◌≡◌, Bool, List, ◌∷◌, ◌++◌, Option, none, some, if◌then◌else◌, ◌>>=◌,
}
use aument.Lexer.{Token}
use aument.Parser.Operators.{OperatorInfo, get_operator_info}

-- an operand with its tokens, or an operator with its token between two expressions
pub data Expr : Type 0 where
  leaf : Token → List Token → Expr
  node : Expr → OperatorInfo → Token → Expr → Expr

unfoldable pub tokens : Expr → List Token
tokens (leaf t ts) = t ∷ ts
tokens (node l o t r) = tokens l ++ (t ∷ tokens r)

-- the operands and the operators
unfoldable pub size : Expr → ℕ
size (leaf t ts) = 1
size (node l o t r) = size l + suc (size r)

-- An operator at the root binds at least as strongly as k.
unfoldable pub AtLeast : ℕ → Expr → Type 0
AtLeast k (leaf t ts) = Unit
AtLeast k (node l o t r) = k ≤ o.precedence

-- Precedence is respected, and operators of one precedence group to the left.
unfoldable pub IsGrouped : Expr → Type 0
IsGrouped (leaf t ts) = get_operator_info t ≡ none
IsGrouped (node l o t r) =
    (get_operator_info t ≡ some o)
    × IsGrouped l
    × IsGrouped r
    × AtLeast o.precedence l
    × AtLeast (suc o.precedence) r

module _ {S : Type 0} (generate : OperatorInfo → S → Bool × S) where
  unfoldable pub generate? : OperatorInfo → S → Option S
  generate? o p = let made = generate o p in if made.0 then some made.1 else none

  module _ (operand : Token → List Token → S → Option S) where
    -- code for the left operand, for the right operand, and for the operator
    unfoldable pub compile : Expr → S → Option S
    compile (leaf t ts) p = operand t ts p
    compile (node l o t r) p = compile l p >>= λ a. compile r a >>= generate? o
