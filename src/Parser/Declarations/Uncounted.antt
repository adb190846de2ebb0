-- ===== src/Parser/Declarations/Uncounted.antt =====
-- The arguments of a function and the locals of its frame: au_parser_exec_func_statement of
-- src/core/parser/impl/stmt.c gives an argument a local without au_parser_bump_local.
use aument.Prelude.{ℕ, ◌≡◌, refl, sym, ◌∙◌, Option, none, some, List, Bool-cases, inl, inr, arith}
use aument.Lexer.{Token}
use aument.Parser.Program.{Class}
use aument.Parser.State.{Parser, ok, peek_token, next_token, keyword_cmp, bump_local}
use aument.Parser.State.Ensures.{Relation, Ensures, Ensures-total, ensures_rules, bind-eq-ok}
use aument.Parser.Expressions.Primitives.{Ensures-option_case, fold_list-Ensures}
use aument.Parser.Expressions.Ignoring.{ok-injective}
use aument.Parser.Declarations.Function.{
  word_underscore, declare_arg, place_arg, name_self, exec_self, exec_parameter, read_parameters,
  exec_parameters, function_parser,
}

-- as many locals in the frame as before
abbrev uncounted : Relation
uncounted = record {
  rel = λ p q. q.max_locals ≡ p.max_locals;
  reflexive = λ p. refl;
  transitive = λ p q r h k. k ∙ h;
}

peek_token-uncounted : Ensures uncounted peek_token
peek_token-uncounted = Ensures-total peek_token _ (λ p. p) (λ p. refl) (λ p. refl)

next_token-uncounted : Ensures uncounted next_token
next_token-uncounted = Ensures-total next_token _ _ (λ p. refl) (λ p. refl)

declare_arg-uncounted : (name : List ℕ) (local : ℕ) → Ensures uncounted (declare_arg name local)
unfolding declare_arg
declare_arg-uncounted name local = Ensures-total _ _ _ (λ p. refl) (λ p. refl)

place_arg-uncounted : Ensures uncounted place_arg
unfolding place_arg
place_arg-uncounted = Ensures-total _ _ _ (λ p. refl) (λ p. refl)

ruleset uncounted_rules = (
  ensures_rules, Ensures-option_case, peek_token-uncounted, next_token-uncounted,
  declare_arg-uncounted, place_arg-uncounted,
)

exec_parameter-uncounted : (num_args : ℕ) → Ensures uncounted (exec_parameter num_args)
unfolding exec_parameter
exec_parameter-uncounted num_args = search uncounted_rules depth 40

abbrev counted_self : Option Token → ℕ
counted_self none = 0
counted_self (some tok) = 1

read_parameters-uncounted : (fuel num_self : ℕ) → Ensures uncounted (read_parameters fuel num_self)
unfolding read_parameters
read_parameters-uncounted fuel num_self =
    search (uncounted_rules, exec_parameter-uncounted, fold_list-Ensures) depth 30

exec_self-counted :
    (self_tok : Option Token) (p q : Parser) (num_self : ℕ)
    → p.max_locals ≡ 0
    → p.local_placement ≡ 0
    → exec_self self_tok p ≡ ok (num_self, q)
    → q.max_locals ≡ counted_self self_tok
unfolding exec_self name_self declare_arg bump_local
exec_self-counted none p q num_self peak placed e = cc
exec_self-counted (some tok) p q num_self peak placed e =
    elim (Bool-cases (keyword_cmp tok word_underscore)) [
      | inl at ↦
          let same = ok-injective 1 num_self _ q (rw at at e) in
          rw (sym same, peak, placed) (omega arith)
      | inr other ↦
          let same = ok-injective 1 num_self _ q (rw other at e) in
          rw (sym same, peak, placed) (omega arith)
    ]

-- However many arguments a function has, when its head is read the locals of its frame are none, or one
-- when it has a receiver.
pub exec_parameters-uncounted :
    (fuel : ℕ) (self_tok : Option Token) (p q : Parser) (name : List ℕ) (func_idx : ℕ)
    (interface : Option Class) (num_args : ℕ)
    → exec_parameters fuel self_tok (function_parser p name func_idx interface) ≡ ok (num_args, q)
    → q.max_locals ≡ counted_self self_tok
unfolding exec_parameters
exec_parameters-uncounted fuel self_tok p q name func_idx interface num_args e =
    let start = function_parser p name func_idx interface in
    let (num_self, r, first, rest) =
      bind-eq-ok (exec_self self_tok start) (read_parameters fuel) num_args q e in
    (read_parameters-uncounted fuel num_self).at r q num_args rest
    ∙ exec_self-counted self_tok start r num_self refl refl first
