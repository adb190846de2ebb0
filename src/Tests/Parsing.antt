-- ===== src/Tests/Parsing.antt =====
-- The register allocator and the operator loop of src/core/parser/impl at concrete inputs.
use aument.Prelude.{
  ℕ, ◌<◌, ◌≡◌, refl, Bool, true, false, Option, none, some, List, [], ◌∷◌, ◌++◌, arith,
}
use aument.BitArray.{get, bit, set_at, set_bit}
use aument.Lexer.{TokenType, Token, identifier, operator}
use aument.Parser.Regs.{
  Regs, regs_limit, init, first_free, push, new_reg, OwnedReg, pop_reg_take_ownership,
  del_reg_from_ownership,
}
use aument.Parser.Regs.Reachable.{Reachable, Step, Reachable-IsSound}
use aument.Parser.Regs.Sound.{occurrences, IsSound}
use aument.Parser.Regs.Moves.{init-IsSound, init-IsSound, new_reg-IsSound}
use aument.Parser.Regs.Laws.{new_reg-lowest}
use aument.Parser.Operators.{OperatorInfo, info, get_operator_info, peek, exec_binary_expr}
use aument.Parser.Operators.Tree.{
  Expr, tokens, size, AtLeast, IsGrouped, generate?, compile, leaf, node,
}
use aument.Parser.Operators.Correct.{exec_binary_expr-tokens}
use aument.Parser.Operators.Generate.{Generator}

-- with registers 0 and 1 on the stack
abbrev one_reg : Regs
one_reg = push 0 init

abbrev two_regs : Regs
two_regs = push 1 one_reg

first_reg : new_reg init ≡ some (0, one_reg)
unfolding new_reg first_free get bit
first_reg = refl

second_reg : new_reg one_reg ≡ some (1, two_regs)
unfolding new_reg first_free get bit set_at set_bit
second_reg = refl

one_reg-IsSound : IsSound one_reg
one_reg-IsSound = new_reg-IsSound init init-IsSound one_reg 0 first_reg

new_reg-lowest_example :
    (1 < regs_limit)
    × (get one_reg.used 1 ≡ false)
    × ((k : ℕ) → k < 1 → get one_reg.used k ≡ true)
    × (two_regs.rstack ≡ 1 ∷ one_reg.rstack)
    × IsSound two_regs
new_reg-lowest_example = new_reg-lowest one_reg two_regs 1 one_reg-IsSound second_reg

abbrev owned : OwnedReg
owned = record { reg = 1; is_owned = true }

abbrev plus : OperatorInfo
plus = info (43 ∷ []) 1 10

abbrev times : OperatorInfo
times = info (42 ∷ []) 3 8

abbrev generator : Generator
generator = record { regs = two_regs; bc = [] }

-- A parser that records what it makes: 0 for an operand, the opcode for an operator.
abbrev record_operator : OperatorInfo → List ℕ → Bool × List ℕ
record_operator o p = (true, o.op ∷ p)

abbrev record_operand : Token → List Token → List ℕ → Option (List ℕ)
record_operand t [] p = some (0 ∷ p)
record_operand t (u ∷ us) p = none

abbrev read_one : List Token → List ℕ → Option (List Token × List ℕ)
read_one [] p = none
read_one (t ∷ rest) p = some (rest, 0 ∷ p)

abbrev anything : Token → Bool
anything t = true

read_one-reads :
    (t : Token) (ts rest : List Token) (p q : List ℕ)
    → record_operand t ts p ≡ some q
    → anything (peek rest) ≡ true
    → read_one (t ∷ (ts ++ rest)) p ≡ some (rest, q)
read_one-reads t [] rest p q e f = ground arith
read_one-reads t (u ∷ us) rest p q e f = ground arith

anything-follows : (t : Token) (o : OperatorInfo) → get_operator_info t ≡ some o → anything t ≡ true
anything-follows t o e = refl

abbrev tok : TokenType → ℕ → Token
tok type ch = record { type = type; src = ch ∷ [] }

abbrev operand : ℕ → Expr
operand ch = leaf (tok identifier ch) []

-- a + b * c
abbrev sum : Expr
sum =
    node (operand 97) plus (tok operator 43)
      (node (operand 98) times (tok operator 42) (operand 99))

sum-IsGrouped : IsGrouped sum
unfolding IsGrouped get_operator_info AtLeast
sum-IsGrouped = (refl, refl, (refl, refl, refl, tt, tt), tt, omega arith)

exec_binary_expr-tokens_example :
    exec_binary_expr record_operator read_one 9 (tokens sum ++ (tok operator 59 ∷ [])) []
    ≡ some (tok operator 59 ∷ [], 10 ∷ (8 ∷ (0 ∷ (0 ∷ (0 ∷ [])))))
unfolding size get_operator_info compile generate?
exec_binary_expr-tokens_example =
    exec_binary_expr-tokens record_operator record_operand read_one anything read_one-reads
      anything-follows sum 9 (tok operator 59 ∷ []) [] (10 ∷ (8 ∷ (0 ∷ (0 ∷ (0 ∷ [])))))
      (omega arith) sum-IsGrouped refl refl refl

-- a register allocated, taken, and given back
abbrev taken_one : Regs
taken_one = record init {
  used = set_at init.used 0;
  pinned = set_at init.pinned 0;
  num_registers = 1;
}

Reachable-IsSound_example :
    IsSound (del_reg_from_ownership taken_one (record { reg = 0; is_owned = true }))
unfolding new_reg first_free get bit pop_reg_take_ownership occurrences
Reachable-IsSound_example = Reachable-IsSound (
    Reachable.after {p = taken_one}
      (Reachable.after {p = push 0 init}
        (Reachable.after {p = init} Reachable.start
          (Step.allocated {p = init} {q = push 0 init} 0 refl))
        (Step.owned {p = push 0 init} {q = taken_one} (record { reg = 0; is_owned = true }) refl))
      (Step.given_back {p = taken_one} (record { reg = 0; is_owned = true }) (omega arith) refl
        refl))
