-- ===== src/Parser/Operators.antt =====
-- The operator-precedence loop au_parser_exec_binary_expr of src/core/parser/impl/expr.c. What it does
-- to the parser stands in two parameters: `generate` for operator_info_generate and `exec_unary`
-- for au_parser_exec_unary_expr, which reads tokens. The parser's state is any type S.
pub mod Tree
pub mod Correct
pub mod Generate
use aument.Prelude.{
  ℕ, zero, suc, Bool, true, false, ◌||◌, ◌&&◌, List, [], ◌∷◌, Option, none, some, if◌then◌else◌,
  leb, ltb, ◌>>=◌,
}
use aument.Lexer.{Token, TokenType, operator, eof_token, bytes_eq}

pub data Assoc : Type 0 where
  left : Assoc
  right : Assoc

pub record OperatorInfo : Type 0 where
  pub precedence : ℕ
  pub assoc : Assoc
  pub src : List ℕ
  pub op : ℕ

abbrev pub info : List ℕ → ℕ → ℕ → OperatorInfo
info src precedence op = record { precedence = precedence; assoc = left; src = src; op = op }

-- the source, the precedence and the opcode's number
abbrev pub infos : List OperatorInfo
infos =
    info (62 ∷ []) 0 17
    ∷ (info (62 ∷ (61 ∷ [])) 0 19
        ∷ (info (60 ∷ []) 0 16
            ∷ (info (60 ∷ (61 ∷ [])) 0 18
                ∷ (info (61 ∷ (61 ∷ [])) 0 14
                    ∷ (info (33 ∷ (61 ∷ [])) 0 15
                        ∷ (info (45 ∷ []) 1 11
                            ∷ (info (43 ∷ []) 1 10
                                ∷ (info (62 ∷ (62 ∷ [])) 2 53
                                    ∷ (info (60 ∷ (60 ∷ [])) 2 52
                                        ∷ (info (47 ∷ []) 3 9
                                            ∷ (info (42 ∷ []) 3 8
                                                ∷ (info (37 ∷ []) 3 12
                                                    ∷ (info (94 ∷ []) 4 50
                                                        ∷ (info (38 ∷ []) 4 51
                                                            ∷ (info (124 ∷ []) 4 49
                                                            ∷ [])))))))))))))))

-- the loop of get_operator_info
abbrev pub find_info : List OperatorInfo → List ℕ → Option OperatorInfo
find_info [] src = none
find_info (i ∷ rest) src = if bytes_eq src i.src then some i else find_info rest src

abbrev pub operator_src : TokenType → List ℕ → Option OperatorInfo
operator_src operator src = find_info infos src
operator_src _ src = none

unfoldable pub get_operator_info : Token → Option OperatorInfo
get_operator_info tok = operator_src tok.type tok.src

abbrev pub peek : List Token → Token
peek [] = eof_token
peek (t ∷ rest) = t

abbrev pub next : List Token → List Token
next [] = []
next (t ∷ rest) = rest

-- whether the operator on the stack is generated before the current one is pushed
abbrev pub yields : OperatorInfo → OperatorInfo → Bool
yields cur_op top_op = elim cur_op.assoc [
  | left ↦ leb cur_op.precedence top_op.precedence
  | right ↦ ltb cur_op.precedence top_op.precedence
]

module _ {S : Type 0} (generate : OperatorInfo → S → Bool × S) where
  -- the inner loop: the operators left on the stack, and the parser; `none` is a result 0
  unfoldable pub reduce : OperatorInfo → List OperatorInfo → S → Option (List OperatorInfo × S)
  reduce cur_op [] p = some ([], p)
  reduce cur_op (top_op ∷ rest) p =
      let made = generate top_op p in
      let more = reduce cur_op rest made.1 in
      if yields cur_op top_op then (if made.0 then more else none) else some (top_op ∷ rest, p)

  -- the last loop, which does not look at the result of generate
  unfoldable pub drain : List OperatorInfo → S → S
  drain [] p = p
  drain (top_op ∷ rest) p = drain rest (generate top_op p).1

  module _ (exec_unary : List Token → S → Option (List Token × S)) where
    -- `while (1)` with at most n turns; `missing` is 1 - balance
    unfoldable pub exec_loop : ℕ → List OperatorInfo → ℕ → List Token → S → Option (List Token × S)
    exec_loop zero stack missing l p = none
    exec_loop (suc n) stack missing l p = elim (get_operator_info (peek l)) [
      | some cur_op ↦
          reduce cur_op stack p >>= λ m. exec_loop n (cur_op ∷ m.0) (suc missing) (next l) m.1
      | none ↦ elim missing [
        | zero ↦ some (l, drain stack p)
        | suc k ↦ exec_unary l p >>= λ m. exec_loop n stack k m.0 m.1
      ]
    ]

    unfoldable pub exec_binary_expr : ℕ → List Token → S → Option (List Token × S)
    exec_binary_expr n l p = exec_loop n [] 1 l p
