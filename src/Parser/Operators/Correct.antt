-- ===== src/Parser/Operators/Correct.antt =====
-- The loop of src/core/parser/impl/expr.c on the tokens of a tree.
use aument.Prelude.{
  ℕ, suc, ◌+◌, ◌-◌, ◌≤◌, ◌<◌, ◌≡◌, refl, sym, ◌∙◌, inl, inr, Bool, true, Option, none, some, List,
  [], ◌∷◌, ◌++◌, arith, Bool-cases, ◌>>=◌, bind_parts, append-nil, append_assoc,
}
use mathlib.Core.Option.{some-injective}
use aument.Lexer.{TokenType, Token, operator}
use aument.Parser.Operators.{
  exec_loop, exec_binary_expr, OperatorInfo, infos, find_info, operator_src, get_operator_info,
  peek, reduce, drain, left,
}
use aument.Parser.Operators.Tree.{
  Expr, tokens, size, AtLeast, IsGrouped, generate?, compile, leaf, node,
}

-- the operators on the right spine, the last one first
unfoldable right_ops : Expr → List OperatorInfo
right_ops (leaf t ts) = []
right_ops (node l o t r) = right_ops r ++ (o ∷ [])

-- every operator of the list binds at least as strongly as k
unfoldable AllAtLeast : ℕ → List OperatorInfo → Type 0
AllAtLeast k [] = Unit
AllAtLeast k (o ∷ rest) = (k ≤ o.precedence) × (o.assoc ≡ left) × AllAtLeast k rest

-- the top of the operator stack binds less strongly than k
unfoldable Below : ℕ → List OperatorInfo → Type 0
Below k [] = Unit
Below k (o ∷ rest) = o.precedence < k

AtLeast-weaken : (j k : ℕ) (e : Expr) → j ≤ k → AtLeast k e → AtLeast j e
unfolding AtLeast
AtLeast-weaken j k (leaf t ts) h a = tt
AtLeast-weaken j k (node l o t r) h a = omega arith

Below-weaken : (k j : ℕ) (st : List OperatorInfo) → k ≤ j → Below k st → Below j st
unfolding Below
Below-weaken k j [] h b = tt
Below-weaken k j (o ∷ rest) h b = omega arith

Below-self : (o : OperatorInfo) (st : List OperatorInfo) → Below (suc o.precedence) (o ∷ st)
unfolding Below
Below-self o st = omega arith

AtLeast-zero : (e : Expr) → AtLeast 0 e
unfolding AtLeast
AtLeast-zero (leaf t ts) = tt
AtLeast-zero (node l o t r) = omega arith

Below-none : (k : ℕ) → Below k []
unfolding Below
Below-none k = tt

AllAtLeast-append :
    (k : ℕ) (xs : List OperatorInfo) (o : OperatorInfo)
    → AllAtLeast k xs
    → k ≤ o.precedence
    → o.assoc ≡ left
    → AllAtLeast k (xs ++ (o ∷ []))
unfolding AllAtLeast
AllAtLeast-append k [] o a h c = (h, c, tt)
AllAtLeast-append k (x ∷ xs) o (f, g, a) h c = (f, g, AllAtLeast-append k xs o a h c)

find_info-left : (src : List ℕ) (o : OperatorInfo) → find_info infos src ≡ some o → o.assoc ≡ left
find_info-left src o e = ground arith

operator_src-left :
    (t : TokenType) (src : List ℕ) (o : OperatorInfo) → operator_src t src ≡ some o → o.assoc ≡ left
operator_src-left operator src o e = find_info-left src o e
operator_src-left _ src o e = ground arith

get_operator_info-left :
    (t : Token) (o : OperatorInfo) → get_operator_info t ≡ some o → o.assoc ≡ left
unfolding get_operator_info
get_operator_info-left t o e = operator_src-left t.type t.src o e

right_ops-AllAtLeast : (k : ℕ) (e : Expr) → IsGrouped e → AtLeast k e → AllAtLeast k (right_ops e)
unfolding right_ops AllAtLeast AtLeast IsGrouped
right_ops-AllAtLeast k (leaf t ts) g a = tt
right_ops-AllAtLeast k (node l o t r) (e, gl, gr, al, ar) a =
    AllAtLeast-append k (right_ops r) o
      (right_ops-AllAtLeast k r gr (AtLeast-weaken k (suc o.precedence) r (omega arith) ar)) a
      (get_operator_info-left t o e)

module _ {S : Type 0} (generate : OperatorInfo → S → Bool × S) where
  unfoldable finish : List OperatorInfo → S → Option S
  finish [] p = some p
  finish (o ∷ rest) p = generate? generate o p >>= finish rest

  finish-append :
      (xs : List OperatorInfo) (o : OperatorInfo) (p : S)
      → finish (xs ++ (o ∷ [])) p ≡ (finish xs p >>= generate? generate o)
  unfolding finish
  finish-append [] o p = ground arith
  finish-append (x ∷ xs) o p =
      elim (generate? generate x p)
        as (λ m. (m >>= finish (xs ++ (o ∷ []))) ≡ ((m >>= finish xs) >>= generate? generate o)) [
          | none ↦ refl
          | some q ↦ finish-append xs o q
        ]

  generate-made :
      (o : OperatorInfo) (p q : S) → generate? generate o p ≡ some q → generate o p ≡ (true, q)
  unfolding generate?
  generate-made o p q e = elim (Bool-cases (generate o p).0) [
    | inl made ↦ ground arith
    | inr refused ↦ ground arith
  ]

  drain-finish : (xs : List OperatorInfo) (p q : S) → finish xs p ≡ some q → drain generate xs p ≡ q
  unfolding finish drain
  drain-finish [] p q e = some-injective p q e
  drain-finish (x ∷ xs) p q e =
      let (m, first, rest) = bind_parts (generate? generate x p) (finish xs) q e in
      let made = generate-made x p m first in rw made (drain-finish xs m q rest)

  -- The current operator has every operator of xs made, and stops at the stack below.
  reduce-all :
      (o : OperatorInfo) (xs st : List OperatorInfo) (p q : S)
      → o.assoc ≡ left
      → AllAtLeast o.precedence xs
      → Below o.precedence st
      → finish xs p ≡ some q
      → reduce generate o (xs ++ st) p ≡ some (st, q)
  unfolding finish reduce AllAtLeast Below
  reduce-all o [] [] p q c a b e = rw (some-injective p q e) refl
  reduce-all o [] (s ∷ st) p q c a b e = ground arith
  reduce-all o (x ∷ xs) st p q c (low, _, a) b e =
      let (m, first, rest) = bind_parts (generate? generate x p) (finish xs) q e in
      let made = generate-made x p m first in
      let more = reduce-all o xs st m q c a b rest in rw (made, c) (ground arith)

module _ {S : Type 0} (generate : OperatorInfo → S → Bool × S)
    (operand : Token → List Token → S → Option S)
    (exec_unary : List Token → S → Option (List Token × S)) (follows : Token → Bool)
    (reads : (t : Token) (ts rest : List Token) (p q : S)
      → operand t ts p ≡ some q
      → follows (peek rest) ≡ true
      → exec_unary (t ∷ (ts ++ rest)) p ≡ some (rest, q))
    (operators_follow : (t : Token) (o : OperatorInfo)
      → get_operator_info t ≡ some o
      → follows t ≡ true) where
  -- the code made before the right spine's operators are
  unfoldable compile_left : Expr → S → Option S
  compile_left (leaf t ts) p = operand t ts p
  compile_left (node l o t r) p = compile generate operand l p >>= compile_left r

  compile-split :
      (e : Expr) (p : S)
      → compile generate operand e p ≡ (compile_left e p >>= finish generate (right_ops e))
  unfolding compile compile_left right_ops finish
  compile-split (leaf t ts) p = elim (operand t ts p) as (λ m. m ≡ (m >>= some)) [
    | none ↦ refl
    | some q ↦ refl
  ]
  compile-split (node l o t r) p =
      elim (compile generate operand l p)
        as (λ m.
          (m >>= λ a. compile generate operand r a >>= generate? generate o)
          ≡ ((m >>= compile_left r) >>= finish generate (right_ops r ++ (o ∷ [])))) [
            | none ↦ refl
            | some a ↦
                rw (compile-split r a)
                  (elim (compile_left r a)
                    as (λ m.
                      ((m >>= finish generate (right_ops r)) >>= generate? generate o)
                      ≡ (m >>= finish generate (right_ops r ++ (o ∷ [])))) [
                        | none ↦ refl
                        | some b ↦ sym (finish-append generate (right_ops r) o b)
                      ])
          ]

  -- Reading a tree leaves the operators of its right spine on the stack.
  exec_loop-reads :
      (e : Expr) (k n : ℕ) (st : List OperatorInfo) (rest : List Token) (p q : S)
      → IsGrouped e
      → AtLeast k e
      → Below k st
      → compile_left e p ≡ some q
      → follows (peek rest) ≡ true
      → exec_loop generate exec_unary (size e + n) st 1 (tokens e ++ rest) p
        ≡ exec_loop generate exec_unary n (right_ops e ++ st) 0 rest q
  unfolding exec_loop compile_left right_ops tokens size IsGrouped AtLeast
  exec_loop-reads (leaf t ts) k n st rest p q g a b e f =
      let turns : size (leaf t ts) + n ≡ suc n = omega arith in
      rw (turns, exec_loop, g, reads t ts rest p q e f) refl
  exec_loop-reads (node l o t r) k n st rest p q (e, gl, gr, al, ar) a b c f =
      let (m, first, second) = bind_parts (compile generate operand l p) (compile_left r) q c in
      let (m', lefts, ops) =
        bind_parts (compile_left l p) (finish generate (right_ops l)) m
          (sym (compile-split l p) ∙ first) in
      let turns : size l + suc (size r) + n ≡ size l + suc (size r + n) = omega arith in
      let read_l =
        exec_loop-reads l o.precedence (suc (size r + n)) st (t ∷ (tokens r ++ rest)) p m' gl al
          (Below-weaken k o.precedence st a b) lefts (operators_follow t o e) in
      let step =
        reduce-all generate o (right_ops l) st m' m (get_operator_info-left t o e)
          (right_ops-AllAtLeast o.precedence l gl al) (Below-weaken k o.precedence st a b) ops in
      let below = Below-self o st in
      let read_r = exec_loop-reads r (suc o.precedence) n (o ∷ st) rest m q gr ar below second f in
      rw
        (
          append_assoc (tokens l) (t ∷ tokens r) rest,
          append_assoc (right_ops r) (o ∷ []) st,
          turns,
          read_l,
          exec_loop,
          e,
          step,
        )
        read_r

  -- When compiling a grouped tree succeeds, the loop, run on the tree's tokens with enough turns,
  -- has the result of compiling the tree, and leaves the tokens after it, whose first one can
  -- follow an operand and is not an operator.
  pub exec_binary_expr-tokens :
      (e : Expr) (n : ℕ) (rest : List Token) (p q : S)
      → size e < n
      → IsGrouped e
      → follows (peek rest) ≡ true
      → get_operator_info (peek rest) ≡ none
      → compile generate operand e p ≡ some q
      → exec_binary_expr generate exec_unary n (tokens e ++ rest) p ≡ some (rest, q)
  unfolding exec_binary_expr exec_loop
  exec_binary_expr-tokens e n rest p q enough g f last c =
      let (m, lefts, ops) =
        bind_parts (compile_left e p) (finish generate (right_ops e)) q
          (sym (compile-split e p) ∙ c) in
      let turns : n ≡ size e + suc (n - size e - 1) = omega arith in
      let read =
        exec_loop-reads e 0 (suc (n - size e - 1)) [] rest p m g (AtLeast-zero e) (Below-none 0)
          lefts f in
      rw (turns, read)
        (rw (append-nil (right_ops e))
          (rw (exec_loop, last, drain-finish generate (right_ops e) m q ops) refl))
