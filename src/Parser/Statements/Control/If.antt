-- ===== src/Parser/Statements/Control/If.antt =====
-- The code of an if: au_parser_exec_if_statement of src/core/parser/impl/stmt.c.
use aument.Prelude.{
  ℕ, ◌+◌, ◌-◌, ◌/◌, ◌*◌, ◌^◌, ◌≡◌, refl, inl, inr, sym, ap, ◌∙◌, Bool, true, false, ◌&&◌, ◌||◌,
  some, List, [], ◌∷◌, ◌++◌, ltb, if◌then◌else◌, length, arith, Bool-cases, length-append,
  append_assoc, append-nil, map,
}
use aument.Parser.Regs.{cached_reg_none, Regs, pop_reg, flush_cached_regs}
use aument.Parser.Emit.{op_jnif}
use aument.Parser.State.{
  Parser, ok, failed, bytecode_gen, M, with_code, pop, first, rest_of, keyword_cmp,
}
use aument.Parser.Statements.Control.{exec_if, exec_condition, exec_tail, exec_else, word_else}
use aument.Parser.Statements.Control.Layout.{jump, patch_lem}
use aument.Parser.Statements.Control.While.{after_condition, flushed}
use aument.Parser.Statements.Control.Leave.{
  leave, leave_size, returns, length-leave, emit_leave_lem, patch_leave_lem,
}

-- the code of an if: the condition's code and jump, the block with its leaving jump, and the tail
abbrev pub if_code : List ℕ → ℕ → List ℕ → Bool → ℕ → ℕ → List ℕ → List ℕ
if_code front r body b over leaving tail =
    front ++ (jump op_jnif r over ++ (body ++ (leave b leaving ++ tail)))

if_code-append :
    (front body tail tail' : List ℕ) (b : Bool) (r over leaving : ℕ)
    → if_code front r body b over leaving tail ++ tail'
      ≡ if_code front r body b over leaving (tail ++ tail')
if_code-append front body tail tail' b r over leaving = simp append_assoc

length-if_code :
    (front body tail : List ℕ) (b : Bool) (r over leaving : ℕ)
    → length (if_code front r body b over leaving tail)
      ≡ length front + 4 + length body + 4 * leave_size b + length tail
length-if_code front body tail b r over leaving = omega (
  arith,
  length-append front (jump op_jnif r over ++ (body ++ (leave b leaving ++ tail))),
  length-append body (leave b leaving ++ tail),
  length-append (leave b leaving) tail,
  length-leave b leaving,
)

map-constant : (c d : ℕ) (xs : List ℕ) → map (λ x. c) (map (λ x. d) xs) ≡ map (λ x. c) xs
map-constant c d [] = refl
map-constant c d (x ∷ xs) = ap (λ z. c ∷ z) (map-constant c d xs)

and_true : (x : Bool) → (x && true) ≡ x
and_true true = refl
and_true false = refl

flush-flush : (regs : Regs) → flush_cached_regs (flush_cached_regs regs) ≡ flush_cached_regs regs
unfolding flush_cached_regs
flush-flush regs =
    let same = map-constant cached_reg_none cached_reg_none regs.local_to_reg in rw same refl

-- a jump to the end from just before it
always : (b : Bool) → (b || ltb 1 (2 ^ 16)) ≡ true
always true = refl
always false = refl

-- Without `else`, the condition's jump goes to the end of the code.
exec_tail-none :
    (block else_if : M (Unit {0})) (p : Parser) (front body : List ℕ) (b : Bool) (r k : ℕ)
    → keyword_cmp (first p.input).token word_else ≡ false
    → p.out.bc ≡ if_code front r body b 0 0 []
    → length body ≡ 4 * k
    → exec_tail block else_if (length front) p ≡ (
        if ltb (k + 1 + leave_size b) (2 ^ 16)
        then ok (tt, with_code (if_code front r body b (k + 1 + leave_size b) 0 []) p)
        else failed bytecode_gen)
unfolding exec_tail
exec_tail-none block else_if p front body b r k no_else code size =
    let total : length p.out.bc ≡ length front + 4 + 4 * k + 4 * leave_size b =
      rw code (omega (arith, length-if_code front body [] b r 0 0)) in
    let over : (length p.out.bc - length front) / 4 ≡ k + 1 + leave_size b = omega arith in
    rw (no_else, over)
      (patch_lem (length front + 2) _ p front (body ++ (leave b 0 ++ [])) op_jnif r 0 0 refl code)

-- With `else`, it goes to the start of the else part, which ends with a jump to the end of the code, if
-- its last instruction does not return.
exec_tail-else :
    (block else_if : M (Unit {0})) (p q : Parser) (front body rest : List ℕ) (b b' : Bool) (r k : ℕ)
    → keyword_cmp (first p.input).token word_else ≡ true
    → p.out.bc ≡ if_code front r body b 0 0 []
    → length body ≡ 4 * k
    → exec_else block else_if (record p { input = rest_of p.input }) ≡ ok (tt, q)
    → q.out.bc ≡ p.out.bc ++ rest
    → returns q ≡ b'
    → exec_tail block else_if (length front) p ≡ (
        if ltb (k + 1 + leave_size b) (2 ^ 16)
        then ok (
          tt,
          with_code
              (if_code front r body b (k + 1 + leave_size b) 0 (rest ++ leave b' 1))
              (flushed q),
        )
        else failed bytecode_gen)
unfolding exec_tail
exec_tail-else block else_if p q front body rest b b' r k is_else code size ran rest_code ends =
    let total : length p.out.bc ≡ length front + 4 + 4 * k + 4 * leave_size b =
      rw code (omega (arith, length-if_code front body [] b r 0 0)) in
    let over : (length p.out.bc - length front) / 4 ≡ k + 1 + leave_size b = omega arith in
    let left = emit_leave_lem b' (flushed q) ends in
    let code' : q.out.bc ++ (leave b' 0 ++ []) ≡ q.out.bc ++ leave b' 0 = rw append-nil refl in
    let patched =
      patch_leave_lem b' 1 (with_code (q.out.bc ++ leave b' 0) (flushed q)) q.out.bc []
        (length q.out.bc) refl (sym code') refl in
    let whole : q.out.bc ++ (leave b' 1 ++ []) ≡ if_code front r body b 0 0 (rest ++ leave b' 1) =
      rw (append-nil, rest_code, code)
        (append_assoc (if_code front r body b 0 0 []) rest (leave b' 1)
          ∙ if_code-append front body [] (rest ++ leave b' 1) b r 0 0) in
    let last =
      patch_lem (length front + 2) (k + 1 + leave_size b)
        (with_code (q.out.bc ++ (leave b' 1 ++ [])) (flushed q)) front
        (body ++ (leave b 0 ++ (rest ++ leave b' 1))) op_jnif r 0 0 refl whole in
    rw (is_else, ran)
      (rw (flush-flush q.out.regs) (rw left (rw patched (rw (always b') (rw over last)))))

-- What the condition and the block of an if do, and where its rest starts.
module _ (exec_expr block : M (Unit {0})) (p q1 q2 : Parser) (regs : Regs) (r k : ℕ)
    (cond body : List ℕ) (b : Bool) (cond_run : exec_expr (flushed p) ≡ ok (tt, q1))
    (cond_code : q1.out.bc ≡ p.out.bc ++ cond)
    (popped : pop_reg (flush_cached_regs q1.out.regs) ≡ some (r, regs))
    (body_run : block (after_condition q1 r regs) ≡ ok (tt, q2))
    (body_code : q2.out.bc ≡ (q1.out.bc ++ jump op_jnif r 0) ++ body)
    (body_size : length body ≡ 4 * k) (ends : returns q2 ≡ b) where
  abbrev pub after_block : Parser
  after_block = with_code (q2.out.bc ++ leave b 0) (flushed q2)

  after_block-code : after_block.out.bc ≡ if_code (p.out.bc ++ cond) r body b 0 0 []
  after_block-code = rw (body_code, cond_code) (simp (append_assoc, append-nil))

  exec_if-exec_tail :
      (else_if : M (Unit {0})) (q : Parser) (tail : List ℕ) (t : ℕ)
      → exec_tail block else_if (length (p.out.bc ++ cond)) after_block ≡ (
          if ltb (k + 1 + leave_size b) (2 ^ 16)
          then ok
              (tt, with_code (if_code (p.out.bc ++ cond) r body b (k + 1 + leave_size b) 0 tail) q)
          else failed bytecode_gen)
      → length tail ≡ 4 * t
      → exec_if exec_expr block else_if p ≡ (
          if ltb (k + 1 + leave_size b) (2 ^ 16) && (b || ltb (t + 1) (2 ^ 16))
          then ok (
            tt,
            with_code (if_code (p.out.bc ++ cond) r body b (k + 1 + leave_size b) (t + 1) tail) q,
          )
          else failed bytecode_gen)
  unfolding exec_if exec_condition pop
  exec_if-exec_tail else_if q tail t tail_run tail_size =
      let front = p.out.bc ++ cond in
      let over = k + 1 + leave_size b in
      let left = emit_leave_lem b (flushed q2) ends in
      let before = front ++ (jump op_jnif r over ++ body) in
      let regroup : (n : ℕ) → before ++ (leave b n ++ tail) ≡ if_code front r body b over n tail =
        λ n. simp append_assoc in
      let place : length q2.out.bc ≡ length before =
        rw (body_code, cond_code)
          (omega (
            arith,
            length-append (front ++ jump op_jnif r 0) body,
            length-append front (jump op_jnif r 0),
            length-append front (jump op_jnif r over ++ body),
          )) in
      let patched =
        patch_leave_lem b (t + 1) (with_code (if_code front r body b over 0 tail) q) before tail
          (length q2.out.bc) place (sym (regroup 0)) (omega arith) in
      let at : length q1.out.bc ≡ length front = ap length cond_code in
      elim (Bool-cases (ltb over (2 ^ 16))) [
        | inl small ↦ rw cond_run (
            rw popped (
              rw body_run
                (rw (left, at) (rw tail_run (rw small (rw patched (rw (regroup (t + 1)) refl)))))))
        | inr large ↦
            rw cond_run (rw popped (rw body_run (rw (left, at) (rw tail_run (rw large refl)))))
      ]

  -- An if without `else`, whose condition makes the code `cond` with its value in register r, and whose
  -- block makes the k instructions `body`: the condition's jump goes behind the block, and so does the jump
  -- at the block's end, which is left out when the block's last instruction returns. An offset
  -- of 2 ^ 16 or more is refused.
  pub exec_if-code :
      (else_if : M (Unit {0}))
      → keyword_cmp (first q2.input).token word_else ≡ false
      → exec_if exec_expr block else_if p ≡ (
          if ltb (k + 1 + leave_size b) (2 ^ 16)
          then ok (
            tt,
            with_code
                (if_code (p.out.bc ++ cond) r body b (k + 1 + leave_size b) 1 [])
                (flushed q2),
          )
          else failed bytecode_gen)
  exec_if-code else_if no_else =
      let tail =
        exec_tail-none block else_if after_block (p.out.bc ++ cond) body b r k no_else
          after_block-code body_size in
      exec_if-exec_tail else_if (flushed q2) [] 0 tail refl
      ∙ rw (always b) (rw (and_true (ltb (k + 1 + leave_size b) (2 ^ 16))) refl)

  -- With `else`.
  pub exec_if-else-code :
      (else_if : M (Unit {0})) (q3 : Parser) (rest : List ℕ) (n : ℕ) (b' : Bool)
      → keyword_cmp (first q2.input).token word_else ≡ true
      → exec_else block else_if (record after_block { input = rest_of q2.input }) ≡ ok (tt, q3)
      → q3.out.bc ≡ after_block.out.bc ++ rest
      → length rest ≡ 4 * n
      → returns q3 ≡ b'
      → exec_if exec_expr block else_if p ≡ (
          if ltb (k + 1 + leave_size b) (2 ^ 16) && (b || ltb (n + leave_size b' + 1) (2 ^ 16))
          then ok (
            tt,
            with_code
                (if_code
                  (p.out.bc ++ cond)
                  r
                  body
                  b
                  (k + 1 + leave_size b)
                  (n + leave_size b' + 1)
                  (rest ++ leave b' 1))
                (flushed q3),
          )
          else failed bytecode_gen)
  exec_if-else-code else_if q3 rest n b' is_else ran rest_code rest_size rest_ends =
      let tail =
        exec_tail-else block else_if after_block q3 (p.out.bc ++ cond) body rest b b' r k is_else
          after_block-code body_size ran rest_code rest_ends in
      let size : length (rest ++ leave b' 1) ≡ 4 * (n + leave_size b') =
        omega (arith, length-append rest (leave b' 1), length-leave b' 1) in
      exec_if-exec_tail else_if (flushed q3) (rest ++ leave b' 1) (n + leave_size b') tail size
