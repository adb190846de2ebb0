-- ===== src/Parser/Logical/Code.antt =====
-- The code that au_parser_exec_logical_expr of src/core/parser/impl/expr.c makes for `&&`.
use aument.Prelude.{
  ℕ, ◌+◌, ◌-◌, ◌/◌, ◌%◌, ◌^◌, ◌≡◌, refl, sym, ap, ◌∙◌, some, List, [], ◌∷◌, ◌++◌, arith, length,
  length-append, append_assoc,
}
use aument.Parser.Regs.{Regs, pop_reg, flush_cached_regs}
use aument.Parser.Operators.Generate.{Generator}
use aument.Parser.Emit.{replace_bc_u16, op_mov_bool, op_jnif, emit_jnif}
use aument.Parser.Emit.Patch.{replace_at}
use aument.Parser.Logical.{patch_jumps, finish_and}

-- the code after the right operand, with the offset of its jump
abbrev pub and_tail : ℕ → ℕ → ℕ → List ℕ
and_tail r reg offset = op_jnif ∷ (r ∷ (offset ∷ (0 ∷ (op_mov_bool ∷ (1 ∷ (reg ∷ (0 ∷ [])))))))

patch_jumps-code :
    (before right bc : List ℕ) (a b r reg right_len low high : ℕ)
    → bc ≡ before ++ (a ∷ (b ∷ (0 ∷ (0 ∷ (right ++ and_tail r reg 0)))))
    → right_len ≡ length before + 4 + length right
    → low ≡ (length right + 12) / 4 % 2 ^ 16 % 256
    → high ≡ (length right + 12) / 4 % 2 ^ 16 / 256 % 256
    → patch_jumps (length before) right_len bc
      ≡ some (before ++ (a ∷ (b ∷ (low ∷ (high ∷ (right ++ and_tail r reg 2))))))
unfolding patch_jumps
patch_jumps-code before right bc a b r reg right_len low high same size is_low is_high =
    let front = a ∷ (b ∷ (low ∷ (high ∷ right))) in
    let total : length bc ≡ length before + length right + 12 =
      let x = length-append before (a ∷ (b ∷ (0 ∷ (0 ∷ (right ++ and_tail r reg 0))))) in
      let y = length-append right (and_tail r reg 0) in rw same (omega arith) in
    let first : (length bc - length before) / 4 % 2 ^ 16 ≡ (length right + 12) / 4 % 2 ^ 16 =
      rw total (omega arith) in
    let second : (length bc - right_len) / 4 % 2 ^ 16 ≡ 2 = rw (total, size) (omega arith) in
    let once : replace_bc_u16 (length before + 2) ((length bc - length before) / 4 % 2 ^ 16) bc
        ≡ some (before ++ (a ∷ (b ∷ (low ∷ (high ∷ (right ++ and_tail r reg 0)))))) =
      rw (first, is_low, is_high)
        (replace_at (length before + 2) ((length right + 12) / 4 % 2 ^ 16) bc before
          (right ++ and_tail r reg 0) a b 0 0 refl same) in
    let place : right_len + 2 ≡ length (before ++ front) + 2 =
      let x = length-append before front in rw size (omega arith) in
    let twice =
      replace_at (right_len + 2) 2
        (before ++ (a ∷ (b ∷ (low ∷ (high ∷ (right ++ and_tail r reg 0)))))) (before ++ front)
        (op_mov_bool ∷ (1 ∷ (reg ∷ (0 ∷ [])))) op_jnif r 0 0 place
        (sym (append_assoc before front (and_tail r reg 0))) in
    rw (once, second) (twice ∙ ap some (append_assoc before front (and_tail r reg 2)))

-- finish_and, after code for the left operand with its jump and for the right operand: the first
-- jump passes over the right operand, its jump and the result true, the second over the result true.
pub finish_and-code :
    (reg r : ℕ) (before right : List ℕ) (a b : ℕ) (p : Generator) (q : Regs)
    → p.bc ≡ before ++ (a ∷ (b ∷ (0 ∷ (0 ∷ right))))
    → pop_reg (flush_cached_regs p.regs) ≡ some (r, q)
    → finish_and reg (length before) p
      ≡ some (record {
        regs = q;
        bc =
            before
            ++ (a
                ∷ (b
                    ∷ (((length right + 12) / 4 % 2 ^ 16 % 256)
                        ∷ (((length right + 12) / 4 % 2 ^ 16 / 256 % 256)
                            ∷ (right ++ and_tail r reg 2)))));
      })
unfolding finish_and emit_jnif
finish_and-code reg r before right a b p q same popped =
    let jump = op_jnif ∷ (r ∷ (0 ∷ (0 ∷ []))) in
    let move = op_mov_bool ∷ (1 ∷ (reg ∷ (0 ∷ []))) in
    let whole : (p.bc ++ jump) ++ move
        ≡ before ++ (a ∷ (b ∷ (0 ∷ (0 ∷ (right ++ and_tail r reg 0))))) =
      rw same (
        append_assoc (before ++ (a ∷ (b ∷ (0 ∷ (0 ∷ right))))) jump move
        ∙ append_assoc before (a ∷ (b ∷ (0 ∷ (0 ∷ right)))) (and_tail r reg 0)) in
    let size : length p.bc ≡ length before + 4 + length right =
      rw same (length-append before (a ∷ (b ∷ (0 ∷ (0 ∷ right)))) ∙ omega arith) in
    rw popped (
      rw
        (patch_jumps-code before right ((p.bc ++ jump) ++ move) a b r reg (length p.bc) _ _ whole
          size refl refl)
        refl)
