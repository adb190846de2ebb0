-- ===== src/Parser/Operators/Generate.antt =====
-- operator_info_generate of src/core/parser/impl/expr.c, and the byte buffer of src/core/parser/impl/bc.c.
use aument.Prelude.{ℕ, Bool, true, false, Option, none, some, List, [], ◌∷◌, ◌++◌, ◌>>=◌}
use aument.Parser.Regs.{Regs, new_reg, pop_reg}
use aument.Parser.Operators.{OperatorInfo}

-- the parser's registers and its code
pub record Generator : Type 0 where
  pub regs : Regs
  pub bc : List ℕ

abbrev pub emit_bc_u8 : ℕ → Generator → Generator
emit_bc_u8 val p = record p { bc = p.bc ++ (val ∷ []) }

-- the last part: the result 0 when no register is free
abbrev pub place_result : Generator → Option (ℕ × Regs) → Bool × Generator
place_result p none = (false, p)
place_result p (some result) = (true, emit_bc_u8 result.0 (record p { regs = result.1 }))

-- The result 0 or 1, and the parser; `none` is an abort.
unfoldable pub operator_info_generate : OperatorInfo → Generator → Option (Bool × Generator)
operator_info_generate info p = pop_reg p.regs >>= λ right. pop_reg right.1 >>= λ left. some (
    place_result
      (emit_bc_u8 right.0 (emit_bc_u8 left.0 (emit_bc_u8 info.op (record p { regs = left.1 }))))
      (new_reg left.1))
