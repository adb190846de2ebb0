-- ===== src/Parser/Logical/Or.antt =====
-- The operator `||`: au_parser_exec_logical_expr of src/core/parser/impl/expr.c after its left operand.
-- What au_parser_exec_expr does for the right operand is the parameter `exec_expr`.
use aument.Prelude.{
  ℕ, ◌+◌, ◌-◌, ◌/◌, ◌%◌, ◌^◌, Bool, true, false, Option, none, some, List, [], ◌∷◌, ◌>>=◌, length,
}
use aument.Parser.Regs.{Regs, new_reg, swap_top_regs, pop_reg}
use aument.Parser.Operators.Generate.{Generator}
use aument.Parser.Statements.{op_jrel}
use aument.Parser.Emit.{replace_bc_u16, emit, op_mov_bool, flush}

-- the opcode JIF
abbrev pub op_jif : ℕ
op_jif = 20

unfoldable pub emit_jif : Generator → Option Generator
emit_jif p = pop_reg p.regs >>= λ top.
    some (emit (op_jif ∷ (top.0 ∷ (0 ∷ (0 ∷ [])))) (record p { regs = top.1 }))

-- the offsets: from the jump behind the result false to the end, and from the two operands' jumps to
-- the result true
unfoldable pub patch_or : ℕ → ℕ → ℕ → ℕ → List ℕ → Option (List ℕ)
patch_or left_len right_len false_len truth_len bc =
    replace_bc_u16 (false_len + 2) ((length bc - false_len) / 4 % 2 ^ 16) bc
    >>= replace_bc_u16 (left_len + 2) ((truth_len - left_len) / 4 % 2 ^ 16)
    >>= replace_bc_u16 (right_len + 2) ((truth_len - right_len) / 4 % 2 ^ 16)

-- after the right operand: its jump, the result false, the jump to the end, and the result true
unfoldable pub finish_or : ℕ → ℕ → Generator → Option Generator
finish_or reg left_len p = emit_jif (flush p) >>= λ q.
    let no = emit (op_mov_bool ∷ (0 ∷ (reg ∷ (0 ∷ [])))) q in
    let leaving = emit (op_jrel ∷ (0 ∷ (0 ∷ (0 ∷ [])))) no in
    let whole = emit (op_mov_bool ∷ (1 ∷ (reg ∷ (0 ∷ [])))) leaving in
    patch_or left_len (length p.bc) (length no.bc) (length leaving.bc) whole.bc >>= λ bc.
    some record whole { bc = bc }

module _ (exec_expr : Generator → Option (Bool × Generator)) where
  -- the outcome of the right operand
  abbrev pub continue_or : ℕ → ℕ → Bool × Generator → Option (Bool × Generator)
  continue_or reg left_len (true, p) = finish_or reg left_len p >>= λ q. some (true, q)
  continue_or reg left_len (false, p) = some (false, p)

  -- the result 0 when no register is free
  abbrev pub or_with : Generator → Option (ℕ × Regs) → Option (Bool × Generator)
  or_with p none = some (false, p)
  or_with p (some (reg, regs)) = swap_top_regs regs >>= λ swapped.
      emit_jif (record p { regs = swapped }) >>= exec_expr >>= continue_or reg (length p.bc)

  unfoldable pub exec_or : Generator → Option (Bool × Generator)
  exec_or p = or_with (flush p) (new_reg (flush p).regs)
