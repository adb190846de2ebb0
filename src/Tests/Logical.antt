-- ===== src/Tests/Logical.antt =====
-- The operator && of src/core/parser/impl/expr.c at concrete inputs.
use aument.Prelude.{
  ℕ, ◌+◌, ◌*◌, ◌≡◌, refl, Bool, true, Option, none, some, List, [], ◌∷◌, ◌++◌, arith,
}
use aument.BitArray.{reset_at, bit, get, reset_bit, set_at, set_bit}
use aument.Parser.Regs.{
  Regs, push, init, new_reg, swap_top_regs, pop_reg, flush_cached_regs, first_free, set_reg_unused,
}
use aument.Parser.Operators.Generate.{Generator}
use aument.Parser.Emit.{replace_bc_u16}
use aument.Parser.Logical.Or.{exec_or, emit_jif, finish_or, patch_or}
use aument.Parser.Logical.{exec_and}
use aument.Parser.Logical.Code.{and_tail}
use aument.Parser.Logical.And.{and_head, exec_and-code}

-- a right operand that is one MOV_BOOL into register 0
abbrev move_true : Generator → Option (Bool × Generator)
move_true g = some (true, record { regs = push 0 g.regs; bc = g.bc ++ (4 ∷ (1 ∷ (0 ∷ (0 ∷ [])))) })

-- the left operand in register 0, and the states of the registers after that
abbrev left_only : Generator
left_only = record { regs = push 0 init; bc = [] }

abbrev with_result : Regs
with_result = push 1 (flush_cached_regs left_only.regs)

abbrev swapped : Regs
swapped = record with_result { rstack = 0 ∷ (1 ∷ []) }

abbrev popped : Regs
popped = record swapped { rstack = 1 ∷ []; used = reset_at swapped.used 0 }

abbrev after_right : Generator
after_right = record {
  regs = push 0 popped;
  bc = ([] ++ and_head 1 0 0 0) ++ (4 ∷ (1 ∷ (0 ∷ (0 ∷ []))));
}

abbrev after : Regs
after = record (flush_cached_regs (push 0 popped)) {
  rstack = 1 ∷ [];
  used = reset_at (push 0 popped).used 0;
}

exec_and-code_example :
    (low high : ℕ) × (low + 256 * high ≡ 1 + 3)
    × (exec_and move_true left_only
        ≡ some (
          true,
          record {
            regs = after;
            bc = [] ++ (and_head 1 0 low high ++ ((4 ∷ (1 ∷ (0 ∷ (0 ∷ [])))) ++ and_tail 0 1 2));
          },
        ))
unfolding new_reg flush_cached_regs first_free get bit set_at set_bit swap_top_regs pop_reg
    set_reg_unused reset_at reset_bit
exec_and-code_example =
    exec_and-code move_true left_only after_right with_result swapped popped after 1 0 0 1
      (4 ∷ (1 ∷ (0 ∷ (0 ∷ [])))) refl refl refl refl refl refl (omega arith) refl

abbrev code_of : Option (Bool × Generator) → List ℕ
code_of none = []
code_of (some (made, g)) = g.bc

-- the jumps on the operands go over 5 and 3 instructions to the result true, and the one between the
-- results over 2 to the end
or_code :
    code_of (exec_or move_true left_only)
    ≡ 20
      ∷ (0
          ∷ (5
              ∷ (0
                  ∷ (4
                      ∷ (1
                          ∷ (0
                              ∷ (0
                                  ∷ (20
                                      ∷ (0
                                          ∷ (3
                                              ∷ (0
                                                  ∷ (4
                                                      ∷ (0
                                                          ∷ (1
                                                            ∷ (0
                                                            ∷ (22
                                                            ∷ (0
                                                            ∷ (2
                                                            ∷ (0
                                                            ∷ (4
                                                            ∷ (1
                                                            ∷ (1 ∷ (0 ∷ [])))))))))))))))))))))))
unfolding exec_or emit_jif finish_or patch_or replace_bc_u16 new_reg flush_cached_regs first_free
    get bit set_at set_bit swap_top_regs pop_reg set_reg_unused reset_at reset_bit
or_code = refl
