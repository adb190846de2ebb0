-- ===== src/Parser/Logical.antt =====
-- The short-circuit operators of src/core/parser/impl/expr.c: au_parser_exec_logical_expr after its left
-- operand, when the next token is `&&`. What au_parser_exec_expr does for the right operand is the
-- parameter `exec_expr`. The byte buffer is that of src/core/parser/impl/bc.c.
pub mod Code
pub mod And
pub mod Or
use aument.Prelude.{
  ℕ, zero, suc, ◌+◌, ◌-◌, ◌*◌, ◌/◌, ◌%◌, ◌^◌, ◌≤◌, ◌<◌, min, max, ◌≡◌, refl, sym, ap, ◌∙◌, ◌≢◌, ◌↔◌,
  ◌⊎◌, inl, inr, Bool, true, false, ◌&&◌, ◌||◌, not, Option, none, some, List, [], ◌∷◌, ◌++◌, map,
  arith, ltb, leb, ◌==◌, if◌then◌else◌, ltb→lt, lt→ltb, leb→le, le→leb, ==→eq, ==_refl, Bool-cases,
  Option-cases, ◌>>=◌, ◌>>◌, guard, length, get_elem?, get_or, set, take, drop, replicate,
  length-append, length-set, get_elem?-set_self, get_elem?-set_ne, length-replicate, bind_parts,
  bind_some, append_assoc, append-nil,
}
use aument.Parser.Regs.{
  Regs, regs_limit, bitmap_len, cached_reg_none, init, first_free, push, new_reg, last_reg,
  swap_top, swap_top_regs, push_reg, set_reg_unused, take_top, pop_reg, flush_cached_regs,
  flush_free_regs, OwnedReg, pop_reg_take_ownership, del_reg_from_ownership,
}
use aument.Parser.Operators.Generate.{Generator}
use aument.Parser.Emit.{replace_bc_u16, emit, op_mov_bool, op_jnif, emit_jnif, flush}

-- the offsets of the two jumps, which go to the end of the code
unfoldable pub patch_jumps : ℕ → ℕ → List ℕ → Option (List ℕ)
patch_jumps left_len right_len bc =
    replace_bc_u16 (left_len + 2) ((length bc - left_len) / 4 % 2 ^ 16) bc
    >>= replace_bc_u16 (right_len + 2) ((length bc - right_len) / 4 % 2 ^ 16)

-- after the right operand: its jump, the result true, and the two offsets
unfoldable pub finish_and : ℕ → ℕ → Generator → Option Generator
finish_and reg left_len p = emit_jnif (flush p) >>= λ q.
    let done = emit (op_mov_bool ∷ (1 ∷ (reg ∷ (0 ∷ [])))) q in
    patch_jumps left_len (length p.bc) done.bc >>= λ bc. some (record done { bc = bc })

-- the result register below the left operand, the result false, and the jump on the left operand
unfoldable pub start_and : ℕ → Regs → Generator → Option Generator
start_and reg regs p = swap_top_regs regs >>= λ swapped.
    emit_jnif (emit (op_mov_bool ∷ (0 ∷ (reg ∷ (0 ∷ [])))) (record p { regs = swapped }))

module _ (exec_expr : Generator → Option (Bool × Generator)) where
  -- the outcome of the right operand
  abbrev pub continue_and : ℕ → ℕ → Bool × Generator → Option (Bool × Generator)
  continue_and reg left_len (true, p) = finish_and reg left_len p >>= λ q. some (true, q)
  continue_and reg left_len (false, p) = some (false, p)

  -- the result 0 when no register is free
  abbrev pub and_with : Generator → Option (ℕ × Regs) → Option (Bool × Generator)
  and_with p none = some (false, p)
  and_with p (some (reg, regs)) =
      start_and reg regs p >>= exec_expr >>= continue_and reg (length p.bc + 4)

  unfoldable pub exec_and : Generator → Option (Bool × Generator)
  exec_and p = and_with (flush p) (new_reg (flush p).regs)
