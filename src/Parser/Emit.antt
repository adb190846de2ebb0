-- ===== src/Parser/Emit.antt =====
-- The byte buffer: au_replace_bc_u16 of src/core/parser/impl/bc.c, and the instruction that ends a
-- condition in src/core/parser/impl/expr.c and stmt.c.
pub mod Patch
use aument.Prelude.{
  ℕ, zero, suc, ◌+◌, ◌-◌, ◌*◌, ◌/◌, ◌%◌, ◌^◌, ◌≤◌, ◌<◌, min, max, ◌≡◌, refl, sym, ap, ◌∙◌, ◌≢◌, ◌↔◌,
  ◌⊎◌, inl, inr, Bool, true, false, ◌&&◌, ◌||◌, not, Option, none, some, List, [], ◌∷◌, ◌++◌, map,
  arith, ltb, leb, ◌==◌, if◌then◌else◌, ltb→lt, lt→ltb, leb→le, le→leb, ==→eq, ==_refl, Bool-cases,
  Option-cases, ◌>>=◌, ◌>>◌, guard, length, get_elem?, get_or, set, take, drop, replicate,
  length-append, length-set, get_elem?-set_self, get_elem?-set_ne, length-replicate, bind_parts,
  bind_some, append_assoc, append-nil,
}
use aument.Parser.Regs.{
  Regs, regs_limit, bitmap_len, cached_reg_none, init, first_free, push, new_reg, last_reg,
  swap_top, swap_top_regs, push_reg, set_reg_unused, take_top, pop_reg, flush_cached_regs,
  flush_free_regs, OwnedReg, pop_reg_take_ownership, del_reg_from_ownership,
}
use aument.Parser.Operators.Generate.{Generator}

-- au_replace_bc_u16, little endian; `none` is its abort
unfoldable pub replace_bc_u16 : ℕ → ℕ → List ℕ → Option (List ℕ)
replace_bc_u16 idx val bc =
    if leb (length bc) (idx + 1)
    then none
    else some (set (set bc idx (val % 256)) (idx + 1) (val / 256 % 256))

abbrev pub emit : List ℕ → Generator → Generator
emit code p = record p { bc = p.bc ++ code }

-- the opcodes MOV_BOOL and JNIF
abbrev pub op_mov_bool : ℕ
op_mov_bool = 4

abbrev pub op_jnif : ℕ
op_jnif = 21

-- JNIF on the register that is popped, with two bytes of padding for the offset
unfoldable pub emit_jnif : Generator → Option Generator
emit_jnif p = pop_reg p.regs >>= λ top.
    some (emit (op_jnif ∷ (top.0 ∷ (0 ∷ (0 ∷ [])))) (record p { regs = top.1 }))

abbrev pub flush : Generator → Generator
flush p = record p { regs = flush_cached_regs p.regs }
