-- ===== src/Parser/Regs.antt =====
-- The register allocator: src/core/parser/impl/regs.c and the fields of `struct au_parser` that it
-- uses (src/core/parser/impl/def.h). `rstack` has its top first; `num_registers` is max_register + 1,
-- since max_register starts at -1.
pub mod Sound
pub mod Moves
pub mod Laws
pub mod Reachable
use aument.Prelude.{
  ℕ, zero, suc, ◌+◌, ◌<◌, Bool, true, false, List, [], ◌∷◌, Option, none, some, if◌then◌else◌, ltb,
  ◌>>=◌, length, replicate, map, max,
}
use aument.BitArray.{get, set_at, reset_at}

pub record Regs : Type 0 where
  pub rstack : List ℕ
  pub used : List ℕ
  pub pinned : List ℕ
  pub local_to_reg : List ℕ
  pub num_registers : ℕ

-- AU_REGS, AU_BA_LEN(AU_REGS), CACHED_REG_NONE
abbrev pub regs_limit : ℕ
regs_limit = 256

abbrev pub bitmap_len : ℕ
bitmap_len = 32

abbrev pub cached_reg_none : ℕ
cached_reg_none = 255

-- the parser as au_parser_init leaves it
abbrev pub init : Regs
init = record {
  rstack = [];
  used = replicate bitmap_len 0;
  pinned = replicate bitmap_len 0;
  local_to_reg = [];
  num_registers = 0;
}

-- the loop of au_parser_new_reg: the first free one of the n registers from i on
unfoldable pub first_free : List ℕ → ℕ → ℕ → Option ℕ
first_free used zero i = none
first_free used (suc n) i = if get used i then first_free used n (suc i) else some i

-- `p->rstack[p->rstack_len++] = reg` with the update of max_register, on a register set used
abbrev pub push : ℕ → Regs → Regs
push reg p = record p {
  rstack = reg ∷ p.rstack;
  used = set_at p.used reg;
  num_registers = max p.num_registers (suc reg);
}

-- `none` is the result 0
unfoldable pub new_reg : Regs → Option (ℕ × Regs)
new_reg p =
    if ltb regs_limit (length p.rstack + 1)
    then none
    else first_free p.used regs_limit 0 >>= λ reg. some (reg, push reg p)

-- From here on `none` is an abort or a failed assertion.
unfoldable pub last_reg : Regs → Option ℕ
last_reg p = elim p.rstack [ [] ↦ none | reg ∷ rest ↦ some reg ]

abbrev pub swap_top : List ℕ → Option (List ℕ)
swap_top [] = none
swap_top (a ∷ []) = none
swap_top (a ∷ (b ∷ rest)) = some (b ∷ (a ∷ rest))

unfoldable pub swap_top_regs : Regs → Option Regs
swap_top_regs p = swap_top p.rstack >>= λ rstack. some record p { rstack = rstack }

unfoldable pub push_reg : Regs → ℕ → Option Regs
push_reg p reg = if ltb regs_limit (length p.rstack + 1) then none else some (push reg p)

unfoldable pub set_reg_unused : Regs → ℕ → Option Regs
set_reg_unused p reg =
    if get p.pinned reg
    then some p
    else if get p.used reg
    then some record p { used = reset_at p.used reg }
    else none

abbrev pub take_top : Regs → Option (ℕ × Regs)
take_top p = elim p.rstack [ [] ↦ none | reg ∷ rest ↦ some (reg, record p { rstack = rest }) ]

unfoldable pub pop_reg : Regs → Option (ℕ × Regs)
pop_reg p = take_top p >>= λ top. set_reg_unused top.1 top.0 >>= λ q. some (top.0, q)

unfoldable pub flush_cached_regs : Regs → Regs
flush_cached_regs p = record p {
  local_to_reg = map (λ reg. cached_reg_none) p.local_to_reg;
  pinned = replicate bitmap_len 0;
}

unfoldable pub flush_free_regs : Regs → Regs
flush_free_regs p = record p { rstack = []; used = p.pinned }

pub record OwnedReg : Type 0 where
  pub reg : ℕ
  pub is_owned : Bool

unfoldable pub pop_reg_take_ownership : Regs → Option (OwnedReg × Regs)
pop_reg_take_ownership p = take_top p >>= λ top.
    if get p.pinned top.0
    then some (record { reg = top.0; is_owned = false }, top.1)
    else some
        (record { reg = top.0; is_owned = true }, record top.1 { pinned = set_at p.pinned top.0 })

unfoldable pub del_reg_from_ownership : Regs → OwnedReg → Regs
del_reg_from_ownership p state =
    if state.is_owned
    then record p { pinned = reset_at p.pinned state.reg; used = reset_at p.used state.reg }
    else p
