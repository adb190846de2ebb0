-- ===== src/Vm.antt =====
-- The virtual machine: `au_vm_exec_unverified` of src/core/vm/vm.c, one frame. An instruction is
-- four bytes and every jump is by a multiple of four, so the code is a list of instructions and
-- the program counter counts instructions: the byte offset is four times `pc`. The handlers of
-- calls, of imports and of heap objects are not modelled: their outcome is `outside`.
pub mod Args
pub mod Opcode
pub mod Values
pub mod Step
pub mod Reference
pub mod Refines
pub mod Locate
pub mod Code
use aument.Prelude.{
  ℕ, ◌+◌, ◌-◌, ◌*◌, ◌<◌, Bool, true, false, not, List, [], ◌∷◌, ◌++◌, Option, none, some,
  if◌then◌else◌, ltb, leb, ◌==◌, ◌&&◌, length, get_elem?, set, take, drop, ◌>>=◌, ◌>>◌, guard,
}
use aument.Value.{Float, Value, int, bool, double, str, error, is_error, is_truthy, get_type}
use aument.Value.Ops.{bnot, neg}
use aument.Vm.Opcode.{
  Op, IntOp, Arith, BinOp, bin, bin_int, bin_double, specialised, arith_op, jif, jnif, jif_bool,
  jnif_bool,
}
use aument.Vm.Values.{value_op, int_fast, double_fast}

-- One instruction. The 16-bit operand at byte 2 is little endian.
pub record Insn : Type 0 where
  pub op : Op
  pub a : ℕ
  pub b : ℕ
  pub c : ℕ

abbrev pub operand16 : Insn → ℕ
operand16 i = i.b + 256 * i.c

-- struct au_program_data_val
pub record DataVal (D : Type 0) : Type 0 where
  pub real_value : Value D
  pub buf_idx : ℕ
  pub buf_len : ℕ

-- struct au_program_source_map
pub record SourceMap : Type 0 where
  pub bc_from : ℕ
  pub bc_to : ℕ
  pub source_start : ℕ
  pub func_idx : ℕ

-- what the machine reads of struct au_program_data and of the function it runs
pub record Program (D : Type 0) : Type 0 where
  pub data_val : List (DataVal D)
  pub data_buf : List ℕ
  pub tl_constant_start : ℕ
  pub source_map : List SourceMap
  pub func_idx : ℕ

-- The frame, with the constants of the thread and the values that it has printed.
pub record Machine (D : Type 0) : Type 0 where
  pub regs : List (Value D)
  pub locals : List (Value D)
  pub pc : ℕ
  pub const_cache : List (Value D)
  pub printed : List (Value D)

pub data IntError (D : Type 0) : Type 0 where
  incompat_bin_op : Value D → Value D → IntError D
  incompat_call : IntError D
  raised_error : Value D → IntError D

pub data Outcome (D : Type 0) : Type 0 where
  next : Machine D → Outcome D
  returned : Value D → Machine D → Outcome D
  failed : IntError D → ℕ → Machine D → Outcome D
  outside : Machine D → Outcome D

-- au_vm_locate_error: the first entry that holds the position, else 0
unfoldable pub locate_error : ℕ → ℕ → List SourceMap → ℕ
locate_error pc func [] = 0
locate_error pc func (m ∷ ms) =
    if (m.func_idx == func) && (leb m.bc_from pc && leb pc m.bc_to)
    then m.source_start
    else locate_error pc func ms

module _ {D : Type 0} where
  -- `frame.regs[r]` and `frame.locals[l]`: `none` outside the frame
  abbrev pub reg : Machine D → ℕ → Option (Value D)
  reg m r = get_elem? m.regs r

  abbrev pub local_at : Machine D → ℕ → Option (Value D)
  local_at m l = get_elem? m.locals l

  abbrev pub advance : Machine D → Machine D
  advance m = record m { pc = m.pc + 1 }

  -- `COPY_VALUE(frame.regs[r], v)` and `DISPATCH`
  abbrev pub store : ℕ → Value D → Machine D → Option (Outcome D)
  store r v m = do
    guard (ltb r (length m.regs))
    some (next (advance (record m { regs = set m.regs r v })))

  abbrev pub store_local : ℕ → Value D → Machine D → Option (Outcome D)
  store_local l v m = do
    guard (ltb l (length m.locals))
    some (next (advance (record m { locals = set m.locals l v })))

  -- RAISE
  unfoldable pub fail : Program D → IntError D → Machine D → Outcome D
  fail p e m = failed e (locate_error (m.pc * 4) p.func_idx p.source_map) m

  abbrev pub branch : Bool → ℕ → Machine D → Outcome D
  branch taken n m = if taken then next (record m { pc = m.pc + n }) else next (advance m)

  unfoldable pub is_none : Value D → Bool
  is_none Value.none = true
  is_none _ = false

  -- a constant that is not in the cache: a string is built from the data buffer and cached
  load_fresh : Program D → ℕ → ℕ → DataVal D → Value D → Machine D → Option (Outcome D)
  load_fresh p r abs d (str s) m =
      let v : Value D = str (take d.buf_len (drop d.buf_idx p.data_buf)) in
      store r v (record m { const_cache = set m.const_cache abs v })
  load_fresh p r abs d v m = store r v m

  unfoldable pub load_const_at : Program D → ℕ → ℕ → Machine D → Option (Outcome D)
  unfolding load_fresh is_none
  load_const_at p r rel m = do
    let abs = rel + p.tl_constant_start
    cached ← get_elem? m.const_cache abs
    if not (is_none cached)
        then store r cached m
        else do d ← get_elem? p.data_val rel; load_fresh p r abs d d.real_value m

  unfoldable pub set_const_at : Program D → ℕ → ℕ → Machine D → Option (Outcome D)
  unfolding is_none
  set_const_at p r rel m = do
    let abs = rel + p.tl_constant_start
    cached ← get_elem? m.const_cache abs
    v ← reg m r
    some (
        next (
          advance
            (if is_none cached then record m { const_cache = set m.const_cache abs v } else m)))

-- An instruction's handler gives the operation that stands in its code byte afterwards, and the
-- outcome.
abbrev pub Handled : Type 0 → Type 0
Handled D = Op × Option (Outcome D)

module _ (fl : Float) (p : Program fl.Double) where
  -- the general form: a failing operation raises
  unfoldable pub generic_body :
      BinOp → Value fl.Double → Value fl.Double → ℕ → Machine fl.Double → Option (Outcome fl.Double)
  generic_body o l r res m = do
    v ← value_op fl o l r
    if is_error v then some (fail p (incompat_bin_op l r) m) else store res v m

  unfoldable pub int_body : IntOp → ℕ → ℕ → ℕ → Machine fl.Double → Option (Outcome fl.Double)
  int_body o a b res m = do v ← int_fast fl o a b; store res v m

  unfoldable pub double_body :
      Arith → fl.Double → fl.Double → ℕ → Machine fl.Double → Option (Outcome fl.Double)
  double_body o x y res m = store res (double_fast fl o x y) m

  -- BIN_OP: two ints or two doubles rewrite the code byte and go to the specialised handler
  unfoldable pub bin_generic :
      BinOp → Value fl.Double → Value fl.Double → ℕ → Machine fl.Double → Handled fl.Double
  bin_generic (specialised o) (int a) (int b) res m = (bin_int o, int_body o a b res m)
  bin_generic (specialised (arith_op o)) (double x) (double y) res m =
      (bin_double o, double_body o x y res m)
  bin_generic o l r res m = (bin o, generic_body o l r res m)

  -- the specialised handlers put the general operation back when the types do not fit
  unfoldable pub bin_int_case :
      IntOp → Value fl.Double → Value fl.Double → ℕ → Machine fl.Double → Handled fl.Double
  unfolding bin_generic
  bin_int_case o (int a) (int b) res m = (bin_int o, int_body o a b res m)
  bin_int_case o l r res m = bin_generic (specialised o) l r res m

  unfoldable pub bin_double_case :
      Arith → Value fl.Double → Value fl.Double → ℕ → Machine fl.Double → Handled fl.Double
  unfolding bin_generic
  bin_double_case o (double x) (double y) res m = (bin_double o, double_body o x y res m)
  bin_double_case o l r res m = bin_generic (specialised (arith_op o)) l r res m
