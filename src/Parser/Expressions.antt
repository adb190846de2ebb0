-- ===== src/Parser/Expressions.antt =====
-- Expressions: src/core/parser/impl/expr.c. What au_parser_exec_expr does is the parameter `exec_expr`
-- of the routines that call it; `Run` ties the knot. Bytes that C writes one by one, around a register
-- that may be missing, are written together: when it is missing, the code is given up.
pub mod Calls
pub mod Assign
pub mod Index
pub mod Binary
pub mod Literals
pub mod Values
pub mod Objects
pub mod Run
pub mod Primitives
pub mod Preserve
pub mod Ignoring
pub mod Scoped
pub mod Linked
use aument.Prelude.{
  ℕ, zero, suc, ◌+◌, ◌-◌, Bool, true, false, ◌&&◌, ◌||◌, not, Option, none, some, List, [], ◌∷◌,
  ◌++◌, ◌==◌, if◌then◌else◌, length, replicate, set, ◌>>=◌,
}
use aument.Lexer.{Token, operator, bytes_eq}
use aument.Parser.Regs.{Regs, cached_reg_none, set_reg_unused}
use aument.Parser.State.{Parser, M, is_type, is_op}
use aument.Parser.State.Steps.{is_op2}

-- the opcodes
abbrev pub op_mov_u16 : ℕ
op_mov_u16 = 1

abbrev pub op_load_nil : ℕ
op_load_nil = 5

abbrev pub op_load_const : ℕ
op_load_const = 6

abbrev pub op_not : ℕ
op_not = 13

abbrev pub op_call : ℕ
op_call = 24

abbrev pub op_call_catch : ℕ
op_call_catch = 25

abbrev pub op_array_new : ℕ
op_array_new = 30

abbrev pub op_array_push : ℕ
op_array_push = 31

abbrev pub op_idx_get : ℕ
op_idx_get = 32

abbrev pub op_idx_set : ℕ
op_idx_set = 33

abbrev pub op_tuple_new : ℕ
op_tuple_new = 34

abbrev pub op_idx_set_static : ℕ
op_idx_set_static = 35

abbrev pub op_dict_new : ℕ
op_dict_new = 36

abbrev pub op_class_new : ℕ
op_class_new = 37

abbrev pub op_class_new_initialized : ℕ
op_class_new_initialized = 38

abbrev pub op_class_get_inner : ℕ
op_class_get_inner = 39

abbrev pub op_class_set_inner : ℕ
op_class_set_inner = 40

abbrev pub op_load_func : ℕ
op_load_func = 41

abbrev pub op_bind_arg_to_func : ℕ
op_bind_arg_to_func = 42

abbrev pub op_call_func_value : ℕ
op_call_func_value = 43

abbrev pub op_call_func_value_catch : ℕ
op_call_func_value_catch = 44

abbrev pub op_push_arg : ℕ
op_push_arg = 47

abbrev pub op_nop : ℕ
op_nop = 48

abbrev pub op_bnot : ℕ
op_bnot = 54

abbrev pub op_neg : ℕ
op_neg = 55

-- AU_MAX_FUNC_ID
abbrev pub max_func_id : ℕ
max_func_id = 65536

-- is_assign_tok
unfoldable pub is_assign_tok : Token → Bool
is_assign_tok t =
    is_op t 61
    || is_op2 t 43 61
    || is_op2 t 45 61
    || is_op2 t 42 61
    || is_op2 t 47 61
    || is_op2 t 37 61

-- the opcode for the first byte of a compound assignment
unfoldable pub compound_op : List ℕ → Option ℕ
compound_op [] = none
compound_op (ch ∷ rest) =
    if ch == 42
    then some 8
    else if ch == 47
    then some 9
    else if ch == 43
    then some 10
    else if ch == 45
    then some 11
    else if ch == 37
    then some 12
    else none

-- local_to_reg, made longer until the local has a place in it
unfoldable pub extend_to : ℕ → List ℕ → List ℕ
extend_to local l = l ++ replicate (suc local - length l) cached_reg_none

unfoldable pub cache : ℕ → ℕ → Regs → Regs
cache local reg r = record r { local_to_reg = set (extend_to local r.local_to_reg) local reg }

-- `rstack[rstack_len - 3] = rstack[rstack_len - 1]; rstack_len -= 2`, after both registers are given up
abbrev pub without_two : List ℕ → Regs → Option Regs
without_two (result_reg ∷ (idx_reg ∷ (left_reg ∷ rest))) p = set_reg_unused p left_reg >>= λ q.
    set_reg_unused q idx_reg >>= λ r. some (record r { rstack = result_reg ∷ rest })
without_two _ p = none

unfoldable pub drop_operands : Regs → Option Regs
drop_operands p = without_two p.rstack p
