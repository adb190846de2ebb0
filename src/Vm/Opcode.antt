-- ===== src/Vm/Opcode.antt =====
-- The operations of src/core/bc_data/opcodes.txt, and their numbers. The binary operations are
-- grouped by the specialised forms that they have: on ints and doubles, on ints alone, or none.
use Prim.Native.Nat.{ℕ}
use aument.Prelude.{◌≡◌, refl, Option, some, List, [], ◌∷◌, get_elem?}

pub data Arith : Type 0 where
  mul div add sub eq neq lt gt leq geq : Arith

pub data IntOp : Type 0 where
  arith_op : Arith → IntOp
  mod_op : IntOp

pub data Bitwise : Type 0 where
  bor bxor band bshl bshr : Bitwise

pub data BinOp : Type 0 where
  specialised : IntOp → BinOp
  bitwise : Bitwise → BinOp

pub data Op : Type 0 where
  load_self mov_u16 mov_reg_local mov_local_reg mov_bool load_nil load_const set_const : Op
  bin : BinOp → Op
  bin_int : IntOp → Op
  bin_double : Arith → Op
  not_op bnot neg jif jnif jrel jrelb jif_bool jnif_bool : Op
  call call_catch ret_local ret ret_null import : Op
  array_new array_push idx_get idx_set tuple_new idx_set_static dict_new : Op
  class_new class_new_initialized class_get_inner class_set_inner : Op
  load_func bind_arg_to_func call_func_value call_func_value_catch : Op
  raise print push_arg nop : Op

abbrev pub plain : Arith → Op
plain o = bin (specialised (arith_op o))

abbrev pub int_arith : Arith → Op
int_arith o = bin_int (arith_op o)

-- `enum au_opcode`, in the order of the numbers
abbrev pub opcodes : List Op
opcodes =
    load_self
    ∷ mov_u16
    ∷ mov_reg_local
    ∷ mov_local_reg
    ∷ mov_bool
    ∷ load_nil
    ∷ load_const
    ∷ set_const
    ∷ plain mul
    ∷ plain div
    ∷ plain add
    ∷ plain sub
    ∷ bin (specialised mod_op)
    ∷ not_op
    ∷ plain eq
    ∷ plain neq
    ∷ plain lt
    ∷ plain gt
    ∷ plain leq
    ∷ plain geq
    ∷ jif
    ∷ jnif
    ∷ jrel
    ∷ jrelb
    ∷ call
    ∷ call_catch
    ∷ ret_local
    ∷ ret
    ∷ ret_null
    ∷ import
    ∷ array_new
    ∷ array_push
    ∷ idx_get
    ∷ idx_set
    ∷ tuple_new
    ∷ idx_set_static
    ∷ dict_new
    ∷ class_new
    ∷ class_new_initialized
    ∷ class_get_inner
    ∷ class_set_inner
    ∷ load_func
    ∷ bind_arg_to_func
    ∷ call_func_value
    ∷ call_func_value_catch
    ∷ raise
    ∷ print
    ∷ push_arg
    ∷ nop
    ∷ bin (bitwise bor)
    ∷ bin (bitwise bxor)
    ∷ bin (bitwise band)
    ∷ bin (bitwise bshl)
    ∷ bin (bitwise bshr)
    ∷ bnot
    ∷ neg
    ∷ int_arith mul
    ∷ int_arith div
    ∷ int_arith add
    ∷ int_arith sub
    ∷ bin_int mod_op
    ∷ int_arith eq
    ∷ int_arith neq
    ∷ int_arith lt
    ∷ int_arith gt
    ∷ int_arith leq
    ∷ int_arith geq
    ∷ jif_bool
    ∷ jnif_bool
    ∷ bin_double mul
    ∷ bin_double div
    ∷ bin_double add
    ∷ bin_double sub
    ∷ bin_double eq
    ∷ bin_double neq
    ∷ bin_double lt
    ∷ bin_double gt
    ∷ bin_double leq
    ∷ bin_double geq
    ∷ []

-- the operation of a code byte
unfoldable pub decode : ℕ → Option Op
decode n = get_elem? opcodes n

last_opcode : decode 78 ≡ some (bin_double geq)
unfolding decode
last_opcode = refl
