-- ===== src/Parser/State/Steps.antt =====
-- The steps that expressions and declarations take: registers (src/core/parser/impl/regs.c), the program
-- data (src/core/program.c), and what is looked up (src/core/parser/impl/resolve.c).
use aument.Prelude.{ℕ, Bool, true, ◌&&◌, Option, none, some, List, [], ◌∷◌, ◌++◌, length, get_elem?}
use aument.Lexer.{Token, operator, bytes_eq}
use aument.Parser.Regs.{Regs, OwnedReg, new_reg, pop_reg_take_ownership, del_reg_from_ownership}
use aument.Parser.Operators.Generate.{Generator}
use aument.Parser.Program.{Constant, Program, Module}
use aument.Parser.State.{
  Parser, Failure, bytecode_gen, unknown_module, Result, ok, failed, aborted, starved, M, ◌>>=◌,
  ◌>>◌, return, refuse, gets, is_type, lookup,
}

-- a step on the registers and the code alone
abbrev pub out_result : {A : Type 0} → Parser → Result (A × Generator) → Result (A × Parser)
out_result p (ok (a, out)) = ok (a, record p { out = out })
out_result p (failed e) = failed e
out_result p aborted = aborted
out_result p starved = starved

unfoldable pub on_out : {A : Type 0} → (Generator → Result (A × Generator)) → M A
on_out f p = out_result p (f p.out)

-- EXPECT_BYTECODE(au_parser_new_reg(p, &reg))
abbrev pub new_reg_result : Generator → Option (ℕ × Regs) → Result (ℕ × Generator)
new_reg_result g none = failed bytecode_gen
new_reg_result g (some (reg, regs)) = ok (reg, record g { regs = regs })

unfoldable pub allocate : M ℕ
allocate = on_out (λ g. new_reg_result g (new_reg g.regs))

-- A step that may abort.
abbrev pub regs_result : Generator → Option Regs → Result (Unit {0} × Generator)
regs_result g none = aborted
regs_result g (some regs) = ok (tt, record g { regs = regs })

unfoldable pub on_regs : (Regs → Option Regs) → M (Unit {0})
on_regs f = on_out (λ g. regs_result g (f g.regs))

abbrev pub within_result : Option Generator → Result (Unit {0} × Generator)
within_result none = aborted
within_result (some g) = ok (tt, g)

unfoldable pub within : (Generator → Option Generator) → M (Unit {0})
within f = on_out (λ g. within_result (f g))

abbrev pub owned_result : Generator → Option (OwnedReg × Regs) → Result (OwnedReg × Generator)
owned_result g none = aborted
owned_result g (some (state, regs)) = ok (state, record g { regs = regs })

unfoldable pub take_ownership : M OwnedReg
take_ownership = on_out (λ g. owned_result g (pop_reg_take_ownership g.regs))

unfoldable pub give_back : OwnedReg → M (Unit {0})
give_back state = on_regs (λ r. some (del_reg_from_ownership r state))

-- owned_reg_state_array_del
unfoldable pub give_back_all : List OwnedReg → M (Unit {0})
give_back_all [] = return tt
give_back_all (state ∷ states) = give_back state >> give_back_all states

-- a change of the program data, and one of the program data and what the parser knows of its function
unfoldable pub write_program : (Program → Program) → M (Unit {0})
write_program f p = ok (tt, record p { program = f p.program })

-- au_program_data_add_data
abbrev pub with_constant : Constant → Program → Program
with_constant value d = record d { data_val = d.data_val ++ (value ∷ []) }

unfoldable pub add_data : Constant → M ℕ
add_data value = do
  idx ← gets (λ p. length p.program.data_val)
  write_program (with_constant value)
  return idx

unfoldable pub set_self_may_fail : M (Unit {0})
set_self_may_fail p = ok (tt, record p { may_fail = true })

-- a result that may be missing: an error, or undefined behaviour
unfoldable pub option_case : {A B : Type 0} → M B → (A → M B) → Option A → M B
option_case m f none = m
option_case m f (some a) = f a

abbrev pub some_or : {A : Type 0} → Failure → Option A → M A
some_or e o = option_case (refuse e) return o

unfoldable pub undefined : {A : Type 0} → M A
undefined p = aborted

abbrev pub present : {A : Type 0} → Option A → M A
present o = option_case undefined return o

-- an operator of two bytes
abbrev pub is_op2 : Token → ℕ → ℕ → Bool
is_op2 t a b = is_type operator t.type && bytes_eq t.src (a ∷ (b ∷ []))

-- au_parser_resolve_module: the module and its index
unfoldable pub resolve_module : Token → M (ℕ × Module)
resolve_module module_tok = do
  val ← gets (λ p. lookup module_tok.src p.program.imported_module_map)
  idx ← some_or (unknown_module module_tok) val
  found ← gets (λ p. get_elem? p.program.imported_modules idx)
  imported ← present found
  return (idx, imported)
