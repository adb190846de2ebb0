-- ===== src/Vm/Args.antt =====
-- The arguments of a call: the loops over PUSH_ARG in au_vm_exec_unverified_main of src/core/vm/vm.c,
-- for CALL and for CALL_FUNC_VALUE.
use aument.Prelude.{ℕ, zero, suc, ◌≡◌, refl, Option, none, some, List, [], ◌∷◌, ◌++◌, length}
use aument.Parser.Expressions.Calls.{args_code}

abbrev pub front : List ℕ → Option (List ℕ × List ℕ) → Option (List ℕ × List ℕ)
front regs none = none
front regs (some (more, code)) = some (regs ++ more, code)

-- The registers of so many arguments, and the code behind them; `none` is code that ends before.
unfoldable pub read_args : ℕ → List ℕ → Option (List ℕ × List ℕ)
read_args zero code = some ([], code)
read_args (suc zero) (op ∷ (a ∷ (b ∷ (c ∷ code)))) = some (a ∷ [], code)
read_args (suc (suc zero)) (op ∷ (a ∷ (b ∷ (c ∷ code)))) = some (a ∷ (b ∷ []), code)
read_args (suc (suc (suc n))) (op ∷ (a ∷ (b ∷ (c ∷ code)))) =
    front (a ∷ (b ∷ (c ∷ []))) (read_args n code)
read_args _ _ = none

-- The machine reads the registers of a call's arguments back from the code that the parser generates for
-- them, and goes on behind it.
pub read_args-args_code :
    (regs code : List ℕ) → read_args (length regs) (args_code regs ++ code) ≡ some (regs, code)
unfolding read_args args_code
read_args-args_code [] code = refl
read_args-args_code (a ∷ []) code = refl
read_args-args_code (a ∷ (b ∷ [])) code = refl
read_args-args_code (a ∷ (b ∷ (c ∷ rest))) code = rw (read_args-args_code rest code) refl
