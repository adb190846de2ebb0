-- ===== src/Tests/Statements.antt =====
-- The statements of src/core/parser/impl/stmt.c at concrete inputs.
use aument.BitArray.{get, bit, set_at, set_bit, reset_at, reset_bit}
use aument.Tests.Values.{natural_float}
use aument.Tests.Machine.{no_data, fresh}
use aument.Value.{Value, is_truthy}
use aument.Vm.{Insn, Machine, next}
use aument.Vm.Step.{tick}
use aument.Vm.Opcode.{decode}
use aument.Vm.Code.{insns}
use aument.Parser.Statements.Control.Loops.{exec_while-tick}
use aument.Parser.Statements.Control.Leave.{leave}
use aument.Parser.Statements.Control.Branches.{exec_if-tick}
use aument.Parser.Statements.Control.Falling.{exec_if-falls_into_else}
use mathlib.Core.Path.{subst}
use aument.Parser.State.Ensures.{Ensures}
use aument.Parser.Statements.Scopes.{
  IsNumbered, IsNumberedFrom, total, IsScoped, Scoped, scoped, aside,
}
use aument.Parser.Statements.Scopes.Programs.{Restores, block_at-Restores}
use aument.Parser.Statements.Operand.{exec_let_new-operand}
use aument.Prelude.{
  ℕ, ◌+◌, ◌*◌, ◌≡◌, refl, false, Option, none, some, List, [], ◌∷◌, ◌++◌, if◌then◌else◌, length,
  arith, Bool-cases, inl, inr,
}
use aument.Lexer.{identifier, operator}
use aument.Parser.Regs.{
  Regs, init, new_reg, pop_reg, flush_cached_regs, first_free, set_reg_unused, flush_free_regs,
  last_reg,
}
use aument.Parser.Program.{Program}
use aument.Parser.Emit.{replace_bc_u16}
use aument.Parser.State.{
  Source, Parser, Result, ok, failed, unexpected_token, bytecode_gen, M, first, rest_of, is_eof,
  with_code, keyword_cmp, pop, last, replace, lookup, resolve, bump_local, pop_locals,
}
use aument.Parser.Statements.{
  innermost, byte_before_end, close_scope, open_scope, emit_return, exec_const_statement,
  exec_let_new, exec_let_old, exec_let_statement, exec_name, exec_raise_statement,
  exec_return_statement, is_return_op, loads_last, patch, print_one, recache, with_semicolon,
}
use aument.Parser.Statements.Control.{
  exec_while, exec_if, exec_else, exec_tail, exec_condition, emit_leave, emit_jump_out, patch_leave,
  block_loop, exec_block, comma_loop, comma_list, word_if, word_else,
}
use aument.Parser.Statements.Control.While.{after_condition, flushed}
use aument.Parser.Statements.Run.{
  Kind, block_at, if_at, statement_at, exec_program, exec_statement, exec_kind, classify,
  add_source_map, program_loop,
}

abbrev pub word : List ℕ → Source
word src = record { token = record { type = identifier; src = src }; start = 0 }

abbrev pub symbol : ℕ → Source
symbol ch = record { token = record { type = operator; src = ch ∷ [] }; start = 0 }

abbrev placed : Parser → Option (ℕ × Regs) → Result (Unit {0} × Parser)
placed p none = failed bytecode_gen
placed p (some (reg, regs)) =
    ok
      (tt, record p { out = record { regs = regs; bc = p.out.bc ++ (4 ∷ (1 ∷ (reg ∷ (0 ∷ [])))) } })

-- an expression of one token, which is true
abbrev one_token : M (Unit {0})
one_token p =
    if is_eof (first p.input).token
    then failed (unexpected_token (first p.input).token)
    else placed (record p { input = rest_of p.input }) (new_reg p.out.regs)

abbrev no_top : Kind → M (Unit {0})
no_top kind p = failed bytecode_gen

abbrev pub no_program : Program
no_program = record {
  fns = [];
  fn_map = [];
  fn_names = [];
  data_val = [];
  imports = [];
  imported_module_map = [];
  imported_modules = [];
  classes = [];
  class_map = [];
}

abbrev pub parser : List Source → Parser
parser input = record {
  input = input;
  out = record { regs = init; bc = [] };
  vars = [] ∷ [];
  local_placement = 0;
  max_locals = 0;
  consts = [];
  exported_consts = [];
  program = no_program;
  self_name = none;
  self_num_args = 0;
  self_fill_call = [];
  class_interface = none;
  top_consts = none;
  func_idx = 0;
  block_level = 0;
  may_fail = false;
  source_map = [];
}

abbrev pub state_of : {A : Type 0} → Result (A × Parser) → Parser
state_of (ok (a, p)) = p
state_of _ = parser []

abbrev pub code_of : {A : Type 0} → Result (A × Parser) → List ℕ
code_of r = (state_of r).out.bc

abbrev pub x : Source
x = word (120 ∷ [])

-- `while x { print x; }`, `let y = x;`, and `if x { return x; } else { let y = x; }`
abbrev while_word : Source
while_word = word (119 ∷ (104 ∷ (105 ∷ (108 ∷ (101 ∷ [])))))

abbrev pub print_word : Source
print_word = word (112 ∷ (114 ∷ (105 ∷ (110 ∷ (116 ∷ [])))))

abbrev print_block : List Source
print_block = symbol 123 ∷ (print_word ∷ (x ∷ (symbol 59 ∷ (symbol 125 ∷ []))))

loop_code :
    code_of (statement_at one_token no_top 5 (parser (while_word ∷ (x ∷ print_block))))
    ≡ 4
      ∷ (1
          ∷ (0
              ∷ (0
                  ∷ (21
                      ∷ (0
                          ∷ (4
                              ∷ (0
                                  ∷ (4
                                      ∷ (1
                                          ∷ (0
                                              ∷ (0
                                                  ∷ (46
                                                      ∷ (0
                                                          ∷ (0
                                                            ∷ (0
                                                            ∷ (23
                                                            ∷ (0 ∷ (4 ∷ (0 ∷ [])))))))))))))))))))
unfolding get bit set_at set_bit reset_at reset_bit replace_bc_u16 first_free new_reg pop_reg
    set_reg_unused flush_cached_regs flush_free_regs last_reg insns decode is_truthy keyword_cmp pop
    last replace lookup resolve bump_local pop_locals exec_while exec_if exec_tail exec_else
    exec_condition emit_leave emit_jump_out patch_leave block_loop exec_block comma_loop comma_list
    word_if word_else statement_at block_at if_at exec_statement exec_kind classify add_source_map
    program_loop exec_program byte_before_end close_scope open_scope emit_return
    exec_const_statement exec_let_new exec_let_old exec_let_statement exec_name exec_raise_statement
    exec_return_statement is_return_op loads_last patch print_one recache with_semicolon
loop_code = refl

-- the parts of a loop, of an if with `else`, and of one whose block ends with an inner if that returns
abbrev block : M (Unit {0})
block = block_at one_token no_top 5

abbrev else_if : M (Unit {0})
else_if = if_at one_token no_top 5

abbrev regs_of : Option (ℕ × Regs) → Regs
regs_of none = init
regs_of (some (reg, regs)) = regs

abbrev at_loop : Parser
at_loop = parser (x ∷ print_block)

abbrev tested_loop : Parser
tested_loop = state_of (one_token (flushed at_loop))

abbrev popped_loop : Regs
popped_loop = regs_of (pop_reg (flush_cached_regs tested_loop.out.regs))

abbrev block_done : Parser
block_done = state_of (block (after_condition tested_loop 0 popped_loop))

abbrev loop_done : Parser
loop_done = state_of (exec_while one_token block at_loop)

abbrev true_code : List ℕ
true_code = 4 ∷ (1 ∷ (0 ∷ (0 ∷ [])))

abbrev print_code : List ℕ
print_code = true_code ++ (46 ∷ (0 ∷ (0 ∷ (0 ∷ []))))

abbrev code_from : Option (List Insn) → List Insn
code_from none = []
code_from (some code) = code

abbrev machine_at : ℕ → Machine ℕ
machine_at n = record fresh { pc = n }

exec_while-tick_example :
    (after after' : List Insn) × (tick natural_float no_data
        (code_from (insns (loop_done.out.bc ++ [])))
        (machine_at 1)
      ≡ some (after, next (record (machine_at 1) { pc = 5 })))
    × (tick natural_float no_data (code_from (insns (loop_done.out.bc ++ []))) (machine_at 4)
        ≡ some (after', next (record (machine_at 4) { pc = 0 })))
unfolding get bit set_at set_bit reset_at reset_bit replace_bc_u16 first_free new_reg pop_reg
    set_reg_unused flush_cached_regs flush_free_regs last_reg insns decode is_truthy keyword_cmp pop
    last replace lookup resolve bump_local pop_locals exec_while exec_if exec_tail exec_else
    exec_condition emit_leave emit_jump_out patch_leave block_loop exec_block comma_loop comma_list
    word_if word_else statement_at block_at if_at exec_statement exec_kind classify add_source_map
    program_loop exec_program byte_before_end close_scope open_scope emit_return
    exec_const_statement exec_let_new exec_let_old exec_let_statement exec_name exec_raise_statement
    exec_return_statement is_return_op loads_last patch print_one recache with_semicolon
exec_while-tick_example =
    exec_while-tick one_token block at_loop tested_loop block_done loop_done popped_loop 0 0 1 2
      true_code print_code [] natural_float no_data (code_from (insns (loop_done.out.bc ++ [])))
      (machine_at 1) (machine_at 4) Value.none refl refl refl refl refl refl refl refl refl refl
      refl refl refl

abbrev else_word : Source
else_word = word (101 ∷ (108 ∷ (115 ∷ (101 ∷ []))))

abbrev if_word : Source
if_word = word (105 ∷ (102 ∷ []))

abbrev return_word : Source
return_word = word (114 ∷ (101 ∷ (116 ∷ (117 ∷ (114 ∷ (110 ∷ []))))))

-- `x { print x; } else { print x; }` behind an `if`
abbrev at_if : Parser
at_if = parser (x ∷ (print_block ++ (else_word ∷ print_block)))

abbrev tested_if : Parser
tested_if = state_of (one_token (flushed at_if))

abbrev block_if : Parser
block_if = state_of (block (after_condition tested_if 0 popped_loop))

abbrev at_else : Parser
at_else = record (with_code (block_if.out.bc ++ leave false 0) (flushed block_if)) {
  input = rest_of block_if.input;
}

abbrev else_done : Parser
else_done = state_of (exec_else block else_if at_else)

abbrev if_done : Parser
if_done = state_of (exec_if one_token block else_if at_if)

exec_if-tick_example :
    (rewritten rewritten' : List Insn) × (tick natural_float no_data
        (code_from (insns (if_done.out.bc ++ [])))
        (machine_at 1)
      ≡ some (rewritten, next (record (machine_at 1) { pc = 5 })))
    × (tick natural_float no_data (code_from (insns (if_done.out.bc ++ []))) (machine_at 4)
        ≡ some (rewritten', next (record (machine_at 4) { pc = 8 })))
unfolding get bit set_at set_bit reset_at reset_bit replace_bc_u16 first_free new_reg pop_reg
    set_reg_unused flush_cached_regs flush_free_regs last_reg insns decode is_truthy keyword_cmp pop
    last replace lookup resolve bump_local pop_locals exec_while exec_if exec_tail exec_else
    exec_condition emit_leave emit_jump_out patch_leave block_loop exec_block comma_loop comma_list
    word_if word_else statement_at block_at if_at exec_statement exec_kind classify add_source_map
    program_loop exec_program byte_before_end close_scope open_scope emit_return
    exec_const_statement exec_let_new exec_let_old exec_let_statement exec_name exec_raise_statement
    exec_return_statement is_return_op loads_last patch print_one recache with_semicolon
exec_if-tick_example =
    exec_if-tick one_token block else_if at_if tested_if block_if else_done if_done popped_loop 0 1
      2 2 true_code print_code print_code [] false natural_float no_data
      (code_from (insns (if_done.out.bc ++ []))) (machine_at 1) (machine_at 4) Value.none refl refl
      refl refl refl refl refl refl refl refl refl refl refl refl refl refl refl refl

-- `x { if x { return x; } } else { print x; }` behind an `if`
abbrev return_block : List Source
return_block = symbol 123 ∷ (return_word ∷ (x ∷ (symbol 59 ∷ (symbol 125 ∷ []))))

abbrev at_falling : Parser
at_falling = parser (
    x ∷ (symbol 123 ∷ (if_word ∷ (x ∷ (return_block ++ (symbol 125 ∷ (else_word ∷ print_block)))))))

abbrev tested_falling : Parser
tested_falling = state_of (one_token (flushed at_falling))

abbrev block_falling : Parser
block_falling = state_of (block (after_condition tested_falling 0 popped_loop))

abbrev else_falling : Parser
else_falling = state_of (
    exec_else block else_if
      (record (with_code (block_falling.out.bc ++ []) (flushed block_falling)) {
        input = rest_of block_falling.input;
      }))

abbrev falling_done : Parser
falling_done = state_of (exec_if one_token block else_if at_falling)

exec_if-falls_into_else_example :
    (rewritten : List Insn) × (before : List ℕ) × (tick natural_float no_data
        (code_from (insns (falling_done.out.bc ++ [])))
        (machine_at 3)
      ≡ some (rewritten, next (record (machine_at 3) { pc = 6 })))
    × (falling_done.out.bc ≡ before ++ (print_code ++ leave false 1))
    × (length before ≡ 24)
unfolding get bit set_at set_bit reset_at reset_bit replace_bc_u16 first_free new_reg pop_reg
    set_reg_unused flush_cached_regs flush_free_regs last_reg insns decode is_truthy keyword_cmp pop
    last replace lookup resolve bump_local pop_locals exec_while exec_if exec_tail exec_else
    exec_condition emit_leave emit_jump_out patch_leave block_loop exec_block comma_loop comma_list
    word_if word_else statement_at block_at if_at exec_statement exec_kind classify add_source_map
    program_loop exec_program byte_before_end close_scope open_scope emit_return
    exec_const_statement exec_let_new exec_let_old exec_let_statement exec_name exec_raise_statement
    exec_return_statement is_return_op loads_last patch print_one recache with_semicolon
exec_if-falls_into_else_example =
    exec_if-falls_into_else one_token block else_if at_falling tested_falling block_falling
      else_falling falling_done popped_loop 0 0 1 2 1 2 true_code true_code
      (true_code ++ (27 ∷ (0 ∷ (0 ∷ (0 ∷ []))))) print_code [] false natural_float no_data
      (code_from (insns (falling_done.out.bc ++ []))) (machine_at 3) Value.none refl refl refl refl
      refl refl refl (omega arith) refl refl refl refl refl refl refl refl refl refl refl refl

placed-Scoped :
    (p q : Parser) (o : Option (ℕ × Regs)) {a : Unit {0}} → placed p o ≡ ok (a, q) → Scoped p q
placed-Scoped p q none e = absurd (cc)
placed-Scoped p q (some (reg, regs)) e = subst (Scoped p) (cc) (
    aside p
      (record p { out = record { regs = regs; bc = p.out.bc ++ (4 ∷ (1 ∷ (reg ∷ (0 ∷ [])))) } })
      refl refl refl refl)

one_token-Scoped : Ensures scoped one_token
one_token-Scoped = record {
  at = λ p q a e. elim (Bool-cases (is_eof (first p.input).token)) [
    | inl ended ↦ let refused = rw ended at e in absurd (cc)
    | inr more ↦
        scoped.transitive p (record p { input = rest_of p.input }) q (aside p _ refl refl refl refl)
          (placed-Scoped (record p { input = rest_of p.input }) q (new_reg p.out.regs)
            (rw more at e))
  ];
}

no_top-Scoped : (kind : Kind) → Ensures scoped (no_top kind)
no_top-Scoped kind = record { at = λ p q a e. absurd (cc) }

-- `let y = x;` with the variable `x` in local 0
abbrev pub let_statement : List Source
let_statement =
    word (108 ∷ (101 ∷ (116 ∷ []))) ∷ (word (121 ∷ []) ∷ (symbol 61 ∷ (x ∷ (symbol 59 ∷ []))))

abbrev pub with_x : List Source → Parser
with_x input = record (parser input) {
  vars = ((120 ∷ [], 0) ∷ []) ∷ [];
  local_placement = 1;
  max_locals = 1;
}

pub with_x-IsScoped : (input : List Source) → IsScoped (with_x input)
unfolding get bit set_at set_bit reset_at reset_bit replace_bc_u16 first_free new_reg pop_reg
    set_reg_unused flush_cached_regs flush_free_regs last_reg total IsNumbered IsNumberedFrom insns
    decode is_truthy keyword_cmp pop last replace lookup resolve bump_local pop_locals exec_while
    exec_if exec_tail exec_else exec_condition emit_leave emit_jump_out patch_leave block_loop
    exec_block comma_loop comma_list word_if word_else statement_at block_at if_at exec_statement
    exec_kind classify add_source_map program_loop exec_program byte_before_end close_scope
    open_scope emit_return exec_const_statement exec_let_new exec_let_old exec_let_statement
    exec_name exec_raise_statement exec_return_statement is_return_op loads_last patch print_one
    recache with_semicolon
with_x-IsScoped input = record {
  numbered = ((refl, refl, tt), tt);
  placed = refl;
  bounded = omega arith;
  inside = omega arith;
}

abbrev let_done : Parser
let_done = state_of (statement_at one_token no_top 3 (with_x let_statement))

-- the block `{ let y = x; }`
abbrev let_block : Parser
let_block = with_x (symbol 123 ∷ (let_statement ++ (symbol 125 ∷ [])))

block_at-Restores_example : Restores let_block (state_of (block_at one_token no_top 3 let_block))
unfolding get bit set_at set_bit reset_at reset_bit replace_bc_u16 first_free new_reg pop_reg
    set_reg_unused flush_cached_regs flush_free_regs last_reg total IsNumbered IsNumberedFrom insns
    decode is_truthy keyword_cmp pop last replace lookup resolve bump_local pop_locals exec_while
    exec_if exec_tail exec_else exec_condition emit_leave emit_jump_out patch_leave block_loop
    exec_block comma_loop comma_list word_if word_else statement_at block_at if_at exec_statement
    exec_kind classify add_source_map program_loop exec_program byte_before_end close_scope
    open_scope emit_return exec_const_statement exec_let_new exec_let_old exec_let_statement
    exec_name exec_raise_statement exec_return_statement is_return_op loads_last patch print_one
    recache with_semicolon
block_at-Restores_example =
    block_at-Restores one_token no_top one_token-Scoped no_top-Scoped 3 let_block
      (state_of (block_at one_token no_top 3 let_block)) refl

exec_let_new-operand_example :
    (q : Parser) × (low high : ℕ) × (exec_let_new
        (121 ∷ [])
        (record (with_x []) { local_placement = 65536 })
      ≡ ok (tt, q))
    × (lookup (121 ∷ []) (innermost q.vars) ≡ some 65536)
    × (q.out.bc ≡ low ∷ (high ∷ []))
    × (low + 256 * high ≡ 0)
unfolding get bit set_at set_bit reset_at reset_bit replace_bc_u16 first_free new_reg pop_reg
    set_reg_unused flush_cached_regs flush_free_regs last_reg total IsNumbered IsNumberedFrom insns
    decode is_truthy keyword_cmp pop last replace lookup resolve bump_local pop_locals exec_while
    exec_if exec_tail exec_else exec_condition emit_leave emit_jump_out patch_leave block_loop
    exec_block comma_loop comma_list word_if word_else statement_at block_at if_at exec_statement
    exec_kind classify add_source_map program_loop exec_program byte_before_end close_scope
    open_scope emit_return exec_const_statement exec_let_new exec_let_old exec_let_statement
    exec_name exec_raise_statement exec_return_statement is_return_op loads_last patch print_one
    recache with_semicolon
exec_let_new-operand_example =
    exec_let_new-operand (121 ∷ []) (record (with_x []) { local_placement = 65536 }) (omega arith)
      (omega arith)
