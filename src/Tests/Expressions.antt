-- ===== src/Tests/Expressions.antt =====
-- The expressions and declarations of src/core/parser/impl at concrete inputs.
use aument.Parser.Statements.{
  byte_before_end, close_scope, open_scope, emit_return, exec_const_statement, exec_let_new,
  exec_let_old, exec_let_statement, exec_name, exec_raise_statement, exec_return_statement,
  is_return_op, loads_last, patch, print_one, recache, with_semicolon,
}
use aument.Parser.Statements.Run.{
  statement_at, block_at, if_at, exec_statement, exec_kind, classify, add_source_map, program_loop,
  exec_program,
}
use aument.Parser.Statements.Control.{
  exec_while, exec_if, exec_tail, exec_else, exec_condition, emit_leave, emit_jump_out, patch_leave,
  block_loop, exec_block, comma_loop, comma_list, word_if, word_else,
}
use aument.Value.{is_truthy}
use aument.Vm.Opcode.{decode}
use aument.Vm.Code.{insns}
use aument.Parser.Statements.Scopes.{total, IsNumbered, IsNumberedFrom}
use aument.Parser.Regs.{
  first_free, new_reg, pop_reg, set_reg_unused, push_reg, swap_top_regs, pop_reg_take_ownership,
  del_reg_from_ownership, flush_cached_regs, flush_free_regs, last_reg,
}
use aument.Parser.Emit.{replace_bc_u16, emit_jnif}
use aument.BitArray.{get, bit, set_at, set_bit, reset_at, reset_bit}
use aument.Parser.Declarations.Function.{
  function_parser, in_function, declare_arg, place_arg, name_self, exec_self, exec_parameter,
  read_parameters, exec_parameters, check_num_args, fill_calls, store_function, finish_function,
  exec_function, exec_func_statement,
}
use aument.Parser.Declarations.Head.{
  add_module_class, resolve_class, exec_receiver, exec_head, method_slot, add_method, redefine,
  old_slot, new_slot, exec_slot,
}
use aument.Parser.Declarations.{
  import_as, exec_import_statement, exec_field, exec_fields, exec_struct_statement,
}
use aument.Parser.Expressions.Values.{
  load_bool, load_nil, load_indexed, add_module_const, exec_module_const, load_local, push_cached,
  exec_local, exec_const, exec_variable, exec_named, exec_dot, load_field, exec_parens,
  exec_operator, exec_name_or_call, exec_new_or_name, exec_identifier, exec_at_identifier,
  exec_value_of, exec_value,
}
use aument.Parser.Expressions.Objects.{
  exec_dict, set_fields, give_back_fields, exec_new_plain, exec_new_initialized, exec_item,
  exec_items, exec_array_or_tuple, exec_initializer, exec_initializers, exec_new_expr,
}
use aument.Parser.Expressions.Literals.{
  hex_value, decimal_value, hex_loop, decimal_loop, int_literal_value, fits_operand, load_const,
  load_data, load_number, exec_int, exec_double, escape_step, escape_loop, string_bytes,
  exec_string, exec_char_string,
}
use aument.Parser.Expressions.Binary.{
  exec_prefix, exec_unary_expr, generate, reduce_stack, drain_stack, binary_loop, exec_and_rest,
  exec_or_rest, exec_logical_expr,
}
use aument.Parser.Expressions.Index.{
  exec_element_name, load_func, index_operator, index_get, bind_method, index_set, exec_index,
  exec_call_value, exec_method, exec_member, index_loop, exec_index_expr,
}
use aument.Parser.Expressions.Assign.{
  field_of, exec_field_operator, exec_assign_field, exec_assign_plain, fresh_result,
  result_register, exec_assign_compound, exec_assign_expr,
}
use aument.Parser.Expressions.Calls.{
  closing, exec_arg, arg_loop, exec_call_args, args_code, check_calling, check_self, check_fn,
  check_call, calling_op, fill_later, fill_index, emit_call, self_params, exec_call,
}
use aument.Parser.Expressions.{is_assign_tok, compound_op, extend_to, cache, drop_operands}
use aument.Parser.Operators.Generate.{operator_info_generate}
use aument.Parser.Operators.{get_operator_info}
use aument.Parser.Logical.{start_and, finish_and, patch_jumps}
use aument.Parser.Resolve.{create, resolve_imported, resolve_own, resolve_fn}
use aument.Parser.State.Lists.{fold_loop, fold_list}
use aument.Parser.State.Steps.{
  on_out, allocate, on_regs, take_ownership, give_back, give_back_all, write_program, add_data,
  set_self_may_fail, option_case, undefined, resolve_module, within,
}
use aument.Prelude.{false, ℕ, ◌<◌, ◌≡◌, refl, none, some, List, [], ◌∷◌, ◌++◌, length, arith}
use aument.Lexer.{operator, int_literal, string}
use aument.Word.{imul_add, imul, iadd}
use aument.Lexer.Scan.{scan, token}
use aument.Tests.Statements.{
  word, symbol, parser, state_of, code_of, x, no_program, with_x, with_x-IsScoped, let_statement,
}
use aument.Parser.Program.{Fn, bc_func, Callee}
use aument.Parser.Regs.{Regs}
use aument.Parser.Statements.{done}
use aument.Parser.Declarations.Scoped.{statement-IsDistinct}
use aument.Parser.Declarations.Uncounted.{exec_parameters-uncounted}
use aument.Parser.Expressions.Linked.{IsBelow, AreLinked, IsLinked, Extends}
use aument.Parser.Expressions.Linked.Resolve.{Outcome, resolve_fn-Outcome}
use aument.Parser.Expressions.Linked.Keep.{expr_at-Extends}
use aument.Parser.Expressions.Literals.Escapes.{unescape, ends_open, string_bytes-unescape}
use aument.Parser.Expressions.Literals.Numbers.{
  number_from, IsDigits, Loads, exec_int-Loads, exec_int_overflow,
}
use aument.Lexer.Roundtrip.{stops}
use aument.Parser.State.{aborted}
use aument.Parser.Expressions.Literals.Quoted.{escape, scan-string_bytes}
use aument.Vm.Args.{read_args, read_args-args_code}
use aument.Parser.State.{
  Source, Parser, keyword_cmp, pop, last, replace, lookup, resolve, bump_local, pop_locals,
}
use aument.Parser.Expressions.Run.{expr_at, exec_level}
use aument.Parser.Declarations.Run.{
  parse, exec_public_statement, exec_declaration, undefined_function, top_at, exec,
}

abbrev number : List ℕ → Source
number src = record { token = record { type = int_literal; src = src }; start = 0 }

abbrev text : List ℕ → Source
text src = record { token = record { type = string; src = src }; start = 0 }

abbrev no_strtod : List ℕ → ℕ
no_strtod src = 0

-- `f(1)`
abbrev call : List Source
call = word (102 ∷ []) ∷ (symbol 40 ∷ (number (49 ∷ []) ∷ (symbol 41 ∷ [])))

call_code :
    code_of (expr_at no_strtod 5 (parser call))
    ≡ 1 ∷ (0 ∷ (1 ∷ (0 ∷ (24 ∷ (1 ∷ (0 ∷ (0 ∷ (47 ∷ (0 ∷ (0 ∷ (0 ∷ [])))))))))))
unfolding on_out allocate on_regs take_ownership give_back give_back_all write_program add_data
    set_self_may_fail option_case undefined resolve_module within fold_loop fold_list create
    resolve_imported resolve_own resolve_fn start_and finish_and patch_jumps get_operator_info
    operator_info_generate is_assign_tok compound_op extend_to cache drop_operands closing exec_arg
    arg_loop exec_call_args args_code check_calling check_self check_fn check_call calling_op
    fill_later fill_index emit_call self_params exec_call field_of exec_field_operator
    exec_assign_field exec_assign_plain fresh_result result_register exec_assign_compound
    exec_assign_expr exec_element_name load_func index_operator index_get bind_method index_set
    exec_index exec_call_value exec_method exec_member index_loop exec_index_expr exec_prefix
    exec_unary_expr generate reduce_stack drain_stack binary_loop exec_and_rest exec_or_rest
    exec_logical_expr hex_value decimal_value hex_loop decimal_loop imul_add imul iadd
    int_literal_value fits_operand load_const load_data load_number exec_int exec_double escape_step
    escape_loop string_bytes exec_string exec_char_string exec_dict set_fields give_back_fields
    exec_new_plain exec_new_initialized exec_item exec_items exec_array_or_tuple exec_initializer
    exec_initializers exec_new_expr load_bool load_nil load_indexed add_module_const
    exec_module_const load_local push_cached exec_local exec_const exec_variable exec_named exec_dot
    load_field exec_parens exec_operator exec_name_or_call exec_new_or_name exec_identifier
    exec_at_identifier exec_value_of exec_value exec_level expr_at import_as exec_import_statement
    exec_field exec_fields exec_struct_statement add_module_class resolve_class exec_receiver
    exec_head method_slot add_method redefine old_slot new_slot exec_slot in_function declare_arg
    place_arg name_self exec_self exec_parameter read_parameters exec_parameters check_num_args
    fill_calls store_function finish_function exec_function exec_func_statement
    exec_public_statement exec_declaration undefined_function top_at exec parse get bit set_at
    set_bit reset_at reset_bit replace_bc_u16 first_free new_reg pop_reg set_reg_unused push_reg
    swap_top_regs pop_reg_take_ownership del_reg_from_ownership flush_cached_regs flush_free_regs
    last_reg total IsNumbered IsNumberedFrom insns decode is_truthy keyword_cmp pop last replace
    lookup resolve bump_local pop_locals exec_while exec_if exec_tail exec_else exec_condition
    emit_leave emit_jump_out patch_leave block_loop exec_block comma_loop comma_list word_if
    word_else statement_at block_at if_at exec_statement exec_kind classify add_source_map
    program_loop exec_program byte_before_end close_scope open_scope emit_return
    exec_const_statement exec_let_new exec_let_old exec_let_statement exec_name exec_raise_statement
    exec_return_statement is_return_op loads_last patch print_one recache with_semicolon
call_code = refl

-- `(1 + 2) && x[1]` with x in local 0
abbrev logical : List Source
logical =
    symbol 40
    ∷ (number (49 ∷ [])
        ∷ (symbol 43
            ∷ (number (50 ∷ [])
                ∷ (symbol 41
                    ∷ (record {
                      token = record { type = operator; src = 38 ∷ (38 ∷ []) };
                      start = 0;
                    }
                        ∷ (x ∷ (symbol 91 ∷ (number (49 ∷ []) ∷ (symbol 93 ∷ [])))))))))

logical_size : length (code_of (expr_at no_strtod 8 (with_x logical))) ≡ 40
unfolding on_out allocate on_regs take_ownership give_back give_back_all write_program add_data
    set_self_may_fail option_case undefined resolve_module within fold_loop fold_list create
    resolve_imported resolve_own resolve_fn start_and finish_and patch_jumps get_operator_info
    operator_info_generate is_assign_tok compound_op extend_to cache drop_operands closing exec_arg
    arg_loop exec_call_args args_code check_calling check_self check_fn check_call calling_op
    fill_later fill_index emit_call self_params exec_call field_of exec_field_operator
    exec_assign_field exec_assign_plain fresh_result result_register exec_assign_compound
    exec_assign_expr exec_element_name load_func index_operator index_get bind_method index_set
    exec_index exec_call_value exec_method exec_member index_loop exec_index_expr exec_prefix
    exec_unary_expr generate reduce_stack drain_stack binary_loop exec_and_rest exec_or_rest
    exec_logical_expr hex_value decimal_value hex_loop decimal_loop imul_add imul iadd
    int_literal_value fits_operand load_const load_data load_number exec_int exec_double escape_step
    escape_loop string_bytes exec_string exec_char_string exec_dict set_fields give_back_fields
    exec_new_plain exec_new_initialized exec_item exec_items exec_array_or_tuple exec_initializer
    exec_initializers exec_new_expr load_bool load_nil load_indexed add_module_const
    exec_module_const load_local push_cached exec_local exec_const exec_variable exec_named exec_dot
    load_field exec_parens exec_operator exec_name_or_call exec_new_or_name exec_identifier
    exec_at_identifier exec_value_of exec_value exec_level expr_at import_as exec_import_statement
    exec_field exec_fields exec_struct_statement add_module_class resolve_class exec_receiver
    exec_head method_slot add_method redefine old_slot new_slot exec_slot in_function declare_arg
    place_arg name_self exec_self exec_parameter read_parameters exec_parameters check_num_args
    fill_calls store_function finish_function exec_function exec_func_statement
    exec_public_statement exec_declaration undefined_function top_at exec parse get bit set_at
    set_bit reset_at reset_bit replace_bc_u16 emit_jnif first_free new_reg pop_reg set_reg_unused
    push_reg swap_top_regs pop_reg_take_ownership del_reg_from_ownership flush_cached_regs
    flush_free_regs last_reg total IsNumbered IsNumberedFrom insns decode is_truthy keyword_cmp pop
    last replace lookup resolve bump_local pop_locals exec_while exec_if exec_tail exec_else
    exec_condition emit_leave emit_jump_out patch_leave block_loop exec_block comma_loop comma_list
    word_if word_else statement_at block_at if_at exec_statement exec_kind classify add_source_map
    program_loop exec_program byte_before_end close_scope open_scope emit_return
    exec_const_statement exec_let_new exec_let_old exec_let_statement exec_name exec_raise_statement
    exec_return_statement is_return_op loads_last patch print_one recache with_semicolon
logical_size = refl

abbrev plus : List Source
plus = number (49 ∷ []) ∷ (symbol 43 ∷ (number (50 ∷ []) ∷ []))

plus_code :
    code_of (expr_at no_strtod 5 (parser plus))
    ≡ 1 ∷ (0 ∷ (1 ∷ (0 ∷ (1 ∷ (1 ∷ (2 ∷ (0 ∷ (10 ∷ (0 ∷ (1 ∷ (0 ∷ [])))))))))))
unfolding on_out allocate on_regs take_ownership give_back give_back_all write_program add_data
    set_self_may_fail option_case undefined resolve_module within fold_loop fold_list create
    resolve_imported resolve_own resolve_fn start_and finish_and patch_jumps get_operator_info
    operator_info_generate is_assign_tok compound_op extend_to cache drop_operands closing exec_arg
    arg_loop exec_call_args args_code check_calling check_self check_fn check_call calling_op
    fill_later fill_index emit_call self_params exec_call field_of exec_field_operator
    exec_assign_field exec_assign_plain fresh_result result_register exec_assign_compound
    exec_assign_expr exec_element_name load_func index_operator index_get bind_method index_set
    exec_index exec_call_value exec_method exec_member index_loop exec_index_expr exec_prefix
    exec_unary_expr generate reduce_stack drain_stack binary_loop exec_and_rest exec_or_rest
    exec_logical_expr hex_value decimal_value hex_loop decimal_loop imul_add imul iadd
    int_literal_value fits_operand load_const load_data load_number exec_int exec_double escape_step
    escape_loop string_bytes exec_string exec_char_string exec_dict set_fields give_back_fields
    exec_new_plain exec_new_initialized exec_item exec_items exec_array_or_tuple exec_initializer
    exec_initializers exec_new_expr load_bool load_nil load_indexed add_module_const
    exec_module_const load_local push_cached exec_local exec_const exec_variable exec_named exec_dot
    load_field exec_parens exec_operator exec_name_or_call exec_new_or_name exec_identifier
    exec_at_identifier exec_value_of exec_value exec_level expr_at import_as exec_import_statement
    exec_field exec_fields exec_struct_statement add_module_class resolve_class exec_receiver
    exec_head method_slot add_method redefine old_slot new_slot exec_slot in_function declare_arg
    place_arg name_self exec_self exec_parameter read_parameters exec_parameters check_num_args
    fill_calls store_function finish_function exec_function exec_func_statement
    exec_public_statement exec_declaration undefined_function top_at exec parse get bit set_at
    set_bit reset_at reset_bit replace_bc_u16 first_free new_reg pop_reg set_reg_unused push_reg
    swap_top_regs pop_reg_take_ownership del_reg_from_ownership flush_cached_regs flush_free_regs
    last_reg total IsNumbered IsNumberedFrom insns decode is_truthy keyword_cmp pop last replace
    lookup resolve bump_local pop_locals exec_while exec_if exec_tail exec_else exec_condition
    emit_leave emit_jump_out patch_leave block_loop exec_block comma_loop comma_list word_if
    word_else statement_at block_at if_at exec_statement exec_kind classify add_source_map
    program_loop exec_program byte_before_end close_scope open_scope emit_return
    exec_const_statement exec_let_new exec_let_old exec_let_statement exec_name exec_raise_statement
    exec_return_statement is_return_op loads_last patch print_one recache with_semicolon
plus_code = refl

-- `func f(a, b) { return a; }`
abbrev function : List Source
function =
    word (102 ∷ (117 ∷ (110 ∷ (99 ∷ []))))
    ∷ (word (102 ∷ [])
        ∷ (symbol 40
            ∷ (word (97 ∷ [])
                ∷ (symbol 44
                    ∷ (word (98 ∷ [])
                        ∷ (symbol 41
                            ∷ (symbol 123
                                ∷ (word (114 ∷ (101 ∷ (116 ∷ (117 ∷ (114 ∷ (110 ∷ []))))))
                                    ∷ (word (97 ∷ []) ∷ (symbol 59 ∷ (symbol 125 ∷ [])))))))))))

abbrev counts_of : Callee → ℕ × ℕ
counts_of (bc_func body) = (body.num_args, body.num_locals)
counts_of _ = (0, 0)

abbrev counts : List Fn → List (ℕ × ℕ)
counts [] = []
counts (fn ∷ fns) = counts_of fn.callee ∷ counts fns

-- two arguments, and no local for them
two_uncounted : counts (state_of (parse no_strtod 14 (parser function))).program.fns ≡ (2, 0) ∷ []
unfolding on_out allocate on_regs take_ownership give_back give_back_all write_program add_data
    set_self_may_fail option_case undefined resolve_module within fold_loop fold_list create
    resolve_imported resolve_own resolve_fn start_and finish_and patch_jumps get_operator_info
    operator_info_generate is_assign_tok compound_op extend_to cache drop_operands closing exec_arg
    arg_loop exec_call_args args_code check_calling check_self check_fn check_call calling_op
    fill_later fill_index emit_call self_params exec_call field_of exec_field_operator
    exec_assign_field exec_assign_plain fresh_result result_register exec_assign_compound
    exec_assign_expr exec_element_name load_func index_operator index_get bind_method index_set
    exec_index exec_call_value exec_method exec_member index_loop exec_index_expr exec_prefix
    exec_unary_expr generate reduce_stack drain_stack binary_loop exec_and_rest exec_or_rest
    exec_logical_expr hex_value decimal_value hex_loop decimal_loop imul_add imul iadd
    int_literal_value fits_operand load_const load_data load_number exec_int exec_double escape_step
    escape_loop string_bytes exec_string exec_char_string exec_dict set_fields give_back_fields
    exec_new_plain exec_new_initialized exec_item exec_items exec_array_or_tuple exec_initializer
    exec_initializers exec_new_expr load_bool load_nil load_indexed add_module_const
    exec_module_const load_local push_cached exec_local exec_const exec_variable exec_named exec_dot
    load_field exec_parens exec_operator exec_name_or_call exec_new_or_name exec_identifier
    exec_at_identifier exec_value_of exec_value exec_level expr_at import_as exec_import_statement
    exec_field exec_fields exec_struct_statement add_module_class resolve_class exec_receiver
    exec_head method_slot add_method redefine old_slot new_slot exec_slot in_function declare_arg
    place_arg name_self exec_self exec_parameter read_parameters exec_parameters check_num_args
    fill_calls store_function finish_function exec_function exec_func_statement
    exec_public_statement exec_declaration undefined_function top_at exec parse get bit set_at
    set_bit reset_at reset_bit replace_bc_u16 first_free new_reg pop_reg set_reg_unused push_reg
    swap_top_regs pop_reg_take_ownership del_reg_from_ownership flush_cached_regs flush_free_regs
    last_reg total IsNumbered IsNumberedFrom insns decode is_truthy keyword_cmp pop last replace
    lookup resolve bump_local pop_locals exec_while exec_if exec_tail exec_else exec_condition
    emit_leave emit_jump_out patch_leave block_loop exec_block comma_loop comma_list word_if
    word_else statement_at block_at if_at exec_statement exec_kind classify add_source_map
    program_loop exec_program byte_before_end close_scope open_scope emit_return
    exec_const_statement exec_let_new exec_let_old exec_let_statement exec_name exec_raise_statement
    exec_return_statement is_return_op loads_last patch print_one recache with_semicolon
two_uncounted = refl

abbrev let_done : Parser
let_done =
    state_of (statement_at (expr_at no_strtod 6) (top_at no_strtod 6) 6 (with_x let_statement))

statement-IsDistinct_example :
    (1 < let_done.max_locals) × (◌≡◌ {A = ℕ} 1 0 → ◌≡◌ {A = List ℕ} (121 ∷ []) (120 ∷ []))
unfolding on_out allocate on_regs take_ownership give_back give_back_all write_program add_data
    set_self_may_fail option_case undefined resolve_module within fold_loop fold_list create
    resolve_imported resolve_own resolve_fn start_and finish_and patch_jumps get_operator_info
    operator_info_generate is_assign_tok compound_op extend_to cache drop_operands closing exec_arg
    arg_loop exec_call_args args_code check_calling check_self check_fn check_call calling_op
    fill_later fill_index emit_call self_params exec_call field_of exec_field_operator
    exec_assign_field exec_assign_plain fresh_result result_register exec_assign_compound
    exec_assign_expr exec_element_name load_func index_operator index_get bind_method index_set
    exec_index exec_call_value exec_method exec_member index_loop exec_index_expr exec_prefix
    exec_unary_expr generate reduce_stack drain_stack binary_loop exec_and_rest exec_or_rest
    exec_logical_expr hex_value decimal_value hex_loop decimal_loop imul_add imul iadd
    int_literal_value fits_operand load_const load_data load_number exec_int exec_double escape_step
    escape_loop string_bytes exec_string exec_char_string exec_dict set_fields give_back_fields
    exec_new_plain exec_new_initialized exec_item exec_items exec_array_or_tuple exec_initializer
    exec_initializers exec_new_expr load_bool load_nil load_indexed add_module_const
    exec_module_const load_local push_cached exec_local exec_const exec_variable exec_named exec_dot
    load_field exec_parens exec_operator exec_name_or_call exec_new_or_name exec_identifier
    exec_at_identifier exec_value_of exec_value exec_level expr_at import_as exec_import_statement
    exec_field exec_fields exec_struct_statement add_module_class resolve_class exec_receiver
    exec_head method_slot add_method redefine old_slot new_slot exec_slot in_function declare_arg
    place_arg name_self exec_self exec_parameter read_parameters exec_parameters check_num_args
    fill_calls store_function finish_function exec_function exec_func_statement
    exec_public_statement exec_declaration undefined_function top_at exec parse get bit set_at
    set_bit reset_at reset_bit replace_bc_u16 first_free new_reg pop_reg set_reg_unused push_reg
    swap_top_regs pop_reg_take_ownership del_reg_from_ownership flush_cached_regs flush_free_regs
    last_reg total IsNumbered IsNumberedFrom insns decode is_truthy keyword_cmp pop last replace
    lookup resolve bump_local pop_locals exec_while exec_if exec_tail exec_else exec_condition
    emit_leave emit_jump_out patch_leave block_loop exec_block comma_loop comma_list word_if
    word_else statement_at block_at if_at exec_statement exec_kind classify add_source_map
    program_loop exec_program byte_before_end close_scope open_scope emit_return
    exec_const_statement exec_let_new exec_let_old exec_let_statement exec_name exec_raise_statement
    exec_return_statement is_return_op loads_last patch print_one recache with_semicolon
statement-IsDistinct_example =
    statement-IsDistinct no_strtod 6 (with_x let_statement) let_done done
      (with_x-IsScoped let_statement) refl (121 ∷ []) (120 ∷ []) 1 0 refl refl

no_program-IsLinked : IsLinked no_program
unfolding IsBelow AreLinked
no_program-IsLinked = record { to_fns = tt; to_classes = tt; to_modules = tt; modules = tt }

resolve_fn-Outcome_example :
    Outcome (parser []) (resolve_fn none (word (102 ∷ [])).token 1 (parser []))
unfolding on_out allocate on_regs take_ownership give_back give_back_all write_program add_data
    set_self_may_fail option_case undefined resolve_module within fold_loop fold_list create
    resolve_imported resolve_own resolve_fn start_and finish_and patch_jumps get_operator_info
    operator_info_generate is_assign_tok compound_op extend_to cache drop_operands closing exec_arg
    arg_loop exec_call_args args_code check_calling check_self check_fn check_call calling_op
    fill_later fill_index emit_call self_params exec_call field_of exec_field_operator
    exec_assign_field exec_assign_plain fresh_result result_register exec_assign_compound
    exec_assign_expr exec_element_name load_func index_operator index_get bind_method index_set
    exec_index exec_call_value exec_method exec_member index_loop exec_index_expr exec_prefix
    exec_unary_expr generate reduce_stack drain_stack binary_loop exec_and_rest exec_or_rest
    exec_logical_expr hex_value decimal_value hex_loop decimal_loop imul_add imul iadd
    int_literal_value fits_operand load_const load_data load_number exec_int exec_double escape_step
    escape_loop string_bytes exec_string exec_char_string exec_dict set_fields give_back_fields
    exec_new_plain exec_new_initialized exec_item exec_items exec_array_or_tuple exec_initializer
    exec_initializers exec_new_expr load_bool load_nil load_indexed add_module_const
    exec_module_const load_local push_cached exec_local exec_const exec_variable exec_named exec_dot
    load_field exec_parens exec_operator exec_name_or_call exec_new_or_name exec_identifier
    exec_at_identifier exec_value_of exec_value exec_level expr_at import_as exec_import_statement
    exec_field exec_fields exec_struct_statement add_module_class resolve_class exec_receiver
    exec_head method_slot add_method redefine old_slot new_slot exec_slot in_function declare_arg
    place_arg name_self exec_self exec_parameter read_parameters exec_parameters check_num_args
    fill_calls store_function finish_function exec_function exec_func_statement
    exec_public_statement exec_declaration undefined_function top_at exec parse get bit set_at
    set_bit reset_at reset_bit replace_bc_u16 first_free new_reg pop_reg set_reg_unused push_reg
    swap_top_regs pop_reg_take_ownership del_reg_from_ownership flush_cached_regs flush_free_regs
    last_reg total IsNumbered IsNumberedFrom insns decode is_truthy keyword_cmp pop last replace
    lookup resolve bump_local pop_locals exec_while exec_if exec_tail exec_else exec_condition
    emit_leave emit_jump_out patch_leave block_loop exec_block comma_loop comma_list word_if
    word_else statement_at block_at if_at exec_statement exec_kind classify add_source_map
    program_loop exec_program byte_before_end close_scope open_scope emit_return
    exec_const_statement exec_let_new exec_let_old exec_let_statement exec_name exec_raise_statement
    exec_return_statement is_return_op loads_last patch print_one recache with_semicolon
resolve_fn-Outcome_example =
    resolve_fn-Outcome none (word (102 ∷ [])).token 1 (parser []) no_program-IsLinked

abbrev called : Parser
called = state_of (expr_at no_strtod 5 (parser call))

expr_at-Extends_example : Extends no_program called.program
unfolding on_out allocate on_regs take_ownership give_back give_back_all write_program add_data
    set_self_may_fail option_case undefined resolve_module within fold_loop fold_list create
    resolve_imported resolve_own resolve_fn start_and finish_and patch_jumps get_operator_info
    operator_info_generate is_assign_tok compound_op extend_to cache drop_operands closing exec_arg
    arg_loop exec_call_args args_code check_calling check_self check_fn check_call calling_op
    fill_later fill_index emit_call self_params exec_call field_of exec_field_operator
    exec_assign_field exec_assign_plain fresh_result result_register exec_assign_compound
    exec_assign_expr exec_element_name load_func index_operator index_get bind_method index_set
    exec_index exec_call_value exec_method exec_member index_loop exec_index_expr exec_prefix
    exec_unary_expr generate reduce_stack drain_stack binary_loop exec_and_rest exec_or_rest
    exec_logical_expr hex_value decimal_value hex_loop decimal_loop imul_add imul iadd
    int_literal_value fits_operand load_const load_data load_number exec_int exec_double escape_step
    escape_loop string_bytes exec_string exec_char_string exec_dict set_fields give_back_fields
    exec_new_plain exec_new_initialized exec_item exec_items exec_array_or_tuple exec_initializer
    exec_initializers exec_new_expr load_bool load_nil load_indexed add_module_const
    exec_module_const load_local push_cached exec_local exec_const exec_variable exec_named exec_dot
    load_field exec_parens exec_operator exec_name_or_call exec_new_or_name exec_identifier
    exec_at_identifier exec_value_of exec_value exec_level expr_at import_as exec_import_statement
    exec_field exec_fields exec_struct_statement add_module_class resolve_class exec_receiver
    exec_head method_slot add_method redefine old_slot new_slot exec_slot in_function declare_arg
    place_arg name_self exec_self exec_parameter read_parameters exec_parameters check_num_args
    fill_calls store_function finish_function exec_function exec_func_statement
    exec_public_statement exec_declaration undefined_function top_at exec parse get bit set_at
    set_bit reset_at reset_bit replace_bc_u16 first_free new_reg pop_reg set_reg_unused push_reg
    swap_top_regs pop_reg_take_ownership del_reg_from_ownership flush_cached_regs flush_free_regs
    last_reg total IsNumbered IsNumberedFrom insns decode is_truthy keyword_cmp pop last replace
    lookup resolve bump_local pop_locals exec_while exec_if exec_tail exec_else exec_condition
    emit_leave emit_jump_out patch_leave block_loop exec_block comma_loop comma_list word_if
    word_else statement_at block_at if_at exec_statement exec_kind classify add_source_map
    program_loop exec_program byte_before_end close_scope open_scope emit_return
    exec_const_statement exec_let_new exec_let_old exec_let_statement exec_name exec_raise_statement
    exec_return_statement is_return_op loads_last patch print_one recache with_semicolon
expr_at-Extends_example = expr_at-Extends no_strtod 5 (parser call) called refl no_program-IsLinked

-- `a\nb`
abbrev escaped_text : List ℕ
escaped_text = 97 ∷ (92 ∷ (110 ∷ (98 ∷ [])))

string_bytes-unescape_example : string_bytes escaped_text ≡ unescape false escaped_text
unfolding ends_open
string_bytes-unescape_example = string_bytes-unescape escaped_text refl

-- a new line, a backslash and a single quote, in single quotes and before a semicolon
abbrev quoted : List ℕ
quoted = 10 ∷ (92 ∷ (39 ∷ []))

scan-string_bytes_example :
    (scan 0 (39 ∷ (escape 39 quoted ++ (39 ∷ (59 ∷ []))))
      ≡ (token string (escape 39 quoted), 59 ∷ []))
    × (string_bytes (escape 39 quoted) ≡ quoted)
unfolding stops
scan-string_bytes_example = scan-string_bytes 0 39 quoted (59 ∷ []) refl refl

-- 40000, and the largest number of 32 bits
abbrev forty_thousand : List ℕ
forty_thousand = 52 ∷ (48 ∷ (48 ∷ (48 ∷ (48 ∷ []))))

forty_thousand-IsDigits : IsDigits forty_thousand
unfolding IsDigits
forty_thousand-IsDigits = (
  omega arith,
  omega arith,
  (
    omega arith,
    omega arith,
    (omega arith, omega arith, (omega arith, omega arith, (omega arith, omega arith, tt))),
  ),
)

abbrev loaded : Parser
loaded = state_of (exec_int forty_thousand (parser []))

exec_int-Loads_example :
    (reg : ℕ) × (regs : Regs) × (new_reg (parser []).out.regs ≡ some (reg, regs))
    × (loaded.out.regs ≡ regs)
    × Loads (number_from 0 forty_thousand) reg (parser []) loaded
unfolding on_out allocate on_regs take_ownership give_back give_back_all write_program add_data
    set_self_may_fail option_case undefined resolve_module within fold_loop fold_list create
    resolve_imported resolve_own resolve_fn start_and finish_and patch_jumps get_operator_info
    operator_info_generate is_assign_tok compound_op extend_to cache drop_operands closing exec_arg
    arg_loop exec_call_args args_code check_calling check_self check_fn check_call calling_op
    fill_later fill_index emit_call self_params exec_call field_of exec_field_operator
    exec_assign_field exec_assign_plain fresh_result result_register exec_assign_compound
    exec_assign_expr exec_element_name load_func index_operator index_get bind_method index_set
    exec_index exec_call_value exec_method exec_member index_loop exec_index_expr exec_prefix
    exec_unary_expr generate reduce_stack drain_stack binary_loop exec_and_rest exec_or_rest
    exec_logical_expr hex_value decimal_value hex_loop decimal_loop imul_add imul iadd
    int_literal_value fits_operand load_const load_data load_number exec_int exec_double escape_step
    escape_loop string_bytes exec_string exec_char_string exec_dict set_fields give_back_fields
    exec_new_plain exec_new_initialized exec_item exec_items exec_array_or_tuple exec_initializer
    exec_initializers exec_new_expr load_bool load_nil load_indexed add_module_const
    exec_module_const load_local push_cached exec_local exec_const exec_variable exec_named exec_dot
    load_field exec_parens exec_operator exec_name_or_call exec_new_or_name exec_identifier
    exec_at_identifier exec_value_of exec_value exec_level expr_at import_as exec_import_statement
    exec_field exec_fields exec_struct_statement add_module_class resolve_class exec_receiver
    exec_head method_slot add_method redefine old_slot new_slot exec_slot in_function declare_arg
    place_arg name_self exec_self exec_parameter read_parameters exec_parameters check_num_args
    fill_calls store_function finish_function exec_function exec_func_statement
    exec_public_statement exec_declaration undefined_function top_at exec parse get bit set_at
    set_bit reset_at reset_bit replace_bc_u16 first_free new_reg pop_reg set_reg_unused push_reg
    swap_top_regs pop_reg_take_ownership del_reg_from_ownership flush_cached_regs flush_free_regs
    last_reg total IsNumbered IsNumberedFrom insns decode is_truthy keyword_cmp pop last replace
    lookup resolve bump_local pop_locals exec_while exec_if exec_tail exec_else exec_condition
    emit_leave emit_jump_out patch_leave block_loop exec_block comma_loop comma_list word_if
    word_else statement_at block_at if_at exec_statement exec_kind classify add_source_map
    program_loop exec_program byte_before_end close_scope open_scope emit_return
    exec_const_statement exec_let_new exec_let_old exec_let_statement exec_name exec_raise_statement
    exec_return_statement is_return_op loads_last patch print_one recache with_semicolon number_from
exec_int-Loads_example =
    exec_int-Loads forty_thousand (parser []) loaded forty_thousand-IsDigits (omega arith) refl

abbrev largest : List ℕ
largest = 52 ∷ (50 ∷ (57 ∷ (52 ∷ (57 ∷ (54 ∷ (55 ∷ (50 ∷ (57 ∷ (53 ∷ [])))))))))

largest-IsDigits : IsDigits largest
unfolding IsDigits
largest-IsDigits = (
  omega arith,
  omega arith,
  (
    omega arith,
    omega arith,
    (
      omega arith,
      omega arith,
      (
        omega arith,
        omega arith,
        (
          omega arith,
          omega arith,
          (
            omega arith,
            omega arith,
            (
              omega arith,
              omega arith,
              (
                omega arith,
                omega arith,
                (omega arith, omega arith, (omega arith, omega arith, tt)),
              ),
            ),
          ),
        ),
      ),
    ),
  ),
)

exec_int_overflow_example : exec_int largest (parser []) ≡ aborted
unfolding number_from
exec_int_overflow_example = exec_int_overflow largest (parser []) largest-IsDigits (omega arith)

read_args-args_code_example :
    read_args 4 (args_code (7 ∷ (8 ∷ (9 ∷ (10 ∷ [])))) ++ (28 ∷ []))
    ≡ some (7 ∷ (8 ∷ (9 ∷ (10 ∷ []))), 28 ∷ [])
read_args-args_code_example = read_args-args_code (7 ∷ (8 ∷ (9 ∷ (10 ∷ [])))) (28 ∷ [])

-- `(a, b)`
abbrev parameters : List Source
parameters = symbol 40 ∷ (word (97 ∷ []) ∷ (symbol 44 ∷ (word (98 ∷ []) ∷ (symbol 41 ∷ []))))

abbrev at_body : Parser
at_body = state_of (exec_parameters 5 none (function_parser (parser parameters) (102 ∷ []) 0 none))

exec_parameters-uncounted_example : at_body.max_locals ≡ 0
unfolding on_out allocate on_regs take_ownership give_back give_back_all write_program add_data
    set_self_may_fail option_case undefined resolve_module within fold_loop fold_list create
    resolve_imported resolve_own resolve_fn start_and finish_and patch_jumps get_operator_info
    operator_info_generate is_assign_tok compound_op extend_to cache drop_operands closing exec_arg
    arg_loop exec_call_args args_code check_calling check_self check_fn check_call calling_op
    fill_later fill_index emit_call self_params exec_call field_of exec_field_operator
    exec_assign_field exec_assign_plain fresh_result result_register exec_assign_compound
    exec_assign_expr exec_element_name load_func index_operator index_get bind_method index_set
    exec_index exec_call_value exec_method exec_member index_loop exec_index_expr exec_prefix
    exec_unary_expr generate reduce_stack drain_stack binary_loop exec_and_rest exec_or_rest
    exec_logical_expr hex_value decimal_value hex_loop decimal_loop imul_add imul iadd
    int_literal_value fits_operand load_const load_data load_number exec_int exec_double escape_step
    escape_loop string_bytes exec_string exec_char_string exec_dict set_fields give_back_fields
    exec_new_plain exec_new_initialized exec_item exec_items exec_array_or_tuple exec_initializer
    exec_initializers exec_new_expr load_bool load_nil load_indexed add_module_const
    exec_module_const load_local push_cached exec_local exec_const exec_variable exec_named exec_dot
    load_field exec_parens exec_operator exec_name_or_call exec_new_or_name exec_identifier
    exec_at_identifier exec_value_of exec_value exec_level expr_at import_as exec_import_statement
    exec_field exec_fields exec_struct_statement add_module_class resolve_class exec_receiver
    exec_head method_slot add_method redefine old_slot new_slot exec_slot in_function declare_arg
    place_arg name_self exec_self exec_parameter read_parameters exec_parameters check_num_args
    fill_calls store_function finish_function exec_function exec_func_statement
    exec_public_statement exec_declaration undefined_function top_at exec parse get bit set_at
    set_bit reset_at reset_bit replace_bc_u16 first_free new_reg pop_reg set_reg_unused push_reg
    swap_top_regs pop_reg_take_ownership del_reg_from_ownership flush_cached_regs flush_free_regs
    last_reg total IsNumbered IsNumberedFrom insns decode is_truthy keyword_cmp pop last replace
    lookup resolve bump_local pop_locals exec_while exec_if exec_tail exec_else exec_condition
    emit_leave emit_jump_out patch_leave block_loop exec_block comma_loop comma_list word_if
    word_else statement_at block_at if_at exec_statement exec_kind classify add_source_map
    program_loop exec_program byte_before_end close_scope open_scope emit_return
    exec_const_statement exec_let_new exec_let_old exec_let_statement exec_name exec_raise_statement
    exec_return_statement is_return_op loads_last patch print_one recache with_semicolon
exec_parameters-uncounted_example =
    exec_parameters-uncounted 5 none (parser parameters) at_body (102 ∷ []) 0 none 2 refl
