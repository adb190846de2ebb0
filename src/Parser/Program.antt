-- ===== src/Parser/Program.antt =====
-- What the parser makes of a text: `struct au_program_data` of src/core/program.h, the functions of
-- src/core/fn/main.h, and the classes of src/core/rt/au_class.h. A hash table is a list of entries.
-- The buffer of the constants' bytes is part of each constant. The source map and the exported constants
-- are fields of the parser.
use aument.Prelude.{ℕ, Bool, Option, List}
use aument.Lexer.{Token}

-- A scope is a list of names with their locals, the newest first.
abbrev pub Scope : Type 0
Scope = List (List ℕ × ℕ)

-- struct au_class_interface, without its reference count
pub record Class : Type 0 where
  pub name : List ℕ
  pub is_exported : Bool
  pub map : Scope

-- struct au_program_data_val, with the bytes that it refers to; ints and doubles are their bits
pub data Constant : Type 0 where
  none_value : Constant
  int_value : ℕ → Constant
  double_value : ℕ → Constant
  string_value : List ℕ → Constant

-- struct au_bc_storage; `none` is CLASS_ID_NONE
pub record Body : Type 0 where
  pub num_args : ℕ
  pub num_registers : ℕ
  pub num_locals : ℕ
  pub num_values : ℕ
  pub class_idx : Option ℕ
  pub class_interface : Option Class
  pub bc : List ℕ
  pub source_map_start : ℕ
  pub func_idx : ℕ

-- struct au_dispatch_func_instance
pub record Instance : Type 0 where
  pub function_idx : ℕ
  pub class_idx : Option ℕ
  pub class_interface : Option Class

-- the union of struct au_fn, without the number of arguments, which each member has; the fallback
-- `none` is AU_DISPATCH_FUNC_NO_FALLBACK
pub data Callee : Type 0 where
  none_func : Token → Callee
  lib_func : Callee
  bc_func : Body → Callee
  imported_func : ℕ → List ℕ → Callee
  dispatch_func : List Instance → Option ℕ → Callee

-- struct au_fn and its flags
pub record Fn : Type 0 where
  pub num_args : ℕ
  pub is_exported : Bool
  pub has_class : Bool
  pub may_fail : Bool
  pub callee : Callee

-- struct au_imported_module
pub record Module : Type 0 where
  pub fn_map : Scope
  pub class_map : Scope
  pub const_map : Scope

-- struct au_program_import; `none` is AU_PROGRAM_IMPORT_NO_MODULE
pub record Import : Type 0 where
  pub path : List ℕ
  pub module_idx : Option ℕ

-- A class that is named and not yet defined is `none`.
pub record Program : Type 0 where
  pub fns : List Fn
  pub fn_map : Scope
  pub fn_names : List (List ℕ)
  pub data_val : List Constant
  pub imports : List Import
  pub imported_module_map : Scope
  pub imported_modules : List Module
  pub classes : List (Option Class)
  pub class_map : Scope
