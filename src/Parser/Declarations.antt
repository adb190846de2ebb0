-- ===== src/Parser/Declarations.antt =====
-- Declarations: import, public and struct of src/core/parser/impl/stmt.c. `Function` holds functions, and
-- `Run` ties the knot with the statements.
pub mod Head
pub mod Function
pub mod Run
pub mod Scoped
pub mod Uncounted
use aument.Prelude.{
  ℕ, zero, suc, ◌+◌, Bool, true, false, Option, none, some, List, [], ◌∷◌, ◌++◌, if◌then◌else◌,
  length, set,
}
use aument.Lexer.{Token, identifier, string}
use aument.Parser.Program.{Scope, Class, Module, Program}
use aument.Parser.State.{
  Parser, unexpected_token, duplicate_class, duplicate_module, duplicate_prop, M, ◌>>=◌, ◌>>◌,
  return, refuse, gets, expect, peek_token, next_token, is_type, keyword_cmp, is_op, emit_code,
  lookup,
}
use aument.Parser.State.Steps.{write_program, option_case}
use aument.Parser.State.Lists.{fold_list}
use aument.Parser.Statements.{low_high}

abbrev pub op_import : ℕ
op_import = 29

abbrev pub word_as : List ℕ
word_as = 97 ∷ (115 ∷ [])

abbrev pub add_import : List ℕ → Option ℕ → Program → Program
add_import path module_idx d = record d {
  imports = d.imports ++ (record { path = path; module_idx = module_idx } ∷ []);
}

abbrev pub empty_module : Module
empty_module = record { fn_map = []; class_map = []; const_map = [] }

abbrev pub add_module : List ℕ → Program → Program
add_module name d = record d {
  imported_modules = d.imported_modules ++ (empty_module ∷ []);
  imported_module_map = (name, length d.imported_modules) ∷ d.imported_module_map;
}

-- after `as`
unfoldable pub import_as : List ℕ → M (Unit {0})
import_as path = do
  module_tok ← next_token
  module_idx ← gets (λ p. length p.program.imported_modules)
  old_value ← gets (λ p. lookup module_tok.token.src p.program.imported_module_map)
  option_case (write_program (add_module module_tok.token.src))
      (λ old. refuse (duplicate_module module_tok.token)) old_value
  write_program (add_import path (some module_idx))

-- au_parser_exec_import_statement
unfoldable pub exec_import_statement : M (Unit {0})
exec_import_statement = do
  path_tok ← next_token
  expect (is_type string path_tok.token.type) (unexpected_token path_tok.token)
  idx ← gets (λ p. length p.program.imports)
  tok ← peek_token
  if keyword_cmp tok.token word_as
      then (next_token >>= λ _. import_as path_tok.token.src)
      else write_program (add_import path_tok.token.src none)
  emit_code (op_import ∷ (0 ∷ low_high idx))

abbrev pub add_class : List ℕ → Program → Program
add_class name d = record d {
  classes = d.classes ++ (none ∷ []);
  class_map = (name, length d.classes) ∷ d.class_map;
}

abbrev pub define_class : ℕ → Class → Program → Program
define_class idx interface d = record d { classes = set d.classes idx (some interface) }

-- a field, after those before it
unfoldable pub exec_field : Scope → M Scope
exec_field map = do
  name_tok ← next_token
  expect (is_type identifier name_tok.token.type) (unexpected_token name_tok.token)
  option_case (return ((name_tok.token.src, length map) ∷ map))
      (λ old. refuse (duplicate_prop name_tok.token)) (lookup name_tok.token.src map)

-- the fields, or `;` when there are none
unfoldable pub exec_fields : ℕ → M Scope
exec_fields fuel = do
  tok ← next_token
  if is_op tok.token 59
      then return []
      else (expect (is_op tok.token 123) (unexpected_token tok.token)
          >> fold_list 125 exec_field fuel [])

-- au_parser_exec_struct_statement
unfoldable pub exec_struct_statement : ℕ → Bool → M (Unit {0})
exec_struct_statement fuel exported = do
  id_tok ← next_token
  expect (is_type identifier id_tok.token.type) (unexpected_token id_tok.token)
  class_value ← gets (λ p. length p.program.classes)
  old_value ← gets (λ p. lookup id_tok.token.src p.program.class_map)
  option_case (write_program (add_class id_tok.token.src))
      (λ old. refuse (duplicate_class id_tok.token)) old_value
  fields ← exec_fields fuel
  write_program (
      define_class class_value
        (record { name = id_tok.token.src; is_exported = exported; map = fields }))
