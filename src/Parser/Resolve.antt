-- ===== src/Parser/Resolve.antt =====
-- au_parser_resolve_fn of src/core/parser/impl/resolve.c: which function a name means. A name that is
-- not known yet gets a function that is to be defined.
use aument.Prelude.{
  ℕ, Bool, true, false, Option, none, some, List, [], ◌∷◌, ◌++◌, length, if◌then◌else◌, set,
}
use aument.Lexer.{Token, bytes_eq}
use aument.Parser.Program.{Fn, Callee, none_func, imported_func, Module, Program}
use aument.Parser.State.{M, ◌>>=◌, ◌>>◌, return, gets, lookup}
use aument.Parser.State.Steps.{option_case, write_program, resolve_module}

-- what it returns
pub record Resolved : Type 0 where
  pub func_idx : ℕ
  pub execute_self : Bool
  pub create_function : Bool

-- a function without flags
abbrev pub plain_fn : ℕ → Callee → Fn
plain_fn num_args callee = record {
  num_args = num_args;
  is_exported = false;
  has_class = false;
  may_fail = false;
  callee = callee;
}

abbrev pub with_imported : Token → ℕ → ℕ → Module → Program → Program
with_imported id_tok num_args module_idx imported d = record d {
  fns = d.fns ++ (plain_fn num_args (imported_func module_idx id_tok.src) ∷ []);
  imported_modules =
      set d.imported_modules module_idx
        (record imported { fn_map = (id_tok.src, length d.fns) ∷ imported.fn_map });
}

abbrev pub with_none : Token → ℕ → Program → Program
with_none id_tok num_args d = record d {
  fns = d.fns ++ (plain_fn num_args (none_func id_tok) ∷ []);
  fn_map = (id_tok.src, length d.fns) ∷ d.fn_map;
  fn_names = d.fn_names ++ (id_tok.src ∷ []);
}

abbrev pub known : ℕ → M Resolved
known func_idx =
    return (record { func_idx = func_idx; execute_self = false; create_function = false })

unfoldable pub create : (Program → Program) → M Resolved
create f = do
  func_idx ← gets (λ p. length p.program.fns)
  write_program f
  return (record { func_idx = func_idx; execute_self = false; create_function = true })

abbrev pub is_self : Token → Option (List ℕ) → Bool
is_self id_tok none = false
is_self id_tok (some name) = bytes_eq id_tok.src name

unfoldable pub resolve_imported : Token → Token → ℕ → M Resolved
resolve_imported module_tok id_tok num_args = do
  found ← resolve_module module_tok
  option_case (create (with_imported id_tok num_args found.0 found.1)) known
      (lookup id_tok.src found.1.fn_map)

unfoldable pub resolve_own : Token → ℕ → M Resolved
resolve_own id_tok num_args = do
  self ← gets (λ p. is_self id_tok p.self_name)
  if self
      then return (record { func_idx = 0; execute_self = true; create_function = false })
      else (do
        val ← gets (λ p. lookup id_tok.src p.program.fn_map)
        option_case (create (with_none id_tok num_args)) known val)

-- without a module, or with one
unfoldable pub resolve_fn : Option Token → Token → ℕ → M Resolved
resolve_fn none id_tok num_args = resolve_own id_tok num_args
resolve_fn (some module_tok) id_tok num_args = resolve_imported module_tok id_tok num_args
