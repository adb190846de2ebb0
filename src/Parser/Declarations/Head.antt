-- ===== src/Parser/Declarations/Head.antt =====
-- Where a function goes: the head of au_parser_exec_func_statement in src/core/parser/impl/stmt.c, and
-- its place in the program, which a call may have made or another function of that name may have.
use aument.Prelude.{
  ℕ, ◌+◌, Bool, true, false, ◌&&◌, ◌||◌, not, Option, none, some, List, [], ◌∷◌, ◌++◌,
  if◌then◌else◌, length, get_elem?, set,
}
use aument.Lexer.{Token, eof_token, identifier}
use aument.Parser.Program.{
  Class, Instance, Callee, none_func, bc_func, dispatch_func, Fn, Module, Program,
}
use aument.Parser.Resolve.{plain_fn}
use aument.Parser.State.{
  unexpected_token, unknown_class, M, ◌>>=◌, ◌>>◌, return, gets, expect, peek_token, next_token,
  is_type, is_op, is_eof, lookup,
}
use aument.Parser.State.Steps.{write_program, option_case, some_or, present, resolve_module}
use aument.Parser.Expressions.Index.{exec_element_name}

-- the receiver of a method and its class, if there is one
pub record Head : Type 0 where
  pub self_tok : Option Token
  pub class_idx : Option ℕ
  pub class_interface : Option Class

abbrev pub no_head : Head
no_head = record { self_tok = none; class_idx = none; class_interface = none }

-- a class of another module, which that module fills in
abbrev pub with_class : List ℕ → ℕ → Module → Program → Program
with_class name module_idx imported d = record d {
  classes = d.classes ++ (none ∷ []);
  imported_modules =
      set d.imported_modules module_idx
        (record imported { class_map = (name, length d.classes) ∷ imported.class_map });
}

unfoldable pub add_module_class : List ℕ → ℕ → Module → M ℕ
add_module_class name module_idx imported = do
  class_val ← gets (λ p. length p.program.classes)
  write_program (with_class name module_idx imported)
  return class_val

-- the index of the class, and what is known of it
unfoldable pub resolve_class : Option Token → Token → M (ℕ × Option Class)
resolve_class (some module_tok) name_tok = do
  found ← resolve_module module_tok
  class_val ←
      option_case (add_module_class name_tok.src found.0 found.1) return
        (lookup name_tok.src found.1.class_map)
  return (class_val, none)
resolve_class none name_tok = do
  val ← gets (λ p. lookup name_tok.src p.program.class_map)
  class_idx ← some_or (unknown_class name_tok) val
  found ← gets (λ p. get_elem? p.program.classes class_idx)
  interface ← present found
  return (class_idx, interface)

-- after `(`
unfoldable pub exec_receiver : M Head
exec_receiver = do
  self_tok ← next_token
  expect (is_type identifier self_tok.token.type) (unexpected_token self_tok.token)
  colon ← next_token
  expect (is_op colon.token 58) (unexpected_token colon.token)
  id_tok ← next_token
  name ← exec_element_name id_tok.token
  class ← resolve_class name.0 name.1
  close ← next_token
  expect (is_op close.token 41) (unexpected_token close.token)
  return (record {
    self_tok = some self_tok.token;
    class_idx = some class.0;
    class_interface = class.1;
  })

unfoldable pub exec_head : M Head
exec_head = do
  lookahead ← peek_token
  if is_op lookahead.token 40 then (next_token >>= λ _. exec_receiver) else return no_head

abbrev pub has_receiver : Head → Bool
has_receiver head = elim head.self_tok [ none ↦ false | some tok ↦ true ]

-- The function's index; of a function that was there, its number of arguments, whether it may not
-- fail, and the call that named it first.
pub record Slot : Type 0 where
  pub func_value : ℕ
  pub expected_num_args : Option ℕ
  pub expected_no_fail : Bool
  pub old_id_tok : Option Token

-- a place that is to be filled
abbrev pub none_fn : Fn
none_fn = plain_fn 0 (none_func eof_token)

abbrev pub add_new : List ℕ → Program → Program
add_new name d = record d {
  fns = d.fns ++ (none_fn ∷ []);
  fn_map = (name, length d.fns) ∷ d.fn_map;
  fn_names = d.fn_names ++ (name ∷ []);
}

abbrev pub instance_at : ℕ → Head → Instance
instance_at function_idx head = record {
  function_idx = function_idx;
  class_idx = head.class_idx;
  class_interface = head.class_interface;
}

-- one more method of a dispatch function
abbrev pub add_instance : List ℕ → Head → ℕ → Fn → List Instance → Option ℕ → Program → Program
add_instance name head old_value old instances fallback_fn d = record d {
  fns =
      set d.fns old_value (record old {
        callee = dispatch_func (instances ++ (instance_at (length d.fns) head ∷ [])) fallback_fn;
      })
      ++ (none_fn ∷ []);
  fn_names = d.fn_names ++ (name ∷ []);
}

-- the old function as an instance, or as the fallback
abbrev pub split_old : Bool → Callee → ℕ → Instance → Callee
split_old true (bc_func body) fallback_fn_idx el =
    let first : Instance = record {
      function_idx = fallback_fn_idx;
      class_idx = body.class_idx;
      class_interface = body.class_interface;
    } in
    dispatch_func (first ∷ (el ∷ [])) none
split_old _ _ fallback_fn_idx el = dispatch_func (el ∷ []) (some fallback_fn_idx)

-- A function becomes a dispatch function, with itself behind it.
abbrev pub make_dispatch : List ℕ → Head → ℕ → Fn → Program → Program
make_dispatch name head old_value old d = record d {
  fns =
      set d.fns old_value (record old {
        has_class = true;
        callee =
            split_old old.has_class old.callee (length d.fns) (instance_at (length d.fns + 1) head);
      })
      ++ (old ∷ (none_fn ∷ []));
  fn_names = d.fn_names ++ (name ∷ []);
}

abbrev pub reset_fn : ℕ → Program → Program
reset_fn old_value d = record d { fns = set d.fns old_value none_fn }

abbrev pub same_flag : Bool → Bool → Bool
same_flag true b = b
same_flag false b = not b

abbrev pub slot_of : Fn → ℕ → Option Token → Slot
slot_of old func_value old_id_tok = record {
  func_value = func_value;
  expected_num_args = some old.num_args;
  expected_no_fail = not old.may_fail;
  old_id_tok = old_id_tok;
}

-- the function of a name that is taken by one that is defined; `len` functions are there
unfoldable pub method_slot : List ℕ → Head → ℕ → Fn → ℕ → Callee → M Slot
method_slot name head old_value old len (dispatch_func instances fallback_fn) =
    write_program (add_instance name head old_value old instances fallback_fn)
    >> return (slot_of old len none)
method_slot name head old_value old len _ =
    write_program (make_dispatch name head old_value old) >> return (slot_of old (len + 1) none)

unfoldable pub add_method : List ℕ → Head → ℕ → Fn → M Slot
add_method name head old_value old = do
  len ← gets (λ p. length p.program.fns)
  method_slot name head old_value old len old.callee

unfoldable pub redefine : List ℕ → Bool → Head → ℕ → Fn → M Slot
redefine name exported head old_value old =
    if same_flag old.is_exported exported && (old.has_class || has_receiver head)
    then add_method name head old_value old
    else (write_program (reset_fn old_value) >> return (slot_of old old_value none))

abbrev pub named : Token → Option Token
named tok = if is_eof tok then none else some tok

-- a function that a call named, or another one
unfoldable pub old_slot : List ℕ → Bool → Head → ℕ → Fn → Callee → M Slot
old_slot name exported head old_value old (none_func tok) =
    return (slot_of old old_value (named tok))
old_slot name exported head old_value old _ = redefine name exported head old_value old

unfoldable pub new_slot : List ℕ → M Slot
new_slot name = do
  func_value ← gets (λ p. length p.program.fns)
  write_program (add_new name)
  return (record {
    func_value = func_value;
    expected_num_args = none;
    expected_no_fail = false;
    old_id_tok = none;
  })

unfoldable pub exec_slot : List ℕ → Bool → Head → M Slot
exec_slot name exported head = do
  old_value ← gets (λ p. lookup name p.program.fn_map)
  option_case (new_slot name)
      (λ value. do
        found ← gets (λ p. get_elem? p.program.fns value)
        old ← present found
        old_slot name exported head value old old.callee)
      old_value
