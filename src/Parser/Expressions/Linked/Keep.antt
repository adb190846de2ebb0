-- ===== src/Parser/Expressions/Linked/Keep.antt =====
-- Every expression of src/core/parser/impl/expr.c keeps the indices in the program data in bounds.
use aument.Prelude.{
  ℕ, ◌≡◌, refl, sym, ◌∙◌, inl, inr, true, Option, none, some, List, ◌∷◌, length, get_elem?, arith,
  length-set, Option-cases,
}
use aument.Lexer.{Token}
use aument.Parser.Operators.Generate.{Generator}
use aument.Parser.Program.{Constant, none_value, Fn, Module, Program}
use aument.Parser.Resolve.{resolve_fn}
use aument.Parser.State.{Parser, ok, lookup, peek_token, next_token}
use aument.Parser.State.Ensures.{Relation, Ensures, Ensures-total, ensures_rules, bind-eq-ok}
use aument.Parser.State.Steps.{
  write_program, with_constant, add_data, set_self_may_fail, option_case, undefined, resolve_module,
}
use aument.Parser.Expressions.Calls.{marked, mark_may_fail, fill_later}
use aument.Parser.Expressions.Values.{with_const, load_indexed, add_module_const, exec_module_const}
use aument.Parser.Expressions.Literals.{load_const}
use aument.Parser.Expressions.Ignoring.{
  ignores-code_len, ignores-emit_code, ignores-flush_cached, ignores-pop, ignores-last,
  ignores-replace, ignores-allocate, ignores-on_regs, ignores-within, ignores-take_ownership,
  ignores-generate, ok-injective,
}
use aument.Parser.Expressions.Preserve.{expr_at-Ensures}
use aument.Parser.Expressions.Primitives.{Primitives}
use aument.Parser.Expressions.Run.{expr_at}
use aument.Parser.Expressions.Linked.{
  IsBelow, IsLinked, Extends, IsBelow-le, AreLinked-le, get-AreLinked, set-AreLinked,
}
use aument.Parser.Expressions.Linked.Resolve.{
  Extends-refl, Extends-trans, one_more, resolve_fn-Outcome,
}

-- a program that is linked is extended
abbrev pub linked : Relation
linked = record {
  rel = λ p q. IsLinked p.program → Extends p.program q.program;
  reflexive = λ p l. Extends-refl p.program;
  transitive = λ p q r h k l. Extends-trans p.program q.program r.program (h l) (k ((h l).keeps l));
}

ignores_out : (p : Parser) (g : Generator) → linked.rel p (record p { out = g })
ignores_out p g l = Extends-refl p.program

pub peek_token-linked : Ensures linked peek_token
peek_token-linked = Ensures-total peek_token _ (λ p. p) (λ p. refl) (λ p l. Extends-refl p.program)

pub next_token-linked : Ensures linked next_token
next_token-linked = Ensures-total next_token _ _ (λ p. refl) (λ p l. Extends-refl p.program)

set_self_may_fail-linked : Ensures linked set_self_may_fail
unfolding set_self_may_fail
set_self_may_fail-linked = Ensures-total _ _ _ (λ p. refl) (λ p l. Extends-refl p.program)

fill_later-linked : (offset : ℕ) → Ensures linked (fill_later offset)
unfolding fill_later
fill_later-linked offset = Ensures-total _ _ _ (λ p. refl) (λ p l. Extends-refl p.program)

-- a change of the functions that adds none and takes none
same_length-Extends :
    (d : Program) (fns : List Fn) → length fns ≡ length d.fns → Extends d (record d { fns = fns })
same_length-Extends d fns same = record {
  more_fns = omega arith;
  more_classes = omega arith;
  more_consts = omega arith;
  more_modules = omega arith;
  keeps = λ l. record {
    to_fns = IsBelow-le _ _ d.fn_map (omega arith) l.to_fns;
    to_classes = l.to_classes;
    to_modules = l.to_modules;
    modules =
        AreLinked-le _ _ _ _ _ _ (omega arith) (omega arith) (omega arith) d.imported_modules
          l.modules;
  };
}

length-marked : (fns : List Fn) (idx : ℕ) (o : Option Fn) → length (marked fns idx o) ≡ length fns
length-marked fns idx none = refl
length-marked fns idx (some fn) = length-set fns idx (record fn { may_fail = true })

mark-linked : (idx : ℕ) → Ensures linked (write_program (mark_may_fail idx))
unfolding write_program
mark-linked idx =
    Ensures-total _ _ _ (λ p. refl)
      (λ p l.
        same_length-Extends p.program _
          (length-marked p.program.fns idx (get_elem? p.program.fns idx)))

with_constant-Extends : (value : Constant) (d : Program) → Extends d (with_constant value d)
with_constant-Extends value d =
    let grown = one_more d.data_val value in
    record {
      more_fns = omega arith;
      more_classes = omega arith;
      more_consts = omega arith;
      more_modules = omega arith;
      keeps = λ l. record {
        to_fns = l.to_fns;
        to_classes = l.to_classes;
        to_modules = l.to_modules;
        modules =
            AreLinked-le _ _ _ _ _ _ (omega arith) (omega arith) (omega arith) d.imported_modules
              l.modules;
      };
    }

add_data-linked : (value : Constant) → Ensures linked (add_data value)
unfolding add_data write_program
add_data-linked value =
    Ensures-total _ _ _ (λ p. refl) (λ p l. with_constant-Extends value p.program)

resolve_fn-linked :
    (module_tok : Option Token) (id_tok : Token) (n : ℕ)
    → Ensures linked (resolve_fn module_tok id_tok n)
resolve_fn-linked module_tok id_tok n = record {
  at = λ p q r e l. elim (resolve_fn-Outcome module_tok id_tok n p l) [
    | inl (f, refused) ↦ absurd (cc)
    | inr (r', q', is, made) ↦
        let same = ok-injective r' r q' q (sym is ∙ e) in rw (sym same) made.extends
  ];
}

with_const-Extends :
    (name : List ℕ) (idx : ℕ) (imported : Module) (d : Program)
    → get_elem? d.imported_modules idx ≡ some imported
    → Extends d (with_const name idx imported d)
unfolding IsBelow
with_const-Extends name idx imported d at =
    let grown = one_more d.data_val none_value in
    let same =
      length-set d.imported_modules idx
        (record imported { const_map = (name, length d.data_val) ∷ imported.const_map }) in
    record {
      more_fns = omega arith;
      more_classes = omega arith;
      more_consts = omega arith;
      more_modules = omega arith;
      keeps = λ l.
          let m = get-AreLinked _ _ _ d.imported_modules idx imported l.modules at in
          record {
            to_fns = l.to_fns;
            to_classes = l.to_classes;
            to_modules = IsBelow-le _ _ d.imported_module_map (omega arith) l.to_modules;
            modules =
                set-AreLinked _ _ _ d.imported_modules idx _
                  (AreLinked-le _ _ _ _ _ _ (omega arith) (omega arith) (omega arith)
                    d.imported_modules l.modules)
                  (record {
                    to_fns = m.to_fns;
                    to_classes = m.to_classes;
                    to_consts =
                        (omega arith, IsBelow-le _ _ imported.const_map (omega arith) m.to_consts);
                  });
          };
    }

resolve_module-eq :
    (module_tok : Token) (p q : Parser) (found : ℕ × Module)
    → resolve_module module_tok p ≡ ok (found, q)
    → (q ≡ p) × (get_elem? p.program.imported_modules found.0 ≡ some found.1)
unfolding resolve_module option_case undefined
resolve_module-eq module_tok p q found e =
    elim (Option-cases (lookup module_tok.src p.program.imported_module_map)) [
      | inl missing ↦ absurd (let refused = rw missing at e in cc)
      | inr (idx, is) ↦ elim (Option-cases (get_elem? p.program.imported_modules idx)) [
        | inl out ↦ absurd (let stopped = rw (is, out) at e in cc)
        | inr (imported, at) ↦ let done = rw (is, at) at e in (cc, cc)
      ]
    ]

load_indexed-linked : (idx : ℕ) → Ensures linked (load_indexed idx)
unfolding load_indexed load_const
load_indexed-linked idx =
    let alloc = ignores-allocate linked ignores_out in
    let emit = ignores-emit_code linked ignores_out in search ensures_rules depth 30

add_module_const-linked :
    (name : List ℕ) (idx : ℕ) (imported : Module) (p q : Parser)
    → get_elem? p.program.imported_modules idx ≡ some imported
    → add_module_const name idx imported p ≡ ok (tt, q)
    → IsLinked p.program
    → Extends p.program q.program
unfolding add_module_const write_program
add_module_const-linked name idx imported p q at e l =
    let first = with_const-Extends name idx imported p.program at in
    let second =
      (load_indexed-linked (length p.program.data_val)).at
        (record p { program = with_const name idx imported p.program }) q tt e (first.keeps l) in
    Extends-trans p.program _ q.program first second

module_const_of :
    (tok : Token) (found : ℕ × Module) (p q : Parser) (o : Option ℕ)
    → get_elem? p.program.imported_modules found.0 ≡ some found.1
    → option_case (add_module_const tok.src found.0 found.1) load_indexed o p ≡ ok (tt, q)
    → IsLinked p.program
    → Extends p.program q.program
unfolding option_case
module_const_of tok found p q none at e l =
    add_module_const-linked tok.src found.0 found.1 p q at e l
module_const_of tok found p q (some idx) at e l = (load_indexed-linked idx).at p q tt e l

exec_module_const-linked :
    (module_tok tok : Token) → Ensures linked (exec_module_const module_tok tok)
unfolding exec_module_const
exec_module_const-linked module_tok tok = record {
  at = λ p q a e l.
      let (found, r, first, second) = bind-eq-ok (resolve_module module_tok p) _ tt q e in
      let (same, at) = resolve_module-eq module_tok p r found first in
      module_const_of tok found p q (lookup tok.src found.1.const_map) at (rw same at second) l;
}

linked_primitives : Primitives linked
linked_primitives = record {
  peek = peek_token-linked;
  next = next_token-linked;
  len = ignores-code_len linked ignores_out;
  emit = λ code w. ignores-emit_code linked ignores_out code;
  flush = ignores-flush_cached linked ignores_out;
  pops = ignores-pop linked ignores_out;
  top = ignores-last linked ignores_out;
  write = ignores-replace linked ignores_out;
  alloc = ignores-allocate linked ignores_out;
  regs = ignores-on_regs linked ignores_out;
  take = ignores-take_ownership linked ignores_out;
  and_start = λ reg. ignores-within linked ignores_out _;
  and_end = λ reg len. ignores-within linked ignores_out _;
  or_start = ignores-within linked ignores_out _;
  or_end = λ reg len. ignores-within linked ignores_out _;
  operate = ignores-generate linked ignores_out;
  fail = set_self_may_fail-linked;
  fill = fill_later-linked;
  mark = mark-linked;
  data_added = add_data-linked;
  resolved = resolve_fn-linked;
  module_const = exec_module_const-linked;
}

-- An expression that is parsed, in a program whose tables refer to what is there, leaves a program with
-- at least as many functions, classes, constants and modules, whose tables refer to what is there.
pub expr_at-Extends :
    (strtod : List ℕ → ℕ) (fuel : ℕ) (p q : Parser)
    → expr_at strtod fuel p ≡ ok (tt, q)
    → IsLinked p.program
    → Extends p.program q.program
expr_at-Extends strtod fuel p q e l = (expr_at-Ensures linked_primitives strtod fuel).at p q tt e l
