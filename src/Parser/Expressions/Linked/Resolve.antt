-- ===== src/Parser/Expressions/Linked/Resolve.antt =====
-- au_parser_resolve_fn of src/core/parser/impl/resolve.c and the constants of other modules keep the
-- indices in the program data in bounds.
use aument.Prelude.{
  ℕ, zero, suc, ◌+◌, ◌<◌, ◌≡◌, refl, inl, inr, ◌⊎◌, true, Option, none, some, List, [], ◌∷◌, ◌++◌,
  length, get_elem?, arith, length-append, length-set, Bool-cases, Option-cases,
}
use aument.Lexer.{Token}
use aument.Parser.Program.{none_func, imported_func, Module, Program}
use aument.Parser.Resolve.{
  Resolved, plain_fn, with_imported, with_none, create, is_self, resolve_imported, resolve_own,
  resolve_fn,
}
use aument.Parser.State.{Parser, Failure, Result, ok, failed, lookup}
use aument.Parser.State.Steps.{write_program, resolve_module, option_case}
use aument.Parser.Expressions.Linked.{
  IsBelow, IsLinked, Extends, IsBelow-le, lookup-IsBelow, AreLinked-le, get-AreLinked,
  set-AreLinked,
}

pub Extends-refl : (d : Program) → Extends d d
Extends-refl d = record {
  more_fns = omega arith;
  more_classes = omega arith;
  more_consts = omega arith;
  more_modules = omega arith;
  keeps = λ l. l;
}

pub Extends-trans : (d e f : Program) → Extends d e → Extends e f → Extends d f
Extends-trans d e f h k = record {
  more_fns = let a = h.more_fns in let b = k.more_fns in omega arith;
  more_classes = let a = h.more_classes in let b = k.more_classes in omega arith;
  more_consts = let a = h.more_consts in let b = k.more_consts in omega arith;
  more_modules = let a = h.more_modules in let b = k.more_modules in omega arith;
  keeps = λ l. k.keeps (h.keeps l);
}

-- one more than before
pub one_more : {A : Type 0} (xs : List A) (x : A) → length (xs ++ (x ∷ [])) ≡ length xs + 1
one_more xs x = length-append xs (x ∷ [])

with_none-Extends : (id_tok : Token) (n : ℕ) (d : Program) → Extends d (with_none id_tok n d)
unfolding IsBelow
with_none-Extends id_tok n d =
    let grown = one_more d.fns (plain_fn n (none_func id_tok)) in
    record {
      more_fns = omega arith;
      more_classes = omega arith;
      more_consts = omega arith;
      more_modules = omega arith;
      keeps = λ l. record {
        to_fns = (omega arith, IsBelow-le _ _ d.fn_map (omega arith) l.to_fns);
        to_classes = l.to_classes;
        to_modules = l.to_modules;
        modules =
            AreLinked-le _ _ _ _ _ _ (omega arith) (omega arith) (omega arith) d.imported_modules
              l.modules;
      };
    }

with_imported-Extends :
    (id_tok : Token) (n idx : ℕ) (imported : Module) (d : Program)
    → get_elem? d.imported_modules idx ≡ some imported
    → Extends d (with_imported id_tok n idx imported d)
unfolding IsBelow
with_imported-Extends id_tok n idx imported d at =
    let grown = one_more d.fns (plain_fn n (imported_func idx id_tok.src)) in
    let same =
      length-set d.imported_modules idx
        (record imported { fn_map = (id_tok.src, length d.fns) ∷ imported.fn_map }) in
    record {
      more_fns = omega arith;
      more_classes = omega arith;
      more_consts = omega arith;
      more_modules = omega arith;
      keeps = λ l.
          let m = get-AreLinked _ _ _ d.imported_modules idx imported l.modules at in
          record {
            to_fns = IsBelow-le _ _ d.fn_map (omega arith) l.to_fns;
            to_classes = l.to_classes;
            to_modules = IsBelow-le _ _ d.imported_module_map (omega arith) l.to_modules;
            modules =
                set-AreLinked _ _ _ d.imported_modules idx _
                  (AreLinked-le _ _ _ _ _ _ (omega arith) (omega arith) (omega arith)
                    d.imported_modules l.modules)
                  (record {
                    to_fns = (omega arith, IsBelow-le _ _ imported.fn_map (omega arith) m.to_fns);
                    to_classes = m.to_classes;
                    to_consts = m.to_consts;
                  });
          };
    }

-- What a name resolves to: the function around it, or one that the program has then.
pub record Resolves (p q : Parser) (r : Resolved) : Type 0 where
  pub extends : Extends p.program q.program
  pub there : (r.execute_self ≡ true) ⊎ (r.func_idx < length q.program.fns)

-- a name without a module always resolves
resolve_own-Resolves :
    (id_tok : Token) (n : ℕ) (p : Parser)
    → IsLinked p.program
    → (r : Resolved) × (q : Parser) × (resolve_own id_tok n p ≡ ok (r, q)) × Resolves p q r
unfolding resolve_own create write_program option_case
resolve_own-Resolves id_tok n p l = elim (Bool-cases (is_self id_tok p.self_name)) [
  | inl self ↦ rw self (_, p, refl, record { extends = Extends-refl p.program; there = inl refl })
  | inr other ↦ elim (Option-cases (lookup id_tok.src p.program.fn_map)) [
    | inl missing ↦
        let grown = one_more p.program.fns (plain_fn n (none_func id_tok)) in
        rw (other, missing)
          (
            _,
            _,
            refl,
            record { extends = with_none-Extends id_tok n p.program; there = inr (omega arith) },
          )
    | inr (idx, found) ↦
        rw (other, found)
          (
            _,
            p,
            refl,
            record {
              extends = Extends-refl p.program;
              there = inr (lookup-IsBelow _ p.program.fn_map id_tok.src idx l.to_fns found);
            },
          )
  ]
]

pub get-there :
    {A : Type 0} (xs : List A) (i : ℕ) → i < length xs → (x : A) × (get_elem? xs i ≡ some x)
get-there [] i h = absurd (omega arith)
get-there (x ∷ xs) zero h = (x, refl)
get-there (x ∷ xs) (suc i) h = get-there xs i (omega arith)

-- a refusal, or a function
abbrev pub Outcome : Parser → Result (Resolved × Parser) → Type 0
Outcome p result =
    ((e : Failure) × (result ≡ failed e))
    ⊎ ((r : Resolved) × (q : Parser) × (result ≡ ok (r, q)) × Resolves p q r)

imported_found :
    (module_tok id_tok : Token) (n idx : ℕ) (imported : Module) (p : Parser)
    → IsLinked p.program
    → lookup module_tok.src p.program.imported_module_map ≡ some idx
    → get_elem? p.program.imported_modules idx ≡ some imported
    → Outcome p (resolve_imported module_tok id_tok n p)
unfolding resolve_imported resolve_module create write_program option_case
imported_found module_tok id_tok n idx imported p l found at =
    elim (Option-cases (lookup id_tok.src imported.fn_map)) [
      | inl unknown ↦
          let grown = one_more p.program.fns (plain_fn n (imported_func idx id_tok.src)) in
          rw (found, at, unknown)
            (inr (
              _,
              _,
              refl,
              record {
                extends = with_imported-Extends id_tok n idx imported p.program at;
                there = inr (omega arith);
              },
            ))
      | inr (func_idx, is) ↦
          let m = get-AreLinked _ _ _ p.program.imported_modules idx imported l.modules at in
          rw (found, at, is)
            (inr (
              _,
              p,
              refl,
              record {
                extends = Extends-refl p.program;
                there = inr (lookup-IsBelow _ imported.fn_map id_tok.src func_idx m.to_fns is);
              },
            ))
    ]

-- a name of a module, when the module is there
resolve_imported-Outcome :
    (module_tok id_tok : Token) (n : ℕ) (p : Parser)
    → IsLinked p.program
    → Outcome p (resolve_imported module_tok id_tok n p)
unfolding resolve_imported resolve_module option_case
resolve_imported-Outcome module_tok id_tok n p l =
    elim (Option-cases (lookup module_tok.src p.program.imported_module_map)) [
      | inl missing ↦ rw missing (inl (_, refl))
      | inr (idx, found) ↦
          let inside =
            lookup-IsBelow _ p.program.imported_module_map module_tok.src idx l.to_modules found in
          let (imported, at) = get-there p.program.imported_modules idx inside in
          imported_found module_tok id_tok n idx imported p l found at
    ]

-- When every table of the program refers to what is there, a name that is called is refused, or it
-- resolves to the function around it or to one that the program has then; nothing is out of bounds, and
-- every table still refers to what is there.
pub resolve_fn-Outcome :
    (module_tok : Option Token) (id_tok : Token) (n : ℕ) (p : Parser)
    → IsLinked p.program
    → Outcome p (resolve_fn module_tok id_tok n p)
unfolding resolve_fn
resolve_fn-Outcome none id_tok n p l = inr (resolve_own-Resolves id_tok n p l)
resolve_fn-Outcome (some module_tok) id_tok n p l = resolve_imported-Outcome module_tok id_tok n p l
