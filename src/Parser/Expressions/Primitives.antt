-- ===== src/Parser/Expressions/Primitives.antt =====
-- What a relation on parsers needs, so that every expression of src/core/parser/impl/expr.c ensures it: one
-- law for each step that the routines are built from. The code that is emitted comes in whole
-- instructions of four bytes.
use aument.Prelude.{ℕ, zero, suc, Option, none, some, List, [], ◌∷◌}
use aument.Lexer.{Token}
use aument.Parser.Regs.{Regs, OwnedReg}
use aument.Parser.Logical.{start_and, finish_and}
use aument.Parser.Logical.Or.{emit_jif, finish_or}
use aument.Parser.Operators.{OperatorInfo}
use aument.Parser.Program.{Constant}
use aument.Parser.Resolve.{resolve_fn}
use aument.Parser.State.{
  M, peek_token, next_token, code_len, emit_code, flush_cached, pop, last, replace,
}
use aument.Parser.State.Ensures.{
  Relation, Ensures, Ensures-return, Ensures-if, Ensures-bind, ensures_rules,
}
use aument.Parser.State.Lists.{fold_loop, fold_list}
use aument.Parser.State.Steps.{
  allocate, on_regs, within, take_ownership, give_back, give_back_all, write_program, add_data,
  set_self_may_fail, option_case, undefined,
}
use aument.Parser.Expressions.Binary.{generate}
use aument.Parser.Expressions.Calls.{mark_may_fail, fill_later}
use aument.Parser.Expressions.Values.{exec_module_const}

pub data Whole : List ℕ → Type 0 where
  whole_none : Whole []
  whole_more : {a b c d : ℕ} {rest : List ℕ} → Whole rest → Whole (a ∷ (b ∷ (c ∷ (d ∷ rest))))

pub record Primitives (o : Relation) : Type 0 where
  pub peek : Ensures o peek_token
  pub next : Ensures o next_token
  pub len : Ensures o code_len
  pub emit : (code : List ℕ) → Whole code → Ensures o (emit_code code)
  pub flush : Ensures o flush_cached
  pub pops : Ensures o pop
  pub top : Ensures o last
  pub write : (idx val : ℕ) → Ensures o (replace idx val)
  pub alloc : Ensures o allocate
  pub regs : (f : Regs → Option Regs) → Ensures o (on_regs f)
  pub take : Ensures o take_ownership
  pub and_start : (reg : ℕ) → Ensures o (within (λ g. start_and reg g.regs g))
  pub and_end : (reg len : ℕ) → Ensures o (within (finish_and reg len))
  pub or_start : Ensures o (within emit_jif)
  pub or_end : (reg len : ℕ) → Ensures o (within (finish_or reg len))
  pub operate : (info : OperatorInfo) → Ensures o (generate info)
  pub fail : Ensures o set_self_may_fail
  pub fill : (offset : ℕ) → Ensures o (fill_later offset)
  pub mark : (idx : ℕ) → Ensures o (write_program (mark_may_fail idx))
  pub data_added : (value : Constant) → Ensures o (add_data value)
  pub resolved :
      (module_tok : Option Token) (id_tok : Token) (n : ℕ)
      → Ensures o (resolve_fn module_tok id_tok n)
  pub module_const : (module_tok tok : Token) → Ensures o (exec_module_const module_tok tok)

-- The laws as rules, which find the laws among the hypotheses.
module _ {o : Relation} where
  pub rule_peek : Primitives o → Ensures o peek_token
  rule_peek r = r.peek

  pub rule_next : Primitives o → Ensures o next_token
  rule_next r = r.next

  pub rule_len : Primitives o → Ensures o code_len
  rule_len r = r.len

  pub rule_emit : (code : List ℕ) → Primitives o → Whole code → Ensures o (emit_code code)
  rule_emit code r w = r.emit code w

  pub rule_flush : Primitives o → Ensures o flush_cached
  rule_flush r = r.flush

  pub rule_pop : Primitives o → Ensures o pop
  rule_pop r = r.pops

  pub rule_last : Primitives o → Ensures o last
  rule_last r = r.top

  pub rule_replace : (idx val : ℕ) → Primitives o → Ensures o (replace idx val)
  rule_replace idx val r = r.write idx val

  pub rule_allocate : Primitives o → Ensures o allocate
  rule_allocate r = r.alloc

  pub rule_regs : (f : Regs → Option Regs) → Primitives o → Ensures o (on_regs f)
  rule_regs f r = r.regs f

  pub rule_take : Primitives o → Ensures o take_ownership
  rule_take r = r.take

  pub rule_give : (state : OwnedReg) → Primitives o → Ensures o (give_back state)
  unfolding give_back
  rule_give state r = r.regs _

  pub rule_and_start : (reg : ℕ) → Primitives o → Ensures o (within (λ g. start_and reg g.regs g))
  rule_and_start reg r = r.and_start reg

  pub rule_and_end : (reg len : ℕ) → Primitives o → Ensures o (within (finish_and reg len))
  rule_and_end reg len r = r.and_end reg len

  pub rule_or_start : Primitives o → Ensures o (within emit_jif)
  rule_or_start r = r.or_start

  pub rule_or_end : (reg len : ℕ) → Primitives o → Ensures o (within (finish_or reg len))
  rule_or_end reg len r = r.or_end reg len

  pub rule_generate : (info : OperatorInfo) → Primitives o → Ensures o (generate info)
  rule_generate info r = r.operate info

  pub rule_fail : Primitives o → Ensures o set_self_may_fail
  rule_fail r = r.fail

  pub rule_fill : (offset : ℕ) → Primitives o → Ensures o (fill_later offset)
  rule_fill offset r = r.fill offset

  pub rule_mark : (idx : ℕ) → Primitives o → Ensures o (write_program (mark_may_fail idx))
  rule_mark idx r = r.mark idx

  pub rule_data : (value : Constant) → Primitives o → Ensures o (add_data value)
  rule_data value r = r.data_added value

  pub rule_resolve :
      (module_tok : Option Token) (id_tok : Token) (n : ℕ)
      → Primitives o
      → Ensures o (resolve_fn module_tok id_tok n)
  rule_resolve module_tok id_tok n r = r.resolved module_tok id_tok n

  pub rule_module_const :
      (module_tok tok : Token) → Primitives o → Ensures o (exec_module_const module_tok tok)
  rule_module_const module_tok tok r = r.module_const module_tok tok

  pub Ensures-undefined : {A : Type 0} → Ensures o {A = A} undefined
  unfolding undefined
  Ensures-undefined = record { at = λ p q a e. absurd (cc) }

  pub Ensures-option_case :
      {A B : Type 0} (m : M B) (f : A → M B) (x : Option A)
      → Ensures o m
      → ((a : A) → Ensures o (f a))
      → Ensures o (option_case m f x)
  unfolding option_case
  Ensures-option_case m f none hm hf = hm
  Ensures-option_case m f (some a) hm hf = hf a

  pub give_back_all-Ensures :
      (states : List OwnedReg) → Primitives o → Ensures o (give_back_all states)
  unfolding give_back_all
  give_back_all-Ensures [] r = search ensures_rules
  give_back_all-Ensures (state ∷ states) r =
      search (ensures_rules, rule_give, give_back_all-Ensures states)

pub ruleset primitive_rules = (
  ensures_rules, whole_none, whole_more, rule_peek, rule_next, rule_len, rule_emit, rule_flush,
  rule_pop, rule_last, rule_replace, rule_allocate, rule_regs, rule_take, rule_give, rule_and_start,
  rule_and_end, rule_or_start, rule_or_end, rule_generate, rule_fail, rule_fill, rule_mark,
  rule_data, rule_resolve, rule_module_const, Ensures-undefined, Ensures-option_case,
  give_back_all-Ensures,
)

-- a list ensures what its items ensure
module _ {o : Relation} (peek : Ensures o peek_token) (next : Ensures o next_token) where
  pub fold_loop-Ensures :
      {A : Type 0} (ending : ℕ) (item : A → M A) (fuel : ℕ) (a : A)
      → ((b : A) → Ensures o (item b))
      → Ensures o (fold_loop ending item fuel a)
  unfolding fold_loop
  fold_loop-Ensures ending item zero a h = search ensures_rules
  fold_loop-Ensures {A} ending item (suc fuel) a h =
      let rest : (b : A) → Ensures o (fold_loop ending item fuel b) =
        λ b. fold_loop-Ensures ending item fuel b h in
      search ensures_rules depth 30

  pub fold_list-Ensures :
      {A : Type 0} (ending : ℕ) (item : A → M A) (fuel : ℕ) (a : A)
      → ((b : A) → Ensures o (item b))
      → Ensures o (fold_list ending item fuel a)
  unfolding fold_list
  fold_list-Ensures ending item fuel a h = search (ensures_rules, fold_loop-Ensures) depth 30
