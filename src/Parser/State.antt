-- ===== src/Parser/State.antt =====
-- The parser as the statements see it: `struct au_parser` of src/core/parser/impl/def.h, with the
-- tokens that are ahead in place of the lexer (a lexer with its lookahead answers like them), and
-- variables as lists of entries in place of hash tables. A handler's result is its outcome and the
-- parser after it.
pub mod Ensures
pub mod Lists
pub mod Steps
use aument.Prelude.{
  ℕ, ◌+◌, ◌-◌, ◌/◌, ◌%◌, ◌^◌, ◌≡◌, Bool, true, false, ◌&&◌, ◌||◌, not, Option, none, some, List, [],
  ◌∷◌, ◌++◌, leb, ltb, ◌==◌, if◌then◌else◌, length, get_or, max,
}
use aument.Lexer.{
  Token, TokenType, eof, identifier, operator, at_identifier, string, eof_token, bytes_eq,
}
use aument.Parser.Regs.{Regs, pop_reg, last_reg, flush_cached_regs, flush_free_regs}
use aument.Parser.Operators.Generate.{Generator}
pub use aument.Parser.Program.{Scope}
use aument.Parser.Program.{Class, Program}
use aument.Parser.Emit.{replace_bc_u16, emit}
use aument.Vm.{SourceMap}

-- `start` is where the token begins in the text.
pub record Source : Type 0 where
  pub token : Token
  pub start : ℕ

-- what ends the text
abbrev pub end_source : Source
end_source = record { token = eof_token; start = 0 }

-- The innermost scope stands first. `may_fail` is the flag of that name of self_flags, and `top_consts`
-- are the constants of the parser that top_level points to.
pub record Parser : Type 0 where
  pub input : List Source
  pub out : Generator
  pub vars : List Scope
  pub local_placement : ℕ
  pub max_locals : ℕ
  pub consts : Scope
  pub exported_consts : Scope
  pub program : Program
  pub self_name : Option (List ℕ)
  pub self_num_args : ℕ
  pub self_fill_call : List ℕ
  pub class_interface : Option Class
  pub top_consts : Option Scope
  pub func_idx : ℕ
  pub block_level : ℕ
  pub may_fail : Bool
  pub source_map : List SourceMap

-- struct au_parser_result, without the text that it expects
pub data Failure : Type 0 where
  unexpected_token : Token → Failure
  bytecode_gen : Failure
  unknown_function : Token → Failure
  wrong_args : ℕ → ℕ → Token → Failure
  unknown_var : Token → Failure
  expect_global_scope : Token → Failure
  duplicate_class : Token → Failure
  class_scope_only : Token → Failure
  duplicate_module : Token → Failure
  unknown_class : Token → Failure
  unknown_module : Token → Failure
  duplicate_prop : Token → Failure
  duplicate_arg : Token → Failure
  duplicate_const : Token → Failure

-- `aborted` is an abort or undefined behaviour, and `starved` means that the fuel ran out.
pub data Result (A : Type 0) : Type 0 where
  ok : A → Result A
  failed : Failure → Result A
  aborted : Result A
  starved : Result A

abbrev pub M : Type 0 → Type 0
M A = Parser → Result (A × Parser)

abbrev pub then_run : {A B : Type 0} → (A → M B) → Result (A × Parser) → Result (B × Parser)
then_run f (ok (a, p)) = f a p
then_run f (failed e) = failed e
then_run f aborted = aborted
then_run f starved = starved

infixl 5 ◌>>=◌ ◌>>◌
abbrev pub ◌>>=◌ : {A B : Type 0} → M A → (A → M B) → M B
◌>>=◌ m f p = then_run f (m p)

abbrev pub ◌>>◌ : {B : Type 0} → M (Unit {0}) → M B → M B
m >> k = m >>= λ _. k

abbrev pub return : {A : Type 0} → A → M A
return a p = ok (a, p)

abbrev pub refuse : {A : Type 0} → Failure → M A
refuse e p = failed e

-- reading a field, and writing fields
abbrev pub gets : {A : Type 0} → (Parser → A) → M A
gets f p = ok (f p, p)

abbrev pub modify : (Parser → Parser) → M (Unit {0})
modify f p = ok (tt, f p)

-- EXPECT_TOKEN, EXPECT_GLOBAL_SCOPE and EXPECT_BYTECODE
abbrev pub expect : Bool → Failure → M (Unit {0})
expect condition e p = if condition then ok (tt, p) else failed e

abbrev pub first : List Source → Source
first [] = end_source
first (s ∷ rest) = s

abbrev pub rest_of : List Source → List Source
rest_of [] = []
rest_of (s ∷ rest) = rest

abbrev pub peek_token : M Source
peek_token p = ok (first p.input, p)

abbrev pub next_token : M Source
next_token p = ok (first p.input, record p { input = rest_of p.input })

abbrev pub is_type : TokenType → TokenType → Bool
is_type eof eof = true
is_type identifier identifier = true
is_type operator operator = true
is_type at_identifier at_identifier = true
is_type string string = true
is_type _ _ = false

-- token_keyword_cmp
unfoldable pub keyword_cmp : Token → List ℕ → Bool
keyword_cmp t str = is_type identifier t.type && bytes_eq t.src str

abbrev pub is_op : Token → ℕ → Bool
is_op t ch = is_type operator t.type && bytes_eq t.src (ch ∷ [])

abbrev pub is_eof : Token → Bool
is_eof t = is_type eof t.type

-- The helpers on the code and on the registers.
abbrev pub code_len : M ℕ
code_len p = ok (length p.out.bc, p)

abbrev pub with_regs : Regs → Parser → Parser
with_regs regs p = record p { out = record p.out { regs = regs } }

abbrev pub emit_code : List ℕ → M (Unit {0})
emit_code code p = ok (tt, record p { out = emit code p.out })

abbrev pub flush_cached : M (Unit {0})
flush_cached p = ok (tt, with_regs (flush_cached_regs p.out.regs) p)

abbrev pub flush_free : M (Unit {0})
flush_free p = ok (tt, with_regs (flush_free_regs p.out.regs) p)

abbrev pub took : Parser → Option (ℕ × Regs) → Result (ℕ × Parser)
took p none = aborted
took p (some (reg, regs)) = ok (reg, with_regs regs p)

unfoldable pub pop : M ℕ
pop p = took p (pop_reg p.out.regs)

abbrev pub topmost : Parser → Option ℕ → Result (ℕ × Parser)
topmost p none = aborted
topmost p (some reg) = ok (reg, p)

unfoldable pub last : M ℕ
last p = topmost p (last_reg p.out.regs)

abbrev pub with_code : List ℕ → Parser → Parser
with_code bc p = record p { out = record p.out { bc = bc } }

abbrev pub replaced : Parser → Option (List ℕ) → Result (Unit {0} × Parser)
replaced p none = aborted
replaced p (some bc) = ok (tt, with_code bc p)

-- au_parser_replace_bc_u16, whose argument is cast to uint16_t
unfoldable pub replace : ℕ → ℕ → M (Unit {0})
replace idx val p = replaced p (replace_bc_u16 idx (val % 2 ^ 16) p.out.bc)

-- au_hm_vars_get
unfoldable pub lookup : List ℕ → Scope → Option ℕ
lookup name [] = none
lookup name ((key, value) ∷ scope) = if bytes_eq key name then some value else lookup name scope

-- au_parser_resolve_identifier
unfoldable pub resolve : List ℕ → List Scope → Option ℕ
resolve name [] = none
resolve name (scope ∷ scopes) = elim (lookup name scope) [
  | none ↦ resolve name scopes
  | some value ↦ some value
]

-- a name that is not there, in the innermost scope; without a scope the code is undefined
abbrev pub declare : List ℕ → ℕ → List Scope → List Scope
declare name value [] = []
declare name value (scope ∷ scopes) = ((name, value) ∷ scope) ∷ scopes

-- au_parser_bump_local
unfoldable pub bump_local : M ℕ
bump_local p = ok (
  p.local_placement,
  record p {
    local_placement = p.local_placement + 1;
    max_locals = max p.max_locals (p.local_placement + 1);
  },
)

-- au_parser_pop_locals
unfoldable pub pop_locals : ℕ → M (Unit {0})
pop_locals locals p = ok (tt, record p { local_placement = p.local_placement - locals })
