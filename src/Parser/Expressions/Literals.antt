-- ===== src/Parser/Expressions/Literals.antt =====
-- Literals: numbers, characters and strings in au_parser_exec_value of src/core/parser/impl/expr.c. An
-- int is its 32 bits, and its overflow, which C leaves undefined, is `none`. au_dconv_strtod_s is the parameter `strtod`.
pub mod Escapes
pub mod Numbers
pub mod Quoted
use aument.Prelude.{
  ℕ, zero, suc, ◌+◌, ◌-◌, ◌*◌, ◌%◌, ◌^◌, Bool, true, false, ◌&&◌, ◌||◌, not, Option, none, some,
  List, [], ◌∷◌, ◌++◌, ltb, leb, ◌==◌, if◌then◌else◌, length, take, drop,
}
use aument.Word.{imul_add}
use aument.Utf8.{utf8_codepoint}
use aument.Parser.Program.{Constant, int_value, double_value, string_value}
use aument.Parser.State.{M, ◌>>=◌, ◌>>◌, return, emit_code}
use aument.Parser.State.Steps.{allocate, add_data, present}
use aument.Parser.Statements.{low_high}
use aument.Parser.Expressions.{op_mov_u16, op_load_const}

-- the result -1 is its bits
unfoldable pub hex_value : ℕ → ℕ
hex_value ch =
    if leb 48 ch && leb ch 57
    then ch - 48
    else if leb 97 ch && leb ch 102
    then ch - 97 + 10
    else if leb 65 ch && leb ch 70
    then ch - 65 + 10
    else 2 ^ 32 - 1

-- a char is signed
unfoldable pub decimal_value : ℕ → ℕ
decimal_value ch = ((if ltb ch 128 then ch + 2 ^ 32 else ch + 2 ^ 32 - 256) - 48) % 2 ^ 32

unfoldable pub hex_loop : ℕ → List ℕ → Option ℕ
hex_loop num [] = some num
hex_loop num (ch ∷ rest) = elim (imul_add num 16 (hex_value ch)) [
  | none ↦ none
  | some next ↦ hex_loop next rest
]

unfoldable pub decimal_loop : ℕ → List ℕ → Option ℕ
decimal_loop num [] = some num
decimal_loop num (ch ∷ rest) = elim (imul_add num 10 (decimal_value ch)) [
  | none ↦ none
  | some next ↦ decimal_loop next rest
]

-- `0x`
abbrev pub is_hex_literal : List ℕ → Bool
is_hex_literal [] = false
is_hex_literal (a ∷ []) = false
is_hex_literal (a ∷ (b ∷ rest)) = (a == 48) && (b == 120)

unfoldable pub int_literal_value : List ℕ → Option ℕ
int_literal_value src = if is_hex_literal src then hex_loop 0 (drop 2 src) else decimal_loop 0 src

-- `num <= 0x8000`, also for the negative ones
unfoldable pub fits_operand : ℕ → Bool
fits_operand num = leb num 32768 || leb (2 ^ 31) num

-- The index is cut to 16 bits.
unfoldable pub load_const : ℕ → ℕ → M (Unit {0})
load_const reg idx = emit_code (op_load_const ∷ (reg ∷ low_high idx))

unfoldable pub load_data : Constant → M (Unit {0})
load_data value = do result_reg ← allocate; idx ← add_data value; load_const result_reg idx

unfoldable pub load_number : ℕ → M (Unit {0})
load_number num =
    if fits_operand num
    then (do result_reg ← allocate; emit_code (op_mov_u16 ∷ (result_reg ∷ low_high num)))
    else load_data (int_value num)

unfoldable pub exec_int : List ℕ → M (Unit {0})
exec_int src = do num ← present (int_literal_value src); load_number num

unfoldable pub exec_double : (List ℕ → ℕ) → List ℕ → M (Unit {0})
exec_double strtod src = load_data (double_value (strtod src))

abbrev pub escaped : ℕ → ℕ
escaped ch = if ch == 110 then 10 else ch

-- the copy of what stands before the backslash, at the first escape
abbrev pub formatted : List ℕ → Option (List ℕ) → List ℕ
formatted passed none = take (length passed - 1) passed
formatted passed (some str) = str

abbrev pub appended : ℕ → Option (List ℕ) → Option (List ℕ)
appended ch none = none
appended ch (some str) = some (str ++ (ch ∷ []))

-- formatted_string after one byte; `passed` are the bytes before it
unfoldable pub escape_step : List ℕ → Bool → Bool → ℕ → Option (List ℕ) → Option (List ℕ)
escape_step passed starts in_escape ch str =
    if starts
    then str
    else if in_escape
    then some (formatted passed str ++ (escaped ch ∷ []))
    else appended ch str

unfoldable pub escape_loop : List ℕ → List ℕ → Bool → Option (List ℕ) → Option (List ℕ)
escape_loop [] passed in_escape str = str
escape_loop (ch ∷ rest) passed in_escape str =
    let starts = (ch == 92) && not in_escape in
    escape_loop rest (passed ++ (ch ∷ [])) starts (escape_step passed starts in_escape ch str)

abbrev pub or_source : List ℕ → Option (List ℕ) → List ℕ
or_source src none = src
or_source src (some str) = str

unfoldable pub string_bytes : List ℕ → List ℕ
string_bytes src = or_source src (escape_loop src [] false none)

unfoldable pub exec_string : List ℕ → M (Unit {0})
exec_string src = do
  idx ← add_data (string_value (string_bytes src))
  reg ← allocate
  load_const reg idx

-- A character is read from the source, where its escapes still stand.
unfoldable pub exec_char_string : List ℕ → M (Unit {0})
exec_char_string src = do
  codepoint ← present (utf8_codepoint src)
  idx ← add_data (int_value (codepoint.0 % 2 ^ 32))
  reg ← allocate
  load_const reg idx
