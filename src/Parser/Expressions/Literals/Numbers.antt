-- ===== src/Parser/Expressions/Literals/Numbers.antt =====
-- Int literals: exec_int of au_parser_exec_value in src/core/parser/impl/expr.c, against the number that
-- the digits mean.
use aument.Prelude.{
  ℕ, ◌+◌, ◌-◌, ◌*◌, ◌^◌, ◌≤◌, ◌<◌, ◌≡◌, refl, sym, inl, inr, false, none, some, List, [], ◌∷◌, ◌++◌,
  leb, length, arith, Bool-cases, leb→le, ltb, ltb→lt,
}
use aument.Word.{imul, iadd, imul_add}
use aument.Parser.Regs.{Regs, new_reg}
use aument.Parser.Program.{int_value}
use aument.Parser.State.{Parser, ok, aborted, then_run, emit_code}
use aument.Parser.State.Steps.{allocate, option_case, undefined, add_data, write_program}
use aument.Parser.Statements.{low_high}
use aument.Parser.Expressions.{op_mov_u16, op_load_const}
use aument.Parser.Expressions.Ignoring.{allocate-then, ok-injective}
use aument.Parser.Expressions.Literals.{
  decimal_value, decimal_loop, is_hex_literal, int_literal_value, fits_operand, load_const,
  load_data, load_number, exec_int,
}

-- the number that digits mean, after a number before them
unfoldable pub number_from : ℕ → List ℕ → ℕ
number_from num [] = num
number_from num (ch ∷ rest) = number_from (num * 10 + (ch - 48)) rest

unfoldable pub IsDigits : List ℕ → Type 0
IsDigits [] = Unit {0}
IsDigits (ch ∷ rest) = (48 ≤ ch) × (ch ≤ 57) × IsDigits rest

number_from-le : (num : ℕ) (src : List ℕ) → num ≤ number_from num src
unfolding number_from
number_from-le num [] = omega arith
number_from-le num (ch ∷ rest) =
    let more = number_from-le (num * 10 + (ch - 48)) rest in omega arith

decimal_step :
    (num ch : ℕ)
    → 48 ≤ ch
    → ch ≤ 57
    → num * 10 + (ch - 48) < 2 ^ 31
    → imul_add num 10 (decimal_value ch) ≡ some (num * 10 + (ch - 48))
unfolding decimal_value imul_add imul iadd
decimal_step num ch low high small = ground arith

decimal_loop-number :
    (num : ℕ) (src : List ℕ)
    → IsDigits src
    → number_from num src < 2 ^ 31
    → decimal_loop num src ≡ some (number_from num src)
unfolding decimal_loop number_from IsDigits
decimal_loop-number num [] d small = refl
decimal_loop-number num (ch ∷ rest) (low, high, d) small =
    let bound = number_from-le (num * 10 + (ch - 48)) rest in
    rw (decimal_loop, decimal_step num ch low high (omega arith))
      (decimal_loop-number (num * 10 + (ch - 48)) rest d small)

-- The step at which a number gets too large is undefined.
decimal_overflow :
    (num ch : ℕ)
    → 48 ≤ ch
    → ch ≤ 57
    → num < 2 ^ 31
    → 2 ^ 31 ≤ num * 10 + (ch - 48)
    → imul_add num 10 (decimal_value ch) ≡ none
unfolding decimal_value imul_add imul iadd
decimal_overflow num ch low high before large = ground arith

decimal_loop-none :
    (num : ℕ) (src : List ℕ)
    → IsDigits src
    → num < 2 ^ 31
    → 2 ^ 31 ≤ number_from num src
    → decimal_loop num src ≡ none
unfolding decimal_loop number_from IsDigits
decimal_loop-none num [] d before large = absurd (omega arith)
decimal_loop-none num (ch ∷ rest) (low, high, d) before large =
    elim (Bool-cases (ltb (num * 10 + (ch - 48)) (2 ^ 31))) [
      | inl fits ↦
          rw (decimal_loop, decimal_step num ch low high (ltb→lt _ _ fits))
            (decimal_loop-none (num * 10 + (ch - 48)) rest d (ltb→lt _ _ fits) large)
      | inr over ↦ rw (decimal_loop, decimal_overflow num ch low high before (ground arith)) refl
    ]

-- digits do not begin a number in hexadecimal
not_hex : (src : List ℕ) → IsDigits src → is_hex_literal src ≡ false
unfolding IsDigits
not_hex [] d = refl
not_hex (a ∷ []) d = refl
not_hex (a ∷ (b ∷ rest)) (low, high, d) = ground arith

literal_number :
    (src : List ℕ)
    → IsDigits src
    → number_from 0 src < 2 ^ 31
    → int_literal_value src ≡ some (number_from 0 src)
unfolding int_literal_value
literal_number src d small = rw (not_hex src d) (decimal_loop-number 0 src d small)

-- how a number is loaded into a register: as the operand, or as a constant
pub data Loads (num reg : ℕ) (p q : Parser) : Type 0 where
  as_operand :
      num ≤ 32768 → q.out.bc ≡ p.out.bc ++ (op_mov_u16 ∷ (reg ∷ low_high num)) → Loads num reg p q
  as_constant :
      32768 < num
      → q.out.bc ≡ p.out.bc ++ (op_load_const ∷ (reg ∷ low_high (length p.program.data_val)))
      → q.program.data_val ≡ p.program.data_val ++ (int_value num ∷ [])
      → Loads num reg p q

load_operand :
    (num : ℕ) (p q : Parser)
    → num ≤ 32768
    → then_run (λ reg. emit_code (op_mov_u16 ∷ (reg ∷ low_high num))) (allocate p) ≡ ok (tt, q)
    → (reg : ℕ) × (regs : Regs) × (new_reg p.out.regs ≡ some (reg, regs))
      × (q.out.regs ≡ regs)
      × Loads num reg p q
load_operand num p q small e =
    let (reg, regs, found, rest) = allocate-then _ p q e in
    let same = ok-injective tt tt _ q rest in
    (reg, regs, found, rw (sym same) refl, as_operand small (rw (sym same) refl))

load_constant :
    (num : ℕ) (p q : Parser)
    → 32768 < num
    → load_data (int_value num) p ≡ ok (tt, q)
    → (reg : ℕ) × (regs : Regs) × (new_reg p.out.regs ≡ some (reg, regs))
      × (q.out.regs ≡ regs)
      × Loads num reg p q
unfolding load_data load_const add_data write_program
load_constant num p q large e =
    let (reg, regs, found, rest) = allocate-then _ p q e in
    let same = ok-injective tt tt _ q rest in
    (
      reg,
      regs,
      found,
      rw (sym same) refl,
      as_constant large (rw (sym same) refl) (rw (sym same) refl),
    )

load_number-Loads :
    (num : ℕ) (p q : Parser)
    → num < 2 ^ 31
    → load_number num p ≡ ok (tt, q)
    → (reg : ℕ) × (regs : Regs) × (new_reg p.out.regs ≡ some (reg, regs))
      × (q.out.regs ≡ regs)
      × Loads num reg p q
unfolding load_number fits_operand
load_number-Loads num p q bound e = elim (Bool-cases (leb num 32768)) [
  | inl small ↦ load_operand num p q (leb→le _ _ small) (rw small at e)
  | inr large ↦
      let high : leb (2 ^ 31) num ≡ false = ground arith in
      load_constant num p q (ground arith) (rw (large, high) at e)
]

-- An int literal in decimal below 2 ^ 31 whose code is generated loads its number into the next free
-- register: up to 32768 as the operand of an instruction, above as a new constant, whose index is cut to
-- 16 bits.
pub exec_int-Loads :
    (src : List ℕ) (p q : Parser)
    → IsDigits src
    → number_from 0 src < 2 ^ 31
    → exec_int src p ≡ ok (tt, q)
    → (reg : ℕ) × (regs : Regs) × (new_reg p.out.regs ≡ some (reg, regs))
      × (q.out.regs ≡ regs)
      × Loads (number_from 0 src) reg p q
unfolding exec_int option_case
exec_int-Loads src p q d bound e =
    let value = literal_number src d bound in
    load_number-Loads (number_from 0 src) p q bound (rw value at e)

-- The value of an int literal in decimal from 2 ^ 31 on is undefined, as signed overflow is, and so is the
-- code that is generated for it.
pub exec_int_overflow :
    (src : List ℕ) (p : Parser)
    → IsDigits src
    → 2 ^ 31 ≤ number_from 0 src
    → exec_int src p ≡ aborted
unfolding exec_int int_literal_value option_case undefined
exec_int_overflow src p d large =
    rw (not_hex src d) (rw (decimal_loop-none 0 src d (omega arith) large) refl)
