-- ===== src/Parser/Statements/Control/Leave.antt =====
-- The jump that leaves the body of an if: none after an instruction that returns.
use aument.Prelude.{
  ℕ, ◌+◌, ◌-◌, ◌/◌, ◌*◌, ◌^◌, ◌≡◌, refl, sym, Bool, true, false, ◌||◌, Option, none, some, List, [],
  ◌++◌, ltb, if◌then◌else◌, length, arith, length-append, append-nil,
}
use aument.Parser.State.{Parser, ok, failed, bytecode_gen, with_code}
use aument.Parser.Statements.{op_jrel, is_return_op, byte_before_end}
use aument.Parser.Statements.Control.{emit_leave, patch_leave}
use aument.Parser.Statements.Control.Layout.{jump, patch_lem}

-- the jump over n instructions, unless the body returns; its place, and its size in instructions
abbrev pub leave : Bool → ℕ → List ℕ
leave true n = []
leave false n = jump op_jrel 0 n

abbrev pub leave_place : Bool → ℕ → Option ℕ
leave_place true at = none
leave_place false at = some at

abbrev pub leave_size : Bool → ℕ
leave_size true = 0
leave_size false = 1

abbrev pub returns : Parser → Bool
returns p = is_return_op (byte_before_end 4 p.out.bc)

pub length-leave : (b : Bool) (n : ℕ) → length (leave b n) ≡ 4 * leave_size b
length-leave true n = refl
length-leave false n = refl

pub emit_leave_lem :
    (b : Bool) (p : Parser)
    → returns p ≡ b
    → emit_leave p ≡ ok (leave_place b (length p.out.bc), with_code (p.out.bc ++ leave b 0) p)
unfolding emit_leave
emit_leave_lem true p e = rw (e, append-nil) refl
emit_leave_lem false p e = rw e refl

-- After xs and before ys, the jump goes to the end of the code.
pub patch_leave_lem :
    (b : Bool) (n : ℕ) (p : Parser) (xs ys : List ℕ) (at : ℕ)
    → at ≡ length xs
    → p.out.bc ≡ xs ++ (leave b 0 ++ ys)
    → 4 * n ≡ 4 + length ys
    → patch_leave (leave_place b at) p ≡ (
        if b || ltb n (2 ^ 16)
        then ok (tt, with_code (xs ++ (leave b n ++ ys)) p)
        else failed bytecode_gen)
unfolding patch_leave
patch_leave_lem true n p xs ys at place code size = rw (sym code) refl
patch_leave_lem false n p xs ys at place code size =
    let total : length p.out.bc ≡ length xs + 4 + length ys =
      let a = length-append xs (leave false 0 ++ ys) in rw code (omega arith) in
    let over : (length p.out.bc - at) / 4 ≡ n = omega arith in
    rw over (patch_lem (at + 2) n p xs ys op_jrel 0 0 0 (omega arith) code)
