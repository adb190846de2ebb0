-- ===== src/Word.antt =====
-- Machine words as native numbers. A `uint32_t`, and the bit pattern of an `int32_t`, is a number
-- below 2 ^ 32; `signed32` is the integer that a pattern stands for. The wrapping operations are
-- those of src/platform/arithmetic.h; the others are the C operators on `int` that
-- src/core/rt/value/main.h applies, `none` where C leaves them undefined.
pub mod Signed
use Prim.Native.Nat.{bit_and, bit_or, bit_xor}
use aument.Prelude.{
  ℕ, ◌+◌, ◌-◌, ◌*◌, ◌/◌, ◌%◌, ◌^◌, Bool, ◌&&◌, Option, none, some, ltb, leb, ◌==◌, ◌>>=◌,
  if◌then◌else◌,
}
use aument.Prelude.Int.{ℤ, pos, negsuc}

abbrev pub signed32 : ℕ → ℤ
signed32 w = if ltb w (2 ^ 31) then pos w else negsuc (2 ^ 32 - w - 1)

unfoldable pub iadd_wrap : ℕ → ℕ → ℕ
iadd_wrap a b = (a + b) % 2 ^ 32

unfoldable pub isub_wrap : ℕ → ℕ → ℕ
isub_wrap a b = (a + 2 ^ 32 - b) % 2 ^ 32

unfoldable pub imul_wrap : ℕ → ℕ → ℕ
imul_wrap a b = a * b % 2 ^ 32

-- -a, as the compilers in use wrap it at INT32_MIN
unfoldable pub ineg : ℕ → ℕ
ineg a = (2 ^ 32 - a) % 2 ^ 32

-- the absolute value, which for INT32_MIN is 2 ^ 31
unfoldable pub magnitude : ℕ → ℕ
magnitude a = if ltb a (2 ^ 31) then a else 2 ^ 32 - a

-- a % b: the sign of the result is that of `a`; undefined for b = 0 and for INT32_MIN % -1
unfoldable pub irem : ℕ → ℕ → Option ℕ
unfolding magnitude ineg
irem a b =
    if b == 0
    then none
    else if (a == 2 ^ 31) && (b == 2 ^ 32 - 1)
    then none
    else if ltb a (2 ^ 31)
    then some (a % magnitude b)
    else some (ineg (magnitude a % magnitude b))

unfoldable pub iand : ℕ → ℕ → ℕ
iand a b = bit_and a b

unfoldable pub ior : ℕ → ℕ → ℕ
ior a b = bit_or a b

unfoldable pub ixor : ℕ → ℕ → ℕ
ixor a b = bit_xor a b

unfoldable pub inot : ℕ → ℕ
inot a = 2 ^ 32 - 1 - a

-- a << b, undefined unless 0 ≤ b < 32; a bit that leaves the word is lost, as the compilers in
-- use define it
unfoldable pub ishl : ℕ → ℕ → Option ℕ
ishl a b = if ltb b 32 then some (a * 2 ^ b % 2 ^ 32) else none

-- a >> b is the arithmetic shift of the compilers in use
unfoldable pub ishr : ℕ → ℕ → Option ℕ
ishr a b =
    if ltb b 32
    then some (if ltb a (2 ^ 31) then a / 2 ^ b else 2 ^ 32 - 1 - (2 ^ 32 - 1 - a) / 2 ^ b)
    else none

-- a < b on patterns: both are moved by 2 ^ 31, which keeps the signed order
unfoldable pub ilt : ℕ → ℕ → Bool
ilt a b = ltb ((a + 2 ^ 31) % 2 ^ 32) ((b + 2 ^ 31) % 2 ^ 32)

unfoldable pub ile : ℕ → ℕ → Bool
ile a b = leb ((a + 2 ^ 31) % 2 ^ 32) ((b + 2 ^ 31) % 2 ^ 32)

-- a * b and a + b on `int`, for b not negative in a * b; undefined when the result does not fit
unfoldable pub imul : ℕ → ℕ → Option ℕ
imul a b =
    if ltb a (2 ^ 31)
    then (if ltb (a * b) (2 ^ 31) then some (a * b) else none)
    else if leb ((2 ^ 32 - a) * b) (2 ^ 31)
    then some (2 ^ 32 - (2 ^ 32 - a) * b)
    else none

unfoldable pub iadd : ℕ → ℕ → Option ℕ
iadd a b =
    let sum = (a + b) % 2 ^ 32 in
    let overflows =
      if leb (2 ^ 31) a
      then leb (2 ^ 31) b && ltb sum (2 ^ 31)
      else ltb b (2 ^ 31) && leb (2 ^ 31) sum in
    if overflows then none else some sum

-- a * b + c
unfoldable pub imul_add : ℕ → ℕ → ℕ → Option ℕ
imul_add a b c = imul a b >>= λ product. iadd product c
