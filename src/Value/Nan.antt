-- ===== src/Value/Nan.antt =====
-- NaN tagging (`AU_USE_NAN_TAGGING`) of src/core/rt/value/main.h: a value is one 64-bit word.
-- A mask by 2 ^ k - 1 is written `% 2 ^ k`, a shift `/ 2 ^ k`, and an `|` of fields that share no
-- bit is their sum.
pub mod Laws
use aument.Prelude.{
  ℕ, ◌+◌, ◌-◌, ◌*◌, ◌/◌, ◌%◌, ◌^◌, Bool, true, false, ◌&&◌, not, Option, none, some, ltb, leb, ◌==◌,
  if◌then◌else◌,
}

-- What a word stands for; a pointer is its address, a double its IEEE bits.
pub data Boxed : Type 0 where
  double : ℕ → Boxed
  nil : Boxed
  int : ℕ → Boxed
  bool : Bool → Boxed
  fn : ℕ → Boxed
  str : ℕ → Boxed
  struct : ℕ → Boxed
  error : Boxed

-- AU_REPR_FRACTION, AU_REPR_EXPONENT
abbrev pub fraction : ℕ → ℕ
fraction x = x % 2 ^ 52

abbrev pub exponent : ℕ → ℕ
exponent x = x / 2 ^ 52 % 2 ^ 11

-- AU_REPR_BOXED; the tag fits the four low bits of 0x7ff0, which are zero
unfoldable pub boxed : ℕ → ℕ → ℕ
boxed tag pointer = 0x7ff0000000000000 + tag * 2 ^ 48 + pointer % 2 ^ 48

abbrev pub get_pointer : ℕ → ℕ
get_pointer x = x % 2 ^ 48

abbrev pub error_word : ℕ
error_word = 0x7ff0ffffffffffff

abbrev pub canonical_nan : ℕ
canonical_nan = 0x7ff0000000000001

-- au_value_get_type: the number of the tag
unfoldable pub get_type : ℕ → ℕ
get_type w =
    let magic = w % 2 ^ 63 in if leb 0x7ff0000000000002 magic then magic / 2 ^ 48 % 16 else 0

-- (uint64_t)n for an `int32_t` pattern n
abbrev pub sign_extend : ℕ → ℕ
sign_extend n = if ltb n (2 ^ 31) then n else n + (2 ^ 64 - 2 ^ 32)

abbrev pub bit : Bool → ℕ
bit true = 1
bit false = 0

-- au_value_double; `below_zero` is the machine's `n < 0`
unfoldable pub value_double : (ℕ → Bool) → ℕ → ℕ
value_double below_zero d =
    if (exponent d == 0x7ff) && not (fraction d == 0)
    then (if below_zero d then canonical_nan + 2 ^ 63 else canonical_nan)
    else d

-- The constructors: au_value_none, au_value_int, au_value_bool, and so on.
unfoldable pub encode : (ℕ → Bool) → Boxed → ℕ
unfolding boxed value_double
encode bz (double d) = value_double bz d
encode bz nil = boxed 1 0
encode bz (int n) = boxed 2 (sign_extend n)
encode bz (bool b) = boxed 3 (bit b)
encode bz (fn p) = boxed 4 p
encode bz (str p) = boxed 5 p
encode bz (struct p) = boxed 6 p
encode bz error = error_word

-- The readers. `none` is the `abort()` on a word of another type.
unfoldable pub get_int : ℕ → Option ℕ
unfolding get_type
get_int w = if get_type w == 2 then some (get_pointer w % 2 ^ 32) else none

unfoldable pub get_double : ℕ → Option ℕ
unfolding get_type
get_double w = if get_type w == 0 then some w else none

unfoldable pub get_bool : ℕ → Option ℕ
unfolding get_type
get_bool w = if get_type w == 3 then some (w % 2) else none

unfoldable pub get_fn : ℕ → Option ℕ
unfolding get_type
get_fn w = if get_type w == 4 then some (get_pointer w) else none

unfoldable pub get_string : ℕ → Option ℕ
unfolding get_type
get_string w = if get_type w == 5 then some (get_pointer w) else none

unfoldable pub get_struct : ℕ → Option ℕ
unfolding get_type
get_struct w = if get_type w == 6 then some (get_pointer w) else none
