-- ===== src/Value/Nan/Laws.antt =====
-- The NaN-tagged words of src/core/rt/value/main.h and their readers.
use aument.Prelude.{ℕ, ◌^◌, ◌<◌, ◌≡◌, arith, Bool, true, false, Option, none, some}
use aument.Value.Nan.{
  Boxed, double, nil, int, bool, fn, str, struct, error, error_word, boxed, get_type, encode, bit,
  value_double, get_int, get_double, get_bool, get_fn, get_string, get_struct,
}

-- The number of the tag that `enum au_vtype` gives the type of a value. The error value reads as
-- a double: its word has the zero tag.
abbrev pub tag : Boxed → ℕ
tag (double d) = 0
tag nil = 1
tag (int n) = 2
tag (bool b) = 3
tag (fn p) = 4
tag (str p) = 5
tag (struct p) = 6
tag error = 0

-- What the representation holds: 32-bit integers, 48-bit pointers, 64-bit doubles.
abbrev pub IsRepresentable : Boxed → Type 0
IsRepresentable (double d) = d < 2 ^ 64
IsRepresentable (int n) = n < 2 ^ 32
IsRepresentable (fn p) = p < 2 ^ 48
IsRepresentable (str p) = p < 2 ^ 48
IsRepresentable (struct p) = p < 2 ^ 48
IsRepresentable _ = Unit

get_type-boxed : (t p : ℕ) → 0 < t → t < 16 → get_type (boxed t p) ≡ t
unfolding get_type boxed
get_type-boxed t p h k = ground arith

pub get_type-encode :
    (bz : ℕ → Bool) (v : Boxed) → IsRepresentable v → get_type (encode bz v) ≡ tag v
unfolding get_type encode
get_type-encode bz (double d) h = ground arith
get_type-encode bz nil h = ground arith
get_type-encode bz _ h = ground arith

-- What each reader is to return for a value: its datum at its own type, and an abort elsewhere.
abbrev pub as_int : Boxed → Option ℕ
as_int (int n) = some n
as_int _ = none

abbrev pub as_double : (ℕ → Bool) → Boxed → Option ℕ
as_double bz (double d) = some (value_double bz d)
as_double bz error = some error_word
as_double bz _ = none

abbrev pub as_bool : Boxed → Option ℕ
as_bool (bool b) = some (bit b)
as_bool _ = none

abbrev pub as_fn : Boxed → Option ℕ
as_fn (fn p) = some p
as_fn _ = none

abbrev pub as_string : Boxed → Option ℕ
as_string (str p) = some p
as_string _ = none

abbrev pub as_struct : Boxed → Option ℕ
as_struct (struct p) = some p
as_struct _ = none

abbrev pub Reads : (ℕ → Bool) → Boxed → ℕ → Type 0
Reads bz v w =
    (get_int w ≡ as_int v)
    × (get_double w ≡ as_double bz v)
    × (get_bool w ≡ as_bool v)
    × (get_fn w ≡ as_fn v)
    × (get_string w ≡ as_string v)
    × (get_struct w ≡ as_struct v)

reads_int : (bz : ℕ → Bool) (v : Boxed) → IsRepresentable v → get_int (encode bz v) ≡ as_int v
unfolding get_int encode
reads_int bz (int n) h = ground arith
reads_int bz _ h = ground arith

reads_double :
    (bz : ℕ → Bool) (v : Boxed) → IsRepresentable v → get_double (encode bz v) ≡ as_double bz v
unfolding get_double encode
reads_double bz (double n) h = ground arith
reads_double bz _ h = ground arith

reads_bool : (bz : ℕ → Bool) (v : Boxed) → IsRepresentable v → get_bool (encode bz v) ≡ as_bool v
unfolding get_bool encode
reads_bool bz (bool true) h = ground arith
reads_bool bz (bool false) h = ground arith
reads_bool bz _ h = ground arith

reads_fn : (bz : ℕ → Bool) (v : Boxed) → IsRepresentable v → get_fn (encode bz v) ≡ as_fn v
unfolding get_fn encode
reads_fn bz (fn n) h = ground arith
reads_fn bz _ h = ground arith

reads_string :
    (bz : ℕ → Bool) (v : Boxed) → IsRepresentable v → get_string (encode bz v) ≡ as_string v
unfolding get_string encode
reads_string bz (str n) h = ground arith
reads_string bz _ h = ground arith

reads_struct :
    (bz : ℕ → Bool) (v : Boxed) → IsRepresentable v → get_struct (encode bz v) ≡ as_struct v
unfolding get_struct encode
reads_struct bz (struct n) h = ground arith
reads_struct bz _ h = ground arith

-- From the NaN-tagged word of a representable value, the reader of its type returns its datum and every
-- other reader aborts, except that a NaN is read as the canonical NaN, and the error value,
-- which has no reader, is read as a double.
pub encode-Reads : (bz : ℕ → Bool) (v : Boxed) → IsRepresentable v → Reads bz v (encode bz v)
encode-Reads bz v h = (
  reads_int bz v h,
  reads_double bz v h,
  reads_bool bz v h,
  reads_fn bz v h,
  reads_string bz v h,
  reads_struct bz v h,
)

-- Two representable values with one word are equal, when the first is neither a double nor the
-- error value.
pub encode-injective :
    (bz : ℕ → Bool) (v w : Boxed)
    → IsRepresentable v
    → IsRepresentable w
    → encode bz v ≡ encode bz w
    → 0 < tag v
    → v ≡ w
encode-injective bz v w hv hw e t = ground (
  arith,
  get_type-encode bz v hv,
  get_type-encode bz w hw,
  reads_int bz v hv,
  reads_int bz w hw,
  reads_bool bz v hv,
  reads_bool bz w hw,
  reads_fn bz v hv,
  reads_fn bz w hw,
  reads_string bz v hv,
  reads_string bz w hw,
  reads_struct bz v hv,
  reads_struct bz w hw,
)
