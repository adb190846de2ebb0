-- ===== src/Word/Signed.antt =====
-- The word operations of src/platform/arithmetic.h against the integers that the words stand for.
use aument.Prelude.{ℕ, ◌-◌, ◌^◌, ◌<◌, ◌≡◌, arith}
use aument.Prelude.Int.{ℤ, pos, negsuc, ◌+ℤ◌, ◌-ℤ◌, ◌≤ℤ◌, ltb_ℤ}
use aument.Word.{signed32, iadd_wrap, isub_wrap, ilt}

-- The integers that an `int32_t` holds.
abbrev pub Fits : ℤ → Type 0
Fits z = (negsuc (2 ^ 31 - 1) ≤ℤ z) × (z ≤ℤ pos (2 ^ 31 - 1))

module _ (a b : ℕ) (ha : a < 2 ^ 32) (hb : b < 2 ^ 32) where
  -- For two 32-bit words whose true sum fits, wrapping addition gives it.
  pub signed32-iadd_wrap :
      Fits (signed32 a +ℤ signed32 b) → signed32 (iadd_wrap a b) ≡ signed32 a +ℤ signed32 b
  unfolding iadd_wrap ◌+ℤ◌
  signed32-iadd_wrap h = ground arith

  -- For two 32-bit words whose true difference fits, wrapping subtraction gives it.
  pub signed32-isub_wrap :
      Fits (signed32 a -ℤ signed32 b) → signed32 (isub_wrap a b) ≡ signed32 a -ℤ signed32 b
  unfolding isub_wrap ◌-ℤ◌
  signed32-isub_wrap h = ground arith

  pub ilt-ltb_ℤ : ilt a b ≡ ltb_ℤ (signed32 a) (signed32 b)
  unfolding ilt
  ilt-ltb_ℤ = ground arith
