-- ===== src/Utf8/Search.antt =====
-- utf8_str of src/core/utf8.h.
use aument.Prelude.{
  ℕ, zero, suc, ◌<◌, ◌≡◌, refl, ◌≢◌, inl, inr, Bool, true, false, ◌&&◌, Option, none, some, List,
  [], ◌∷◌, arith, ltb, ◌==◌, if◌then◌else◌, ==_refl, Bool-cases, length,
}
use aument.Utf8.{leads4, leads3, leads2, utf8_next, march, utf8_str}

-- every byte is ASCII
unfoldable pub ascii : List ℕ → Bool
ascii [] = true
ascii (b ∷ rest) = ltb b 128 && ascii rest

-- the text from the first byte that is b on
unfoldable pub find : ℕ → List ℕ → Option (List ℕ)
find b [] = none
find b (a ∷ rest) = if a == b then some (a ∷ rest) else find b rest

utf8_next-ascii : (a : ℕ) (rest : List ℕ) → a < 128 → utf8_next (a ∷ rest) ≡ some (1, rest)
unfolding utf8_next leads4 leads3 leads2
utf8_next-ascii a rest h = ground arith

march_nil : (h : List ℕ) → march h [] ≡ (h, [])
unfolding march
march_nil [] = refl
march_nil (a ∷ h) = refl

march_hit : (a b : ℕ) (h : List ℕ) → (a == b) ≡ true → march (a ∷ h) (b ∷ []) ≡ (h, [])
unfolding march
march_hit a b h e = rw e (march_nil h)

march_miss : (a b : ℕ) (h n : List ℕ) → (a == b) ≡ false → march (a ∷ h) (b ∷ n) ≡ (a ∷ h, b ∷ n)
unfolding march
march_miss a b h n e = rw e refl

march_partial :
    (a x b : ℕ) (h : List ℕ)
    → (x == b) ≡ false
    → march (a ∷ (x ∷ h)) (a ∷ (b ∷ [])) ≡ (x ∷ h, b ∷ [])
unfolding march
march_partial a x b h e = rw e (ground arith)

-- In an ASCII text, a needle of one byte is found at its first occurrence, and only where there is
-- one; as many turns as there are bytes and one more are enough.
pub utf8_str-find :
    (fuel b : ℕ) (h : List ℕ)
    → ascii h ≡ true
    → length h < fuel
    → utf8_str fuel h (b ∷ []) ≡ find b h
unfolding utf8_str find ascii
utf8_str-find zero b h plain enough = absurd (omega arith)
utf8_str-find (suc fuel) b [] plain enough = refl
utf8_str-find (suc fuel) b (a ∷ h) plain enough = elim (Bool-cases (a == b)) [
  | inl e ↦ rw e (rw (utf8_str, march_hit a b h e) refl)
  | inr e ↦
      let low : a < 128 = ground arith in
      rw e (
        rw (utf8_str, march_miss a b h [] e)
          (rw (march_miss a b h [] e, utf8_next-ascii a h low)
            (utf8_str-find fuel b h (ground arith) (omega arith))))
]

utf8_str_found :
    (fuel b : ℕ) (rest : List ℕ) → utf8_str (suc fuel) (b ∷ rest) (b ∷ []) ≡ some (b ∷ rest)
unfolding utf8_str
utf8_str_found fuel b rest = rw (utf8_str, march_hit b b rest (==_refl b)) refl

-- In an ASCII text that begins with the bytes a, x and b, x not b, a needle of the two bytes a and
-- b is reported as found at that b.
pub utf8_str_gap :
    (fuel a x b : ℕ) (rest : List ℕ)
    → ascii (a ∷ (x ∷ (b ∷ rest))) ≡ true
    → x ≢ b
    → utf8_str (suc (suc fuel)) (a ∷ (x ∷ (b ∷ rest))) (a ∷ (b ∷ [])) ≡ some (b ∷ rest)
unfolding utf8_str ascii
utf8_str_gap fuel a x b rest plain other =
    let differ : (x == b) ≡ false = ground arith in
    let low : x < 128 = ground arith in
    rw (utf8_str, march_partial a x b (b ∷ rest) differ)
      (rw (march_partial a x b (b ∷ rest) differ, utf8_next-ascii x (b ∷ rest) low)
        (utf8_str_found fuel b rest))
