-- ===== src/Parser/Expressions/Literals/Escapes.antt =====
-- The escapes in a string literal: the loop in au_parser_exec_value of src/core/parser/impl/expr.c, which
-- copies the text at the first escape, and a reading of the text from left to right.
use aument.Prelude.{
  ℕ, ◌-◌, ◌≡◌, refl, sym, ap, ◌∙◌, Bool, true, false, ◌&&◌, none, some, List, [], ◌∷◌, ◌++◌, ◌==◌,
  if◌then◌else◌, length, take, arith, append_assoc, append-nil, length-append, Bool-cases, inl, inr,
}
use aument.Parser.Expressions.Literals.{escaped, escape_step, escape_loop, or_source, string_bytes}

-- the text without its backslashes; the flag says that one came just before
unfoldable pub unescape : Bool → List ℕ → List ℕ
unescape in_escape [] = []
unescape true (ch ∷ rest) = escaped ch ∷ unescape false rest
unescape false (ch ∷ rest) = if ch == 92 then unescape true rest else ch ∷ unescape false rest

-- whether a backslash ends the text
unfoldable pub ends_open : Bool → List ℕ → Bool
ends_open in_escape [] = in_escape
ends_open true (ch ∷ rest) = ends_open false rest
ends_open false (ch ∷ rest) = ends_open (ch == 92) rest

take-length : (pre rest : List ℕ) → take (length pre) (pre ++ rest) ≡ pre
take-length [] rest = refl
take-length (y ∷ pre) rest = ap (λ w. y ∷ w) (take-length pre rest)

take-append : (pre : List ℕ) (x : ℕ) → take (length (pre ++ (x ∷ [])) - 1) (pre ++ (x ∷ [])) ≡ pre
take-append pre x =
    let one : length (pre ++ (x ∷ [])) - 1 ≡ length pre =
      rw (length-append pre (x ∷ [])) (omega arith) in
    rw one (take-length pre (x ∷ []))

never_starts : (b : Bool) → (b && false) ≡ false
never_starts true = refl
never_starts false = refl

-- once there is a copy
escape_loop-some :
    (src passed s : List ℕ) (in_escape : Bool)
    → escape_loop src passed in_escape (some s) ≡ some (s ++ unescape in_escape src)
unfolding escape_loop escape_step unescape
escape_loop-some [] passed s in_escape = rw append-nil refl
escape_loop-some (ch ∷ rest) passed s true =
    let more = escape_loop-some rest (passed ++ (ch ∷ [])) (s ++ (escaped ch ∷ [])) false in
    rw (never_starts (ch == 92))
      (more ∙ rw (append_assoc s (escaped ch ∷ []) (unescape false rest)) refl)
escape_loop-some (ch ∷ rest) passed s false = elim (Bool-cases (ch == 92)) [
  | inl at ↦ rw at (escape_loop-some rest (passed ++ (ch ∷ [])) s true)
  | inr other ↦
      let more = escape_loop-some rest (passed ++ (ch ∷ [])) (s ++ (ch ∷ [])) false in
      rw other (more ∙ rw (append_assoc s (ch ∷ []) (unescape false rest)) refl)
]

-- one byte before there is a copy
plain_byte :
    (ch : ℕ) (rest passed : List ℕ)
    → ch == 92 ≡ false
    → (escape_loop (ch ∷ rest) passed false none
        ≡ escape_loop rest (passed ++ (ch ∷ [])) false none)
      × (unescape false (ch ∷ rest) ≡ ch ∷ unescape false rest)
      × (ends_open false (ch ∷ rest) ≡ ends_open false rest)
unfolding escape_loop escape_step unescape ends_open
plain_byte ch rest passed e = (rw e refl, rw e refl, rw e refl)

backslash :
    (ch : ℕ) (rest passed : List ℕ)
    → ch == 92 ≡ true
    → (escape_loop (ch ∷ rest) passed false none ≡ escape_loop rest (passed ++ (ch ∷ [])) true none)
      × (unescape false (ch ∷ rest) ≡ unescape true rest)
      × (ends_open false (ch ∷ rest) ≡ ends_open true rest)
unfolding escape_loop escape_step unescape ends_open
backslash ch rest passed e = (rw e refl, rw e refl, rw e refl)

-- the first escape copies what stands before its backslash
first_escape :
    (next : ℕ) (rest passed : List ℕ) (ch : ℕ)
    → escape_loop (next ∷ rest) (passed ++ (ch ∷ [])) true none
      ≡ some (passed ++ (escaped next ∷ unescape false rest))
unfolding escape_loop escape_step
first_escape next rest passed ch =
    let more =
      escape_loop-some rest ((passed ++ (ch ∷ [])) ++ (next ∷ [])) (passed ++ (escaped next ∷ []))
        false in
    rw (never_starts (next == 92)) (
      rw (take-append passed ch)
        (more ∙ rw (append_assoc passed (escaped next ∷ []) (unescape false rest)) refl))

after_backslash :
    (src passed : List ℕ) (ch : ℕ)
    → ends_open true src ≡ false
    → or_source (passed ++ (ch ∷ src)) (escape_loop src (passed ++ (ch ∷ [])) true none)
      ≡ passed ++ unescape true src
unfolding ends_open unescape
after_backslash [] passed ch h = absurd (cc)
after_backslash (next ∷ rest) passed ch h = rw (first_escape next rest passed ch) refl

empty_text :
    (passed : List ℕ)
    → or_source (passed ++ []) (escape_loop [] passed false none) ≡ passed ++ unescape false []
unfolding escape_loop unescape
empty_text passed = refl

escape_loop-none :
    (src passed : List ℕ)
    → ends_open false src ≡ false
    → or_source (passed ++ src) (escape_loop src passed false none) ≡ passed ++ unescape false src
escape_loop-none [] passed h = empty_text passed
escape_loop-none (ch ∷ rest) passed h = elim (Bool-cases (ch == 92)) [
  | inl at ↦
      let (loop, text, open_end) = backslash ch rest passed at in
      rw (loop, text) (after_backslash rest passed ch (sym open_end ∙ h))
  | inr other ↦
      let (loop, text, open_end) = plain_byte ch rest passed other in
      let more = escape_loop-none rest (passed ++ (ch ∷ [])) (sym open_end ∙ h) in
      rw (loop, text)
        (sym (
            ap (λ w. or_source w (escape_loop rest (passed ++ (ch ∷ [])) false none))
              (append_assoc passed (ch ∷ []) rest))
          ∙ more
          ∙ append_assoc passed (ch ∷ []) (unescape false rest))
]

-- The bytes of a string literal that no backslash ends are its text from left to right, where a
-- backslash gives way to the byte after it, or to a new line before an n.
pub string_bytes-unescape :
    (src : List ℕ) → ends_open false src ≡ false → string_bytes src ≡ unescape false src
unfolding string_bytes
string_bytes-unescape src h = escape_loop-none src [] h
