-- ===== src/Parser/Expressions/Literals/Quoted.antt =====
-- String literals as they are written: au_lexer_next_ of src/core/parser/lexer.c and the escapes of
-- au_parser_exec_value in src/core/parser/impl/expr.c.
use aument.Prelude.{
  ℕ, ◌≡◌, refl, ◌∙◌, inl, inr, Bool, true, false, ◌||◌, some, List, [], ◌∷◌, ◌++◌, arith, ◌==◌,
  if◌then◌else◌, Bool-cases,
}
use aument.Lexer.{string}
use aument.Lexer.Scan.{
  is_space, skip, string_body, token, string_suffix, scan_string, scan_start, scan,
}
use aument.Lexer.Roundtrip.{stops}
use aument.Parser.Expressions.Literals.{string_bytes}
use aument.Parser.Expressions.Literals.Escapes.{unescape, ends_open, string_bytes-unescape}

abbrev pub is_quote : ℕ → Bool
is_quote q = q == 34 || q == 39

-- The text of a literal in the quotes q: a backslash before each backslash and each q, and `\n` for a
-- new line.
unfoldable pub escape : ℕ → List ℕ → List ℕ
escape q [] = []
escape q (ch ∷ rest) =
    if ch == 92 || ch == q
    then 92 ∷ (ch ∷ escape q rest)
    else if ch == 10
    then 92 ∷ (110 ∷ escape q rest)
    else ch ∷ escape q rest

unescape-escape : (q : ℕ) (s : List ℕ) → is_quote q ≡ true → unescape false (escape q s) ≡ s
unfolding unescape escape
unescape-escape q [] h = refl
unescape-escape q (ch ∷ s) h = ground (arith, unescape-escape q s h)

ends_open-escape : (q : ℕ) (s : List ℕ) → ends_open false (escape q s) ≡ false
unfolding ends_open escape
ends_open-escape q [] = refl
ends_open-escape q (ch ∷ s) = ground (arith, ends_open-escape q s)

string_body-escape :
    (q : ℕ) (s rest : List ℕ)
    → is_quote q ≡ true
    → string_body q (escape q s ++ (q ∷ rest)) ≡ some (escape q s, rest)
unfolding string_body escape
string_body-escape q [] rest h =
    let other : (q == 92) ≡ false = ground arith in
    let same : (q == q) ≡ true = ground arith in rw (other, same) refl
string_body-escape q (ch ∷ s) rest h = elim (Bool-cases (ch == 92 || ch == q)) [
  | inl special ↦ rw special (rw (string_body-escape q s rest h) refl)
  | inr plain ↦
      let slash : (ch == 92) ≡ false = ground arith in
      let quote : (ch == q) ≡ false = ground arith in
      elim (Bool-cases (ch == 10)) [
        | inl line ↦ rw (plain, line) (rw (string_body-escape q s rest h) refl)
        | inr other ↦ rw (plain, other) (rw (slash, quote, string_body-escape q s rest h) refl)
      ]
]

string_suffix-stops :
    (q : ℕ) (rest body : List ℕ)
    → stops (λ ch. ch == 99) rest ≡ true
    → string_suffix q body rest ≡ (token string body, rest)
unfolding stops
string_suffix-stops q [] body stop = refl
string_suffix-stops q (ch ∷ rest) body stop = ground arith

scan_string-escape :
    (q : ℕ) (s rest : List ℕ)
    → is_quote q ≡ true
    → stops (λ ch. ch == 99) rest ≡ true
    → scan_string q (escape q s ++ (q ∷ rest)) ≡ (token string (escape q s), rest)
unfolding scan_string
scan_string-escape q s rest h stop =
    rw (scan_string, string_body-escape q s rest h) (string_suffix-stops q rest (escape q s) stop)

-- Every text s is written as a string literal, in single or double quotes: with its backslashes, quotes of
-- that kind and new lines escaped, between the quotes and not followed by the suffix c, it is
-- scanned as one string token, and the bytes of that token are s.
pub scan-string_bytes :
    (past q : ℕ) (s rest : List ℕ)
    → is_quote q ≡ true
    → stops (λ ch. ch == 99) rest ≡ true
    → (scan past (q ∷ (escape q s ++ (q ∷ rest))) ≡ (token string (escape q s), rest))
      × (string_bytes (escape q s) ≡ s)
unfolding scan scan_start skip is_space
scan-string_bytes past q s rest h stop =
    let space : (q == 32 || q == 9 || q == 10 || q == 13) ≡ false = ground arith in
    let slash : (q == 47) ≡ false = ground arith in
    (
      rw (space, slash) (rw (scan_start, h) (scan_string-escape q s rest h stop)),
      string_bytes-unescape (escape q s) (ends_open-escape q s) ∙ unescape-escape q s h,
    )
