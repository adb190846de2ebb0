-- ===== src/Lexer/Progress.antt =====
-- How much text a call of the scanner of src/core/parser/lexer.c leaves.
use aument.Prelude.{
  ℕ, suc, ◌≤◌, ◌<◌, ◌≡◌, inl, inr, Bool, true, false, some, List, [], ◌∷◌, ◌++◌, arith,
  Option-cases, length, bind_parts,
}
use aument.Lexer.{TokenType, eof, int_literal, double_literal, unknown}
use aument.Lexer.Scan.{
  is_digit, is_id_cont, is_hex, span, skip, skip_slash, skip_line, string_body, escaped,
  string_suffix, scan_string, exponent, fraction, scan_decimal, scan_zero, scan_identifier, scan_at,
  scan_one, scan_operator, scan_start, scan,
}

span-length : (test : ℕ → Bool) (src : List ℕ) → length (span test src).1 ≤ length src
unfolding span
span-length test [] = omega arith
span-length test (ch ∷ rest) = let h = span-length test rest in ground arith

mutual
  unfolding skip

  skip-length : (src : List ℕ) → length (skip src) ≤ length src
  skip-length [] = omega arith
  skip-length (ch ∷ rest) =
      let a = skip-length rest in let b = skip_slash-length ch rest in ground arith

  skip_slash-length : (ch : ℕ) (src : List ℕ) → length (skip_slash ch src) ≤ suc (length src)
  skip_slash-length ch [] = omega arith
  skip_slash-length ch (c ∷ rest) = let a = skip_line-length rest in ground arith

  skip_line-length : (src : List ℕ) → length (skip_line src) ≤ length src
  skip_line-length [] = omega arith
  skip_line-length (ch ∷ rest) =
      let a = skip-length rest in let b = skip_line-length rest in ground arith

mutual
  unfolding string_body

  string_body-length :
      (q : ℕ) (src : List ℕ) (r : List ℕ × List ℕ)
      → string_body q src ≡ some r
      → length r.1 ≤ length src
  string_body-length q [] r e = ground arith
  string_body-length q (ch ∷ rest) r e = elim (Option-cases (string_body q rest)) [
    | inl none_there ↦ let b = escaped-length q rest r in ground arith
    | inr (more, there) ↦
        let a = string_body-length q rest more there in
        let b = escaped-length q rest r in ground arith
  ]

  escaped-length :
      (q : ℕ) (src : List ℕ) (r : List ℕ × List ℕ)
      → escaped q src ≡ some r
      → length r.1 ≤ length src
  escaped-length q [] r e = ground arith
  escaped-length q (ch ∷ rest) r e =
      let (more, there, same) =
        bind_parts (string_body q rest) (λ more. some (92 ∷ (ch ∷ more.0), more.1)) r e in
      let a = string_body-length q rest more there in ground arith

string_suffix-length :
    (q : ℕ) (body rest : List ℕ) → length (string_suffix q body rest).1 ≤ length rest
string_suffix-length q body [] = omega arith
string_suffix-length q body (ch ∷ rest) = ground arith

scan_string-length : (q : ℕ) (rest : List ℕ) → length (scan_string q rest).1 ≤ length rest
unfolding scan_string
scan_string-length q rest = elim (Option-cases (string_body q rest)) [
  | inl none_there ↦ rw (length, none_there) (omega arith)
  | inr (more, there) ↦
      let a = string_body-length q rest more there in
      let b = string_suffix-length q more.0 more.1 in rw (length, there) (omega arith)
]

exponent-length :
    (type : TokenType) (front rest : List ℕ) → length (exponent type front rest).1 ≤ length rest
exponent-length type front [] = omega arith
exponent-length type front (ch ∷ []) = let a = span-length is_digit [] in ground arith
exponent-length type front (ch ∷ (sign ∷ rest)) =
    let a = span-length is_digit rest in let b = span-length is_digit (sign ∷ rest) in ground arith

fraction-length : (front rest : List ℕ) → length (fraction front rest).1 ≤ length rest
fraction-length front [] = omega arith
fraction-length front (ch ∷ rest) =
    let a = span-length is_digit rest in
    let b =
      exponent-length double_literal (front ++ (ch ∷ (span is_digit rest).0))
        (span is_digit rest).1 in
    let c = exponent-length int_literal front (ch ∷ rest) in ground arith

scan_decimal-length : (ch : ℕ) (rest : List ℕ) → length (scan_decimal ch rest).1 ≤ length rest
unfolding scan_decimal
scan_decimal-length ch rest =
    let a = span-length is_digit rest in
    let b = fraction-length (ch ∷ (span is_digit rest).0) (span is_digit rest).1 in omega arith

scan_zero-length : (past : ℕ) (rest : List ℕ) → length (scan_zero past rest).1 ≤ length rest
unfolding scan_zero
scan_zero-length past [] = let a = scan_decimal-length 48 [] in ground arith
scan_zero-length past (ch ∷ rest) =
    let a = scan_decimal-length 48 (ch ∷ rest) in let b = span-length is_hex rest in ground arith

scan_at-length : (rest : List ℕ) → length (scan_at rest).1 ≤ length rest
unfolding scan_at
scan_at-length [] = omega arith
scan_at-length (ch ∷ rest) = let a = span-length is_id_cont rest in ground arith

scan_identifier-length : (ch : ℕ) (rest : List ℕ) → length (scan_identifier ch rest).1 ≤ length rest
unfolding scan_identifier
scan_identifier-length ch rest = span-length is_id_cont rest

-- whether the scanner stops at the token
unfoldable pub is_last : TokenType → Bool
is_last eof = true
is_last unknown = true
is_last _ = false

scan_one-length :
    (ch : ℕ) (rest : List ℕ)
    → is_last (scan_one ch rest).0.type ≡ false
    → length (scan_one ch rest).1 ≤ length rest
unfolding scan_one is_last
scan_one-length ch rest = ground arith

scan_operator-length :
    (ch : ℕ) (rest : List ℕ)
    → is_last (scan_operator ch rest).0.type ≡ false
    → length (scan_operator ch rest).1 ≤ length rest
unfolding scan_operator is_last
scan_operator-length ch [] = scan_one-length ch []
scan_operator-length ch (second ∷ rest) = let a = scan_one-length ch (second ∷ rest) in ground arith

scan_start-length :
    (past : ℕ) (src : List ℕ)
    → is_last (scan_start past src).0.type ≡ false
    → length (scan_start past src).1 < length src
unfolding scan_start is_last
scan_start-length past [] h = ground arith
scan_start-length past (ch ∷ rest) h =
    let a = scan_string-length ch rest in
    let b = scan_zero-length past rest in
    let c = scan_decimal-length ch rest in
    let d = scan_identifier-length ch rest in
    let e = scan_at-length rest in let f = scan_operator-length ch rest in ground arith

-- A token other than the end of the text and an unknown one is followed by less text.
pub scan-length :
    (past : ℕ) (src : List ℕ)
    → is_last (scan past src).0.type ≡ false
    → length (scan past src).1 < length src
unfolding scan
scan-length past src h =
    let a = scan_start-length past (skip src) h in let b = skip-length src in omega arith
