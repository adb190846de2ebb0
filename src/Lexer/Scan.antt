-- ===== src/Lexer/Scan.antt =====
-- The scanner: au_lexer_next_ of src/core/parser/lexer.c without its lookahead. It goes down the bytes
-- that are left. For a final `0` the code also looks at the byte after the text, `past`.
use aument.Prelude.{
  ℕ, Bool, false, ◌&&◌, ◌||◌, Option, none, some, List, [], ◌∷◌, ◌++◌, leb, ◌==◌, if◌then◌else◌,
  ◌>>=◌,
}
use aument.Lexer.{
  TokenType, Token, eof_token, int_literal, double_literal, identifier, string, operator,
  at_identifier, char_string, unknown,
}

unfoldable pub is_space : ℕ → Bool
is_space ch = ch == 32 || ch == 9 || ch == 10 || ch == 13

unfoldable pub is_digit : ℕ → Bool
is_digit ch = leb 48 ch && leb ch 57

unfoldable pub is_alpha : ℕ → Bool
is_alpha ch = (leb 97 ch && leb ch 122) || (leb 65 ch && leb ch 90)

unfoldable pub is_id_start : ℕ → Bool
is_id_start ch = is_alpha ch || ch == 95

unfoldable pub is_id_cont : ℕ → Bool
is_id_cont ch = is_id_start ch || is_digit ch

unfoldable pub is_hex : ℕ → Bool
is_hex ch = (leb 48 ch && leb ch 57) || (leb 97 ch && leb ch 102) || (leb 65 ch && leb ch 70)

-- the loops that advance while a test holds: what they pass over, and what is left
unfoldable pub span : (ℕ → Bool) → List ℕ → List ℕ × List ℕ
span test [] = ([], [])
span test (ch ∷ rest) =
    let more = span test rest in if test ch then (ch ∷ more.0, more.1) else ([], ch ∷ rest)

-- the first loop: white space and comments
unfoldable mutual
  pub skip : List ℕ → List ℕ
  skip [] = []
  skip (ch ∷ rest) =
      if is_space ch then skip rest else if ch == 47 then skip_slash ch rest else ch ∷ rest

  -- after a slash
  pub skip_slash : ℕ → List ℕ → List ℕ
  skip_slash slash [] = slash ∷ []
  skip_slash slash (ch ∷ rest) = if ch == 47 then skip_line rest else slash ∷ (ch ∷ rest)

  pub skip_line : List ℕ → List ℕ
  skip_line [] = []
  skip_line (ch ∷ rest) = if ch == 10 then skip rest else skip_line rest

-- the body of a string and what is left; `none` when a backslash ends the text
unfoldable mutual
  pub string_body : ℕ → List ℕ → Option (List ℕ × List ℕ)
  string_body start_ch [] = some ([], [])
  string_body start_ch (ch ∷ rest) =
      if ch == 92
      then escaped start_ch rest
      else if ch == start_ch
      then some ([], rest)
      else string_body start_ch rest >>= λ more. some (ch ∷ more.0, more.1)

  -- after a backslash
  pub escaped : ℕ → List ℕ → Option (List ℕ × List ℕ)
  escaped start_ch [] = none
  escaped start_ch (ch ∷ rest) =
      string_body start_ch rest >>= λ more. some (92 ∷ (ch ∷ more.0), more.1)

abbrev pub Scanned : Type 0
Scanned = Token × List ℕ

abbrev pub token : TokenType → List ℕ → Token
token type src = record { type = type; src = src }

-- A closing quote counts in the length of a string with the suffix `c`.
abbrev pub string_suffix : ℕ → List ℕ → List ℕ → Scanned
string_suffix start_ch body [] = (token string body, [])
string_suffix start_ch body (ch ∷ rest) =
    if ch == 99
    then (token char_string (body ++ (start_ch ∷ [])), rest)
    else (token string body, ch ∷ rest)

unfoldable pub scan_string : ℕ → List ℕ → Scanned
scan_string start_ch rest = elim (string_body start_ch rest) [
  | none ↦ (token unknown (start_ch ∷ []), [])
  | some more ↦ string_suffix start_ch more.0 more.1
]

unfoldable pub is_exponent : ℕ → Bool
is_exponent ch = ch == 101 || ch == 69

unfoldable pub is_sign : ℕ → Bool
is_sign ch = ch == 43 || ch == 45

abbrev pub span_sign : List ℕ → List ℕ × List ℕ
span_sign [] = ([], [])
span_sign (ch ∷ rest) = if is_sign ch then (ch ∷ [], rest) else ([], ch ∷ rest)

-- the exponent of a number, after what stands before it
abbrev pub exponent : TokenType → List ℕ → List ℕ → Scanned
exponent type front [] = (token type front, [])
exponent type front (ch ∷ rest) =
    if is_exponent ch
    then (let sign = span_sign rest in
        let digits = span is_digit sign.1 in
        (token double_literal (front ++ (ch ∷ (sign.0 ++ digits.0))), digits.1))
    else (token type front, ch ∷ rest)

-- the fraction and the exponent
abbrev pub fraction : List ℕ → List ℕ → Scanned
fraction front [] = (token int_literal front, [])
fraction front (ch ∷ rest) =
    if ch == 46
    then (let digits = span is_digit rest in
        exponent double_literal (front ++ (ch ∷ digits.0)) digits.1)
    else exponent int_literal front (ch ∷ rest)

-- the label parse_decimal
unfoldable pub scan_decimal : ℕ → List ℕ → Scanned
scan_decimal start_ch rest =
    let digits = span is_digit rest in fraction (start_ch ∷ digits.0) digits.1

unfoldable pub scan_zero : ℕ → List ℕ → Scanned
scan_zero past [] =
    if past == 120 then (token int_literal (48 ∷ (past ∷ [])), []) else scan_decimal 48 []
scan_zero past (ch ∷ rest) =
    if ch == 120
    then (let digits = span is_hex rest in (token int_literal (48 ∷ (ch ∷ digits.0)), digits.1))
    else scan_decimal 48 (ch ∷ rest)

unfoldable pub scan_identifier : ℕ → List ℕ → Scanned
scan_identifier start_ch rest =
    let more = span is_id_cont rest in (token identifier (start_ch ∷ more.0), more.1)

-- An `@` alone is passed over.
unfoldable pub scan_at : List ℕ → Scanned
scan_at [] = (token unknown (64 ∷ []), [])
scan_at (ch ∷ rest) =
    if is_id_start ch
    then (let more = span is_id_cont rest in (token at_identifier (64 ∷ (ch ∷ more.0)), more.1))
    else (token unknown (64 ∷ []), ch ∷ rest)

-- += -= *= /= %= != <= >= == >> << && || &= |= #[ :: )? )! ]?
abbrev pub two_bytes : List (ℕ × ℕ)
two_bytes =
    (43, 61)
    ∷ ((45, 61)
        ∷ ((42, 61)
            ∷ ((47, 61)
                ∷ ((37, 61)
                    ∷ ((33, 61)
                        ∷ ((60, 61)
                            ∷ ((62, 61)
                                ∷ ((61, 61)
                                    ∷ ((62, 62)
                                        ∷ ((60, 60)
                                            ∷ ((38, 38)
                                                ∷ ((124, 124)
                                                    ∷ ((38, 61)
                                                        ∷ ((124, 61)
                                                            ∷ ((35, 91)
                                                            ∷ ((58, 58)
                                                            ∷ ((41, 63)
                                                            ∷ ((41, 33)
                                                            ∷ ((93, 63) ∷ [])))))))))))))))))))

-- + - * / % ! < > = & | ^ ~ ( ) { } ; , . : [ ]
abbrev pub one_byte : List ℕ
one_byte =
    43
    ∷ (45
        ∷ (42
            ∷ (47
                ∷ (37
                    ∷ (33
                        ∷ (60
                            ∷ (62
                                ∷ (61
                                    ∷ (38
                                        ∷ (124
                                            ∷ (94
                                                ∷ (126
                                                    ∷ (40
                                                        ∷ (41
                                                            ∷ (123
                                                            ∷ (125
                                                            ∷ (59
                                                            ∷ (44
                                                            ∷ (46
                                                            ∷ (58
                                                            ∷ (91 ∷ (93 ∷ []))))))))))))))))))))))

unfoldable pub has_pair : List (ℕ × ℕ) → ℕ → ℕ → Bool
has_pair [] a b = false
has_pair (x ∷ xs) a b = (x.0 == a && x.1 == b) || has_pair xs a b

unfoldable pub has_byte : List ℕ → ℕ → Bool
has_byte [] a = false
has_byte (x ∷ xs) a = x == a || has_byte xs a

-- one byte: an operator, the end at a zero byte, or an unknown token that is not passed over
unfoldable pub scan_one : ℕ → List ℕ → Scanned
scan_one ch rest =
    if has_byte one_byte ch
    then (token operator (ch ∷ []), rest)
    else if ch == 0
    then (eof_token, [])
    else (token unknown (ch ∷ []), ch ∷ rest)

unfoldable pub scan_operator : ℕ → List ℕ → Scanned
scan_operator ch [] = scan_one ch []
scan_operator ch (second ∷ rest) =
    if has_pair two_bytes ch second
    then (token operator (ch ∷ (second ∷ [])), rest)
    else scan_one ch (second ∷ rest)

-- the branches on start_ch
unfoldable pub scan_start : ℕ → List ℕ → Scanned
scan_start past [] = (eof_token, [])
scan_start past (ch ∷ rest) =
    if ch == 34 || ch == 39
    then scan_string ch rest
    else if ch == 48
    then scan_zero past rest
    else if is_digit ch
    then scan_decimal ch rest
    else if is_id_start ch
    then scan_identifier ch rest
    else if ch == 64
    then scan_at rest
    else scan_operator ch rest

unfoldable pub scan : ℕ → List ℕ → Scanned
scan past src = scan_start past (skip src)
