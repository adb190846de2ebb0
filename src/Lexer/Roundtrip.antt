-- ===== src/Lexer/Roundtrip.antt =====
-- Texts that the scanner of src/core/parser/lexer.c reads back.
use aument.Prelude.{
  ℕ, ◌≡◌, refl, inl, inr, Bool, true, false, ◌&&◌, ◌||◌, not, some, List, [], ◌∷◌, ◌++◌, arith,
  ◌==◌, if◌then◌else◌, Bool-cases,
}
use aument.Lexer.{identifier, string}
use aument.Lexer.Scan.{
  is_space, is_digit, is_alpha, is_id_start, is_id_cont, span, skip, string_body, token,
  string_suffix, scan_string, scan_identifier, scan_start, scan,
}

-- every byte passes the test
unfoldable pub all : (ℕ → Bool) → List ℕ → Bool
all test [] = true
all test (ch ∷ rest) = test ch && all test rest

-- the first byte, if there is one, fails the test
unfoldable pub stops : (ℕ → Bool) → List ℕ → Bool
stops test [] = true
stops test (ch ∷ rest) = not (test ch)

span-all :
    (test : ℕ → Bool) (xs rest : List ℕ)
    → all test xs ≡ true
    → stops test rest ≡ true
    → span test (xs ++ rest) ≡ (xs, rest)
unfolding span all stops
span-all test [] [] h s = refl
span-all test [] (ch ∷ rest) h s = ground arith
span-all test (x ∷ xs) rest h s =
    let more = span-all test xs rest (ground arith) s in
    let here : test x ≡ true = ground arith in rw (here, more) refl

id_start_class :
    (ch : ℕ)
    → is_id_start ch ≡ true
    → (is_space ch ≡ false)
      × ((ch == 47) ≡ false)
      × ((ch == 34 || ch == 39) ≡ false)
      × ((ch == 48) ≡ false)
      × (is_digit ch ≡ false)
unfolding is_id_start is_alpha is_space is_digit
id_start_class ch h = ground arith

-- An identifier followed by a byte that cannot continue it, or by the end, is scanned whole.
pub scan-identifier :
    (past ch : ℕ) (name rest : List ℕ)
    → is_id_start ch ≡ true
    → all is_id_cont name ≡ true
    → stops is_id_cont rest ≡ true
    → scan past (ch ∷ (name ++ rest)) ≡ (token identifier (ch ∷ name), rest)
unfolding scan scan_start skip scan_identifier
scan-identifier past ch name rest h all_cont stop =
    let more = span-all is_id_cont name rest all_cont stop in
    let (space, slash, quote, zero_digit, digit) = id_start_class ch h in
    rw (space, slash) (rw (scan_start, quote, zero_digit, digit, h) (rw more refl))

-- the bytes that get a backslash before them in a string literal
unfoldable pub is_escaped : ℕ → Bool
is_escaped ch = ch == 34 || ch == 39 || ch == 92

unescaped : (ch : ℕ) → is_escaped ch ≡ false → ((ch == 34) ≡ false) × ((ch == 92) ≡ false)
unfolding is_escaped
unescaped ch h = ground arith

unfoldable pub escape : List ℕ → List ℕ
escape [] = []
escape (ch ∷ rest) = if is_escaped ch then 92 ∷ (ch ∷ escape rest) else ch ∷ escape rest

string_body-escape :
    (text rest : List ℕ) → string_body 34 (escape text ++ (34 ∷ rest)) ≡ some (escape text, rest)
unfolding string_body escape
string_body-escape [] rest = refl
string_body-escape (ch ∷ text) rest = elim (Bool-cases (is_escaped ch)) [
  | inl special ↦ rw special (rw (string_body-escape text rest) refl)
  | inr plain ↦
      let (quote, slash) = unescaped ch plain in
      rw plain (rw (quote, slash, string_body-escape text rest) refl)
]

string_suffix-stops :
    (rest body : List ℕ)
    → stops (λ ch. ch == 99) rest ≡ true
    → string_suffix 34 body rest ≡ (token string body, rest)
unfolding stops
string_suffix-stops [] body stop = refl
string_suffix-stops (ch ∷ rest) body stop = ground arith

scan_string-escape :
    (text rest : List ℕ)
    → stops (λ ch. ch == 99) rest ≡ true
    → scan_string 34 (escape text ++ (34 ∷ rest)) ≡ (token string (escape text), rest)
unfolding scan_string
scan_string-escape text rest stop =
    rw (scan_string, string_body-escape text rest) (string_suffix-stops rest (escape text) stop)

-- A text with a backslash before each quote of either kind and each backslash, between double quotes
-- and not followed by the suffix `c`, is scanned as one string token that holds the escaped text.
pub scan-escape :
    (past : ℕ) (text rest : List ℕ)
    → stops (λ ch. ch == 99) rest ≡ true
    → scan past (34 ∷ (escape text ++ (34 ∷ rest))) ≡ (token string (escape text), rest)
unfolding scan scan_start skip is_space
scan-escape past text rest stop = rw (scan_string-escape text rest stop) refl
