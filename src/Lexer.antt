-- ===== src/Lexer.antt =====
-- Tokens: src/core/parser/lexer.h. A source text is the list of its bytes.
pub mod Scan
pub mod Roundtrip
pub mod Stream
pub mod Progress
use aument.Prelude.{ℕ, List, [], ◌∷◌, Bool, true, false, ◌&&◌, ◌==◌, ◌≡◌, refl, arith}

pub data TokenType : Type 0 where
  eof : TokenType
  int_literal : TokenType
  double_literal : TokenType
  identifier : TokenType
  string : TokenType
  operator : TokenType
  at_identifier : TokenType
  char_string : TokenType
  unknown : TokenType

pub record Token : Type 0 where
  pub type : TokenType
  pub src : List ℕ

-- what AU_TOK_EOF comes with
abbrev pub eof_token : Token
eof_token = record { type = eof; src = [] }

-- equal lengths and `memcmp(…) == 0`
abbrev pub bytes_eq : List ℕ → List ℕ → Bool
bytes_eq [] [] = true
bytes_eq [] (b ∷ bs) = false
bytes_eq (a ∷ rest) [] = false
bytes_eq (a ∷ rest) (b ∷ bs) = (a == b) && bytes_eq rest bs

pub bytes_eq-eq : (s t : List ℕ) → bytes_eq s t ≡ true → s ≡ t
bytes_eq-eq [] [] e = refl
bytes_eq-eq [] (b ∷ t) e = ground arith
bytes_eq-eq (a ∷ s) [] e = ground arith
bytes_eq-eq (a ∷ s) (b ∷ t) e = ground (arith, bytes_eq-eq s t)

pub bytes_eq_refl : (s : List ℕ) → bytes_eq s s ≡ true
bytes_eq_refl [] = refl
bytes_eq_refl (a ∷ s) = ground (arith, bytes_eq_refl s)
