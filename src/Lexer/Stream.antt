-- ===== src/Lexer/Stream.antt =====
-- The lookahead of src/core/parser/lexer.c: au_lexer_init, au_lexer_next and au_lexer_peek.
use aument.Prelude.{ℕ, ◌≡◌, refl, sym, ap, Bool, true, false, List, [], ◌∷◌, if◌then◌else◌}
use aument.Lexer.{Token, eof_token}
use aument.Lexer.Scan.{scan}

-- `left` is the text from pos on.
pub record Lexer : Type 0 where
  pub left : List ℕ
  pub lookahead : Token
  pub has_lookahead : Bool

unfoldable pub lexer_init : List ℕ → Lexer
lexer_init src = record { left = src; lookahead = eof_token; has_lookahead = false }

unfoldable pub lexer_next : ℕ → Lexer → Token × Lexer
lexer_next past l =
    if l.has_lookahead
    then (l.lookahead, record l { has_lookahead = false })
    else (let t = scan past l.left in (t.0, record l { left = t.1 }))

unfoldable pub lexer_peek : ℕ → Lexer → Token × Lexer
lexer_peek past l =
    if l.has_lookahead
    then (l.lookahead, l)
    else (let t = lexer_next past l in
        (t.0, record { left = t.1.left; lookahead = t.0; has_lookahead = true }))

-- what a parser asks of its lexer
pub data Call : Type 0 where
  peek : Call
  next : Call

unfoldable pub call : ℕ → Call → Lexer → Token × Lexer
call past peek l = lexer_peek past l
call past next l = lexer_next past l

unfoldable pub answers : ℕ → List Call → Lexer → List Token
answers past [] l = []
answers past (c ∷ calls) l = let t = call past c l in t.0 ∷ answers past calls t.1

-- a lexer without lookahead, whose state is the text: `peek` scans and keeps its text
unfoldable pub ref_call : ℕ → Call → List ℕ → Token × List ℕ
ref_call past peek src = ((scan past src).0, src)
ref_call past next src = scan past src

unfoldable pub ref_answers : ℕ → List Call → List ℕ → List Token
ref_answers past [] src = []
ref_answers past (c ∷ calls) src = let t = ref_call past c src in t.0 ∷ ref_answers past calls t.1

-- the lexer stands before the text src
unfoldable Waits : ℕ → Bool → Token → List ℕ → List ℕ → Type 0
Waits past true t left src = scan past src ≡ (t, left)
Waits past false t left src = left ≡ src

call-Waits :
    (past : ℕ) (c : Call) (left src : List ℕ) (t : Token) (has : Bool)
    → Waits past has t left src
    → let l : Lexer = record { left = left; lookahead = t; has_lookahead = has } in
      let a = call past c l in
      let b = ref_call past c src in
      (a.0 ≡ b.0) × Waits past a.1.has_lookahead a.1.lookahead a.1.left b.1
unfolding Waits call ref_call lexer_peek lexer_next
call-Waits past peek left src t true h = (sym (ap (λ z. z.0) h), h)
call-Waits past peek left src t false h = rw h (refl, refl)
call-Waits past next left src t true h = (sym (ap (λ z. z.0) h), sym (ap (λ z. z.1) h))
call-Waits past next left src t false h = rw h (refl, refl)

answers-Waits :
    (past : ℕ) (calls : List Call) (l : Lexer) (src : List ℕ)
    → Waits past l.has_lookahead l.lookahead l.left src
    → answers past calls l ≡ ref_answers past calls src
unfolding answers ref_answers
answers-Waits past [] l src h = refl
answers-Waits past (c ∷ calls) l src h =
    let (same, waits) = call-Waits past c l.left src l.lookahead l.has_lookahead h in
    rw (same, answers-Waits past calls (call past c l).1 (ref_call past c src).1 waits) refl

-- On every sequence of peeks and nexts from the start of a text, the lexer with its one token of
-- lookahead answers like the lexer that scans anew at each call.
pub answers-ref_answers :
    (past : ℕ) (calls : List Call) (src : List ℕ)
    → answers past calls (lexer_init src) ≡ ref_answers past calls src
unfolding lexer_init Waits
answers-ref_answers past calls src = answers-Waits past calls (lexer_init src) src refl
