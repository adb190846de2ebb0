-- ===== src/Tests/Scanning.antt =====
-- The scanner of src/core/parser/lexer.c at concrete inputs.
use aument.Prelude.{ℕ, ◌<◌, ◌≡◌, refl, List, [], ◌∷◌, ◌++◌, length}
use aument.Lexer.{identifier, string}
use aument.Lexer.Scan.{
  scan, token, is_alpha, is_digit, is_id_cont, is_id_start, is_space, scan_identifier, scan_start,
  skip, span,
}
use aument.Lexer.Stream.{Call, lexer_init, answers, ref_answers, answers-ref_answers}
use aument.Lexer.Progress.{scan-length, is_last}
use aument.Lexer.Roundtrip.{escape, scan-escape, stops}

-- a1 += "b"
abbrev text : List ℕ
text = 97 ∷ (49 ∷ (32 ∷ (43 ∷ (61 ∷ (34 ∷ (98 ∷ (34 ∷ [])))))))

scan-text :
    scan 0 text ≡ (token identifier (97 ∷ (49 ∷ [])), 32 ∷ (43 ∷ (61 ∷ (34 ∷ (98 ∷ (34 ∷ []))))))
unfolding scan scan_start skip is_space is_digit is_id_start is_alpha scan_identifier span
    is_id_cont
scan-text = refl

abbrev calls : List Call
calls = Call.peek ∷ (Call.next ∷ (Call.next ∷ (Call.peek ∷ (Call.peek ∷ []))))

answers-ref_answers_example : answers 0 calls (lexer_init text) ≡ ref_answers 0 calls text
answers-ref_answers_example = answers-ref_answers 0 calls text

scan-length_example : length (scan 0 text).1 < length text
unfolding scan is_last scan_start skip is_space is_digit is_id_start is_alpha scan_identifier
scan-length_example = scan-length 0 text refl

scan-escape_example :
    scan 0 (34 ∷ (escape (97 ∷ (34 ∷ [])) ++ (34 ∷ (59 ∷ []))))
    ≡ (token string (escape (97 ∷ (34 ∷ []))), 59 ∷ [])
unfolding scan stops
scan-escape_example = scan-escape 0 (97 ∷ (34 ∷ [])) (59 ∷ []) refl
