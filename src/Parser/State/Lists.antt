-- ===== src/Parser/State/Lists.antt =====
-- PARSE_COMMA_LIST of src/core/parser/impl/def.h, where an item depends on those before it.
use aument.Prelude.{ℕ, zero, suc, if◌then◌else◌}
use aument.Parser.State.{
  unexpected_token, starved, M, ◌>>=◌, return, refuse, peek_token, next_token, is_op,
}
use aument.Parser.Statements.Control.{ends_list}

module _ {A : Type 0} (ending : ℕ) (item : A → M A) where
  -- after an item
  unfoldable pub fold_loop : ℕ → A → M A
  fold_loop zero a = λ p. starved
  fold_loop (suc fuel) a =
      let rest = item a >>= fold_loop fuel in
      do
        tok ← next_token
        if ends_list ending tok.token
            then return a
            else if is_op tok.token 44
            then (do
              tok' ← peek_token
              if ends_list ending tok'.token then (next_token >>= λ _. return a) else rest)
            else refuse (unexpected_token tok.token)

  unfoldable pub fold_list : ℕ → A → M A
  fold_list fuel a = do
    tok ← peek_token
    if ends_list ending tok.token
        then (next_token >>= λ _. return a)
        else (item a >>= fold_loop fuel)
