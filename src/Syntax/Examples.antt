-- ===== src/Syntax/Examples.antt =====
-- Runs of the lookups on the tokens of `pkg::x = y`.
use slang_server_verilator.Prelude.{ℕ, ◌≤◌, ◌<◌, false, [], ◌∷◌, ◌≡◌, refl, none, some, arith}
use slang_server_verilator.Syntax.Index.{
  TokenKind, identifier, other_kind, Token, SourceLocation, SyntaxIndexer, get_word_token_at,
  get_token_before, get_token_after, get_syntax_at, token_index_before, search_index, starts_by,
  step_back, token_in_front, word_at, is_id_token, editor_contains,
}
use slang_server_verilator.Syntax.AtPlace.{IsWord, get_word_token_at-IsWord}
use slang_server_verilator.Syntax.Word.{IsOrdered, no_tokens, then_token}

abbrev word_token : ℕ → ℕ → TokenKind → Token
word_token start end kind = record {
  kind = kind;
  start = start;
  end = end;
  is_missing = false;
  parent = start ∷ 100 ∷ [];
}

abbrev scoped : SyntaxIndexer
scoped = record {
  buffer = 1;
  collected =
      word_token 0 3 identifier
      ∷ word_token 3 5 other_kind
      ∷ word_token 5 6 identifier
      ∷ word_token 7 8 other_kind
      ∷ word_token 9 10 identifier
      ∷ [];
}

abbrev here : ℕ → SourceLocation
here offset = record { buffer = 1; offset = offset }

index_example : token_index_before scoped (here 6) ≡ some 2
unfolding token_index_before starts_by search_index
index_example = refl

-- The place behind a word, which an editor takes for a part of it, is not.
behind_word : get_word_token_at scoped (here 3) ≡ none
unfolding get_word_token_at token_index_before starts_by search_index word_at is_id_token
    token_in_front editor_contains
behind_word = refl

before_example : get_token_before scoped (here 6) ≡ some (word_token 5 6 identifier)
unfolding get_token_before token_index_before starts_by token_in_front step_back search_index
before_example = refl

after_example : get_token_after scoped (here 6) ≡ some (word_token 7 8 other_kind)
unfolding get_token_after
after_example = refl

-- Between two tokens it is the ancestor that they share.
syntax_example : get_syntax_at scoped (here 6) ≡ 100 ∷ []
unfolding get_syntax_at token_index_before starts_by search_index
syntax_example = refl

scoped-IsOrdered : IsOrdered 0 scoped.collected
scoped-IsOrdered = then_token 0 _ _ (omega arith) (omega arith) (
    then_token 3 _ _ (omega arith) (omega arith) (
      then_token 5 _ _ (omega arith) (omega arith) (
        then_token 6 _ _ (omega arith) (omega arith)
          (then_token 8 _ _ (omega arith) (omega arith) (no_tokens 10)))))

get_word_token_at-IsWord_example :
    ((t : Token)
      → get_word_token_at scoped (here 5) ≡ some t
      → IsWord scoped.collected 5 t × (5 ≤ t.end))
    × ((t : Token)
        → IsWord scoped.collected 5 t
        → 5 < t.end
        → get_word_token_at scoped (here 5) ≡ some t)
get_word_token_at-IsWord_example = get_word_token_at-IsWord scoped (here 5) 0 refl scoped-IsOrdered
