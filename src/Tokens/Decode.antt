-- ===== src/Tokens/Decode.antt =====
-- document/SemanticTokens.cpp: the client reads back the tokens that were emitted.
use slang_server_verilator.Diag.Types.{Range}
use slang_server_verilator.Position.Columns.{word}
use slang_server_verilator.Position.Utf8.{Utf8}
use slang_server_verilator.Prelude.{
  ℕ, suc, ◌%◌, ◌≤◌, ◌<◌, Bool, true, false, ◌&&◌, List, [], ◌∷◌, ◌≡◌, refl, Option, some, arith,
  ◌==◌, Bytes, length,
}
use slang_server_verilator.Tokens.Encode.{
  Cancellation, encoded, Placement, skipped, overrun, placed, upper_bound, place, next_line,
  next_char, encode_from, encode_semantic_tokens,
}
use slang_server_verilator.Tokens.Types.{SemanticToken}
use slang_server_verilator.Tokens.Reads.{
  place-small, place-fits, decode, emitted, is_small, Reads, push-Reads,
}

and_false : (b : Bool) → (b && false) ≡ false
and_false true = refl
and_false false = refl

found : (n : ℕ) → 0 < n → (n == 0) ≡ false
found n h = ground (arith, h)

-- Tokens that start in the text
pub data AllInside (text : Bytes) : List SemanticToken → Type 0 where
  none_left : AllInside text []
  and_inside :
      (token : SemanticToken) (tokens : List SemanticToken)
      → token.offset ≤ length text
      → AllInside text tokens
      → AllInside text (token ∷ tokens)

-- A request that is never cancelled
pub record NeverCancelled (ctx : Cancellation) : Type 0 where
  pub during : (n : ℕ) → ctx.at_token n ≡ false
  pub behind : ctx.at_end ≡ false

module _ (u : Utf8) (starts : List ℕ) (text : Bytes) (range : Option Range) (ctx : Cancellation)
    (few : length (0 ∷ starts) < word) (never : NeverCancelled ctx) where
  first_line : (offset : ℕ) → 0 < upper_bound (0 ∷ starts) offset
  unfolding upper_bound
  first_line offset = ground arith

  next_line-word : (p : Placement) (l : ℕ) → l < word → next_line p l < word
  unfolding next_line
  next_line-word skipped l h = h
  next_line-word overrun l h = h
  next_line-word (placed line character size) l h = omega arith

  next_char-word : (p : Placement) (c : ℕ) → is_small p ≡ true → c < word → next_char p c < word
  unfolding next_char is_small
  next_char-word skipped c s h = h
  next_char-word overrun c s h = h
  next_char-word (placed line character size) c s h = ground (arith, s)

  encode_from-Reads :
      (counter prev_line prev_char : ℕ) (tokens : List SemanticToken)
      → AllInside text tokens
      → prev_line < word
      → prev_char < word
      → Reads
          (encode_from u (0 ∷ starts) text range ctx counter prev_line prev_char tokens)
          prev_line
          prev_char
          (emitted u (0 ∷ starts) text range tokens)
  unfolding encode_from emitted Reads decode
  encode_from-Reads counter l c [] h hl hc = ([], rw never.behind refl, refl)
  encode_from-Reads counter l c (token ∷ tokens) (and_inside _ _ i h) hl hc =
      rw (never.during (suc counter), and_false (suc counter % 256 == 0))
        (push-Reads (place u (0 ∷ starts) text range token) token l c _ _ small
          (place-fits u (0 ∷ starts) text range token i (first_line token.offset)) hl hc
          (encode_from-Reads (suc counter) (next_line (place u (0 ∷ starts) text range token) l)
            (next_char (place u (0 ∷ starts) text range token) c) tokens h
            (next_line-word (place u (0 ∷ starts) text range token) l hl)
            (next_char-word (place u (0 ∷ starts) text range token) c small hc)))
    where
      small : is_small (place u (0 ∷ starts) text range token) ≡ true
      small = place-small u (0 ∷ starts) text range token few

-- When the request is never cancelled, the text has fewer than 2 ^ 32 lines, the first of which
-- starts at 0, and every token starts in the text, `encodeSemanticTokens` returns data, and a client
-- that reads the data in groups of five, each relative to the one before, gets exactly the tokens
-- that are emitted, in order, each with its line, character, length, type and modifiers.
pub encode_semantic_tokens-decode :
    (u : Utf8) (lines : Bytes → List ℕ) (starts : List ℕ) (text : Bytes) (range : Option Range)
    (ctx : Cancellation) (tokens : List SemanticToken)
    → lines text ≡ 0 ∷ starts
    → length (0 ∷ starts) < word
    → NeverCancelled ctx
    → AllInside text tokens
    → (numbers : List ℕ) × (encode_semantic_tokens u lines text tokens range ctx ≡ encoded numbers)
      × (decode 0 0 numbers ≡ some (emitted u (0 ∷ starts) text range tokens))
unfolding encode_semantic_tokens Reads decode emitted
encode_semantic_tokens-decode u lines starts text range ctx [] e few never h = ([], refl, refl)
encode_semantic_tokens-decode u lines starts text range ctx (token ∷ tokens) e few never h =
    rw (e, found (length (0 ∷ starts)) (omega arith))
      (encode_from-Reads u starts text range ctx few never 0 0 0 (token ∷ tokens) h (omega arith)
        (omega arith))
