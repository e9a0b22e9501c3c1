-- ===== src/Tokens/Encode.antt =====
-- document/SemanticTokens.cpp: `encodeSemanticTokens`, with slang's line offsets as a parameter.
use slang_server_verilator.Diag.Types.{Position, Range}
use slang_server_verilator.Position.Columns.{word, utf16_length}
use slang_server_verilator.Position.Offsets.{is_terminator}
use slang_server_verilator.Position.Utf8.{Utf8}
use slang_server_verilator.Prelude.{
  ℕ, suc, ◌+◌, ◌-◌, ◌%◌, Bool, false, not, ◌&&◌, ◌||◌, List, [], ◌∷◌, Option, none, some,
  if◌then◌else◌, ◌==◌, ltb, leb, Bytes, length, take, drop, get_or,
}
use slang_server_verilator.Tokens.Types.{SemanticToken, type_index, position_less}

-- What `RequestContext::isCancelled` answers: in the loop, by the count of tokens, and at the end
pub record Cancellation : Type 0 where
  pub at_token : ℕ → Bool
  pub at_end : Bool

-- The data, or the exception `RequestCancelled`, or an index that is out of range
pub data Encoding : Type 0 where
  encoded : List ℕ → Encoding
  cancelled out_of_range : Encoding

-- What becomes of a token: it is passed over, it is not inside the text, or it is emitted
pub data Placement : Type 0 where
  skipped overrun : Placement
  placed : ℕ → ℕ → ℕ → Placement

-- `std::upper_bound` from the start of ascending offsets
unfoldable pub upper_bound : List ℕ → ℕ → ℕ
upper_bound [] offset = 0
upper_bound (start ∷ starts) offset =
    let rest = upper_bound starts offset in if leb start offset then suc rest else 0

-- `find_first_of("\r\n")`
unfoldable pub has_terminator : Bytes → Bool
has_terminator [] = false
has_terminator (c ∷ s) = is_terminator c || has_terminator s

-- Not inside the requested range
unfoldable pub is_outside : Option Range → Position → Bool
is_outside none start = false
is_outside (some range) start =
    position_less start range.start || not (position_less start range.end)

-- The tests of one token, on the line before its upper bound `bound`
unfoldable pub place_on : Utf8 → List ℕ → Bytes → Option Range → SemanticToken → ℕ → Placement
place_on u line_offsets text range token bound =
    let line_start = get_or line_offsets (bound - 1) 0 in
    let character = utf16_length u (take (token.offset - line_start) (drop line_start text)) in
    let size = utf16_length u (take token.token_length (drop token.offset text)) in
    if is_outside range (record { line = (bound - 1) % word; character = character })
    then skipped
    else placed (bound - 1) character size

unfoldable pub place : Utf8 → List ℕ → Bytes → Option Range → SemanticToken → Placement
place u line_offsets text range token =
    if token.token_length == 0 || ltb (length text) ((token.offset + token.token_length) % word)
    then skipped
    else if ltb (length text) token.offset
    then overrun
    else if has_terminator (take token.token_length (drop token.offset text))
    then skipped
    else if upper_bound line_offsets token.offset == 0
    then overrun
    else place_on u line_offsets text range token (upper_bound line_offsets token.offset)

unfoldable pub next_line : Placement → ℕ → ℕ
next_line (placed line character size) prev_line = line % word
next_line _ prev_line = prev_line

unfoldable pub next_char : Placement → ℕ → ℕ
next_char (placed line character size) prev_char = character
next_char _ prev_char = prev_char

-- The five numbers of a token, in front of those of the tokens behind it
unfoldable pub push_five : ℕ → ℕ → ℕ → ℕ → ℕ → Encoding → Encoding
push_five a b c d e (encoded numbers) = encoded (a ∷ b ∷ c ∷ d ∷ e ∷ numbers)
push_five a b c d e other = other

unfoldable pub push : Placement → SemanticToken → ℕ → ℕ → Encoding → Encoding
push skipped token prev_line prev_char rest = rest
push overrun token prev_line prev_char rest = out_of_range
push (placed line character size) token prev_line prev_char rest =
    push_five ((line % word + word - prev_line) % word)
      (if line == prev_line then (character + word - prev_char) % word else character) size
      (type_index token.token_type) token.modifiers rest

-- The loop
unfoldable pub encode_from :
    Utf8 → List ℕ → Bytes → Option Range → Cancellation → ℕ → ℕ → ℕ → List SemanticToken → Encoding
encode_from u line_offsets text range ctx counter prev_line prev_char [] =
    if ctx.at_end then cancelled else encoded []
encode_from u line_offsets text range ctx counter prev_line prev_char (token ∷ tokens) =
    let p = place u line_offsets text range token in
    let rest =
      encode_from u line_offsets text range ctx (suc counter) (next_line p prev_line)
        (next_char p prev_char) tokens in
    if (suc counter % 256 == 0) && ctx.at_token (suc counter)
    then cancelled
    else push p token prev_line prev_char rest

-- `encodeSemanticTokens`
unfoldable pub encode_semantic_tokens :
    Utf8 → (Bytes → List ℕ) → Bytes → List SemanticToken → Option Range → Cancellation → Encoding
encode_semantic_tokens u compute_line_offsets text [] range ctx = encoded []
encode_semantic_tokens u compute_line_offsets text (token ∷ tokens) range ctx =
    if length (compute_line_offsets text) == 0
    then encoded []
    else encode_from u (compute_line_offsets text) text range ctx 0 0 0 (token ∷ tokens)
