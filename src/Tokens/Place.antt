-- ===== src/Tokens/Place.antt =====
-- document/SemanticTokens.cpp: where a token of a line is placed, and that a cancelled request gets no
-- data.
use slang_server_verilator.Position.Columns.{word, utf16_length}
use slang_server_verilator.Position.Utf8.{Utf8}
use slang_server_verilator.Diag.Types.{Range}
use slang_server_verilator.Prelude.{
  ℕ, suc, ◌+◌, ◌-◌, ◌%◌, ◌≤◌, ◌<◌, Bool, true, false, ◌&&◌, ◌||◌, List, [], ◌∷◌, ◌++◌, ◌≡◌, ◌≢◌,
  refl, Option, none, arith, if◌then◌else◌, ◌==◌, ltb, Bytes, length, length-append, take, drop,
  take-append, drop-append, get_or, get_or-append_right, append_assoc,
}
use slang_server_verilator.Tokens.Encode.{
  Cancellation, Encoding, encoded, cancelled, out_of_range, Placement, skipped, overrun, placed,
  upper_bound, is_outside, has_terminator, place_on, place, next_line, next_char, push_five, push,
  encode_from, encode_semantic_tokens,
}
use slang_server_verilator.Tokens.Types.{SemanticToken}

-- All starts of lines are at most the offset.
pub data AllAtMost (offset : ℕ) : List ℕ → Type 0 where
  no_starts : AllAtMost offset []
  and_at_most :
      (start : ℕ) (starts : List ℕ)
      → start ≤ offset
      → AllAtMost offset starts
      → AllAtMost offset (start ∷ starts)

-- The first start, if there is one, is behind the offset.
pub data IsBehind (offset : ℕ) : List ℕ → Type 0 where
  no_later : IsBehind offset []
  later : (start : ℕ) (starts : List ℕ) → offset < start → IsBehind offset (start ∷ starts)

upper_bound-behind :
    (offset : ℕ) (starts : List ℕ) → IsBehind offset starts → upper_bound starts offset ≡ 0
unfolding upper_bound
upper_bound-behind offset [] no_later = refl
upper_bound-behind offset (start ∷ starts) (later _ _ h) = ground (arith, h)

upper_bound-append :
    (offset : ℕ) (before after : List ℕ)
    → AllAtMost offset before
    → IsBehind offset after
    → upper_bound (before ++ after) offset ≡ length before
unfolding upper_bound
upper_bound-append offset [] after no_starts k = upper_bound-behind offset after k
upper_bound-append offset (start ∷ before) after (and_at_most _ _ h hs) k =
    ground (arith, h, upper_bound-append offset before after hs k)

AllAtMost-append :
    (offset start : ℕ) (before : List ℕ)
    → AllAtMost offset before
    → start ≤ offset
    → AllAtMost offset (before ++ start ∷ [])
AllAtMost-append offset start [] no_starts h = and_at_most start [] h no_starts
AllAtMost-append offset start (x ∷ before) (and_at_most _ _ k ks) h =
    and_at_most x (before ++ start ∷ []) k (AllAtMost-append offset start before ks h)

upper_bound-line :
    (offset start : ℕ) (before after : List ℕ)
    → AllAtMost offset before
    → start ≤ offset
    → IsBehind offset after
    → upper_bound (before ++ start ∷ after) offset ≡ suc (length before)
upper_bound-line offset start before after h s k =
    rw
      (
        ← append_assoc before (start ∷ []) after,
        upper_bound-append offset (before ++ start ∷ []) after
            (AllAtMost-append offset start before h s) k,
        length-append before (start ∷ []),
      )
      (omega arith)

module _ (pre s bytes rest : Bytes) where
  abbrev line_text : Bytes
  line_text = pre ++ (s ++ (bytes ++ rest))

  in_text :
      0 < length bytes
      → length pre + length s + length bytes < word
      → ((length bytes == 0
            || ltb (length line_text) ((length pre + length s + length bytes) % word))
          ≡ false)
        × (ltb (length line_text) (length pre + length s) ≡ false)
  in_text h w = ground (
    arith,
    h,
    w,
    length-append pre (s ++ (bytes ++ rest)),
    length-append s (bytes ++ rest),
    length-append bytes rest,
  )

  token-cut : take (length bytes) (drop (length pre + length s) line_text) ≡ bytes
  token-cut =
      rw
        (
          ← append_assoc pre s (bytes ++ rest),
          drop-append (pre ++ s) (bytes ++ rest) (length pre + length s) (length-append pre s),
        )
        (take-append bytes rest (length bytes) refl)

  front-cut : take (length pre + length s - length pre) (drop (length pre) line_text) ≡ s
  front-cut =
      rw (drop-append pre (s ++ (bytes ++ rest)) (length pre) refl)
        (take-append s (bytes ++ rest) (length pre + length s - length pre) (omega arith))

start-at :
    (before after : List ℕ) (n : ℕ) → get_or (before ++ n ∷ after) (suc (length before) - 1) 0 ≡ n
start-at before after n =
    get_or-append_right before (n ∷ after) (suc (length before) - 1) 0 0 (omega arith)

last-index : (n : ℕ) → suc n - 1 ≡ n
last-index n = omega arith

not-zero : (n : ℕ) → (suc n == 0) ≡ false
not-zero n = ground arith

-- Of a text `pre ++ (s ++ (bytes ++ rest))` the token `bytes`, which is not empty, has no terminator
-- and ends below 4 GiB, is placed, without a range, on the line whose start is the last that is not
-- behind the token, which is the end of `pre`, at the UTF-16 length of `s` and with its own UTF-16
-- length; the starts in front of that one are at most the token's offset.
pub place-line :
    (u : Utf8) (before after : List ℕ) (pre s bytes rest : Bytes) (token : SemanticToken)
    → length pre + length s ≡ token.offset
    → length bytes ≡ token.token_length
    → 0 < length bytes
    → has_terminator bytes ≡ false
    → length pre + length s + length bytes < word
    → AllAtMost (length pre + length s) before
    → IsBehind (length pre + length s) after
    → place u (before ++ length pre ∷ after) (pre ++ (s ++ (bytes ++ rest))) none token
      ≡ placed (length before) (utf16_length u s) (utf16_length u bytes)
unfolding place place_on is_outside
place-line u before after pre s bytes rest token o n h t w b a =
    rw (← o, ← n)
      (rw
        (
          (in_text pre s bytes rest h w).0,
          (in_text pre s bytes rest h w).1,
          token-cut pre s bytes rest,
          t,
          upper_bound-line (length pre + length s) (length pre) before after b (omega arith) a,
        )
        (rw
          (
            not-zero (length before),
            start-at before after (length pre),
            front-cut pre s bytes rest,
            last-index (length before),
          )
          refl))

push-cancelled :
    (p : Placement) (token : SemanticToken) (l c : ℕ) (e : Encoding) (numbers : List ℕ)
    → ((rest : List ℕ) → e ≢ encoded rest)
    → push p token l c e ≢ encoded numbers
unfolding push push_five
push-cancelled skipped token l c e numbers h = h numbers
push-cancelled overrun token l c e numbers h = λ k. ground (arith, k)
push-cancelled (placed line character size) token l c (encoded rest) numbers h = λ k. h rest refl
push-cancelled (placed line character size) token l c cancelled numbers h = λ k. ground (arith, k)
push-cancelled (placed line character size) token l c out_of_range numbers h =
    λ k. ground (arith, k)

if-cancelled :
    (b : Bool) (e : Encoding) (numbers : List ℕ)
    → e ≢ encoded numbers
    → (if b then cancelled else e) ≢ encoded numbers
if-cancelled true e numbers h = λ k. ground (arith, k)
if-cancelled false e numbers h = h

module _ (u : Utf8) (line_offsets : List ℕ) (text : Bytes) (range : Option Range)
    (ctx : Cancellation) (late : ctx.at_end ≡ true) where
  encode_from-cancelled :
      (counter l c : ℕ) (tokens : List SemanticToken) (numbers : List ℕ)
      → encode_from u line_offsets text range ctx counter l c tokens ≢ encoded numbers
  unfolding encode_from
  encode_from-cancelled counter l c [] numbers = rw late (λ k. ground (arith, k))
  encode_from-cancelled counter l c (token ∷ tokens) numbers =
      if-cancelled ((suc counter % 256 == 0) && ctx.at_token (suc counter))
        (push (place u line_offsets text range token) token l c (
          encode_from u line_offsets text range ctx (suc counter)
            (next_line (place u line_offsets text range token) l)
            (next_char (place u line_offsets text range token) c) tokens))
        numbers
        (push-cancelled (place u line_offsets text range token) token l c _ numbers (λ rest.
          encode_from-cancelled (suc counter) (next_line (place u line_offsets text range token) l)
            (next_char (place u line_offsets text range token) c) tokens rest))

-- When there is a token, the text has a line, and the request is cancelled at the end, no data is
-- returned, whatever was emitted before.
pub encode_semantic_tokens-cancelled :
    (u : Utf8) (lines : Bytes → List ℕ) (text : Bytes) (token : SemanticToken)
    (tokens : List SemanticToken) (range : Option Range) (ctx : Cancellation) (numbers : List ℕ)
    → 0 < length (lines text)
    → ctx.at_end ≡ true
    → encode_semantic_tokens u lines text (token ∷ tokens) range ctx ≢ encoded numbers
unfolding encode_semantic_tokens
encode_semantic_tokens-cancelled u lines text token tokens range ctx numbers h late =
    rw (some_line (length (lines text)) h)
      (encode_from-cancelled u (lines text) text range ctx late 0 0 0 (token ∷ tokens) numbers)
  where
    some_line : (n : ℕ) → 0 < n → (n == 0) ≡ false
    some_line n k = ground (arith, k)
