-- ===== src/Tokens/Reads.antt =====
-- document/SemanticTokens.cpp: what is read of the numbers that one token is encoded as.
use slang_server_verilator.Diag.Types.{Range}
use slang_server_verilator.Position.Columns.{word, utf16_length, length_from, sequence}
use slang_server_verilator.Position.Sequence.{mod-word}
use slang_server_verilator.Position.Utf8.{Utf8}
use slang_server_verilator.Prelude.{
  ℕ, zero, suc, ◌+◌, ◌-◌, ◌%◌, ◌≤◌, ◌<◌, Bool, true, false, ◌&&◌, List, [], ◌∷◌, ◌++◌, ◌≡◌, refl,
  Option, none, some, arith, if◌then◌else◌, ◌==◌, ltb, ◌>>=◌, Bytes, length, take, drop, get_or,
}
use slang_server_verilator.Tokens.Encode.{
  Encoding, encoded, Placement, skipped, overrun, placed, upper_bound, place_on, place, next_line,
  next_char, push_five, push,
}
use slang_server_verilator.Tokens.Types.{SemanticToken, type_index}

-- A token as the client sees it
pub record Shown : Type 0 where
  pub line : ℕ
  pub character : ℕ
  pub size : ℕ
  pub index : ℕ
  pub modifiers : ℕ

-- The protocol's reading: groups of five, lines and characters relative to the token before
unfoldable pub decode : ℕ → ℕ → List ℕ → Option (List Shown)
decode prev_line prev_char [] = some []
decode prev_line prev_char (a ∷ b ∷ c ∷ d ∷ e ∷ numbers) =
    let line = (prev_line + a) % word in
    let character = if a == 0 then (prev_char + b) % word else b in
    let rest = decode line character numbers in
    rest >>= (λ tokens.
      some (
        record { line = line; character = character; size = c; index = d; modifiers = e } ∷ tokens))
decode prev_line prev_char _ = none

-- The tokens that are emitted, in order, with their places
unfoldable pub shown : Placement → SemanticToken → List Shown
shown (placed line character size) token =
    record {
      line = line;
      character = character;
      size = size;
      index = type_index token.token_type;
      modifiers = token.modifiers;
    }
    ∷ []
shown _ token = []

unfoldable pub emitted : Utf8 → List ℕ → Bytes → Option Range → List SemanticToken → List Shown
emitted u line_offsets text range [] = []
emitted u line_offsets text range (token ∷ tokens) =
    shown (place u line_offsets text range token) token ++ emitted u line_offsets text range tokens

-- Of a placement: the line and the character are numbers of 32 bits; it is inside the text.
unfoldable pub is_small : Placement → Bool
is_small (placed line character size) = ltb line word && ltb character word
is_small _ = true

pub length_from-word :
    (u : Utf8) (f count : ℕ) (s : Bytes) → count < word → length_from u f count s < word
unfolding length_from
length_from-word u zero count s h = h
length_from-word u (suc f) count [] h = h
length_from-word u (suc f) count (c ∷ s) h =
    length_from-word u f ((count + (sequence u c s).1) % word) (drop (sequence u c s).0 (c ∷ s))
      (omega arith)

pub utf16_length-word : (u : Utf8) (s : Bytes) → utf16_length u s < word
unfolding utf16_length
utf16_length-word u s = length_from-word u (length s) 0 s (omega arith)

pub upper_bound-length : (starts : List ℕ) (offset : ℕ) → upper_bound starts offset ≤ length starts
unfolding upper_bound
upper_bound-length [] offset = omega arith
upper_bound-length (start ∷ starts) offset = ground (arith, upper_bound-length starts offset)

pub delta :
    (prev new : ℕ) → prev < word → new < word → (prev + (new + word - prev) % word) % word ≡ new
delta prev new h k = omega arith

pub delta-zero :
    (prev new : ℕ) → prev < word → new < word → ((new + word - prev) % word == 0) ≡ (new == prev)
delta-zero prev new h k = ground (arith, h, k)

unfoldable pub fits : Placement → Bool
fits overrun = false
fits _ = true

module _ (u : Utf8) (line_offsets : List ℕ) (text : Bytes) (range : Option Range) where
  place_on-small :
      (token : SemanticToken) (bound : ℕ)
      → bound < word
      → is_small (place_on u line_offsets text range token bound) ≡ true
  unfolding place_on is_small
  place_on-small token bound h = ground (
    arith,
    h,
    utf16_length-word u (
        take (token.offset - get_or line_offsets (bound - 1) 0)
          (drop (get_or line_offsets (bound - 1) 0) text)),
  )

  pub place-small :
      (token : SemanticToken)
      → length line_offsets < word
      → is_small (place u line_offsets text range token) ≡ true
  unfolding place is_small
  place-small token few = ground (
    arith,
    place_on-small token (upper_bound line_offsets token.offset)
        (omega (arith, few, upper_bound-length line_offsets token.offset)),
  )

  place_on-fits :
      (token : SemanticToken) (bound : ℕ)
      → fits (place_on u line_offsets text range token bound) ≡ true
  unfolding place_on fits
  place_on-fits token bound = ground arith

  pub place-fits :
      (token : SemanticToken)
      → token.offset ≤ length text
      → 0 < upper_bound line_offsets token.offset
      → fits (place u line_offsets text range token) ≡ true
  unfolding place fits
  place-fits token h k =
      ground (arith, h, k, place_on-fits token (upper_bound line_offsets token.offset))

-- Numbers that the client reads back, after the place `prev_line`, `prev_char`
unfoldable pub Reads : Encoding → ℕ → ℕ → List Shown → Type 0
Reads e prev_line prev_char tokens =
    (numbers : List ℕ) × (e ≡ encoded numbers) × (decode prev_line prev_char numbers ≡ some tokens)

pub decode-placed :
    (line character size index modifiers l c : ℕ) (numbers : List ℕ) (tokens : List Shown)
    → line < word
    → character < word
    → l < word
    → c < word
    → decode line character numbers ≡ some tokens
    → decode l c (
        (line + word - l) % word
        ∷ (if line == l then (character + word - c) % word else character)
        ∷ size
        ∷ index
        ∷ modifiers
        ∷ numbers)
      ≡ some (
          record {
            line = line;
            character = character;
            size = size;
            index = index;
            modifiers = modifiers;
          }
          ∷ tokens)
unfolding decode
decode-placed line character size index modifiers l c numbers tokens sl sc hl hc k =
    rw (delta l line hl sl, delta-zero l line hl sl) (rw (back (line == l)) (rw k refl))
  where
    back :
        (b : Bool)
        → (if b
            then (c + (if b then (character + word - c) % word else character)) % word
            else (if b then (character + word - c) % word else character))
          ≡ character
    back true = delta c character hc sc
    back false = refl

pub push-Reads :
    (p : Placement) (token : SemanticToken) (prev_line prev_char : ℕ) (e : Encoding)
    (tokens : List Shown)
    → is_small p ≡ true
    → fits p ≡ true
    → prev_line < word
    → prev_char < word
    → Reads e (next_line p prev_line) (next_char p prev_char) tokens
    → Reads (push p token prev_line prev_char e) prev_line prev_char (shown p token ++ tokens)
unfolding next_line next_char push push_five shown Reads is_small fits
push-Reads skipped token l c e tokens small fit hl hc r = r
push-Reads overrun token l c e tokens small fit hl hc r = absurd (ground (arith, fit))
push-Reads (placed line character size) token l c e tokens small fit hl hc (numbers, h, k) = (
  (line + word - l) % word
      ∷ (if line == l then (character + word - c) % word else character)
      ∷ size
      ∷ type_index token.token_type
      ∷ token.modifiers
      ∷ numbers,
  rw (h, mod-word line bounds.0) refl,
  decode-placed line character size (type_index token.token_type) token.modifiers l c numbers tokens
      bounds.0 bounds.1 hl hc (rw (← mod-word line bounds.0) k),
)
  where
    bounds : (line < word) × (character < word)
    bounds = ground (arith, small)
