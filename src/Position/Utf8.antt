-- ===== src/Position/Utf8.antt =====
-- src/util/Formatting.cpp: `validUtf8SequenceLength`, `isValidUtf8` and `escapeInvalidUtf8`.
use slang_server_verilator.Prelude.{
  ℕ, zero, suc, ◌/◌, ◌%◌, ◌≤◌, Bool, true, false, ◌||◌, [], ◌∷◌, ◌++◌, ◌≡◌, if◌then◌else◌, ◌==◌,
  ltb, Bytes, length, take, drop, replicate, get_or,
}
use slang_server_verilator.Text.{codes}

-- slang's `utf8Len`, of the first byte, and `utf8Decode`, of four bytes: whether it reports an error,
-- and the length that it decoded.
pub record Utf8 : Type 0 where
  pub len : ℕ → ℕ
  pub fails : Bytes → Bool
  pub decoded : Bytes → ℕ

-- `char bytes[4]{}` with the first bytes of the text
unfoldable pub four_bytes : Bytes → Bytes
four_bytes s = take 4 (s ++ replicate 4 0)

-- `validUtf8SequenceLength`
unfoldable pub valid_sequence_length : Utf8 → Bytes → ℕ
valid_sequence_length u [] = 0
valid_sequence_length u (c ∷ s) =
    if u.len c == 0 || ltb (length (c ∷ s)) (u.len c)
    then 0
    else if u.fails (four_bytes (c ∷ s))
    then 0
    else u.decoded (four_bytes (c ∷ s))

-- What the code relies on: a sequence that decodes has the length that its first byte says, at
-- most four, and its decoding does not depend on the bytes behind it.
pub record IsDecoder (u : Utf8) : Type 0 where
  pub at_most_four : (c : ℕ) → u.len c ≤ 4
  pub decoded_len :
      (c : ℕ) (s : Bytes)
      → u.fails (four_bytes (c ∷ s)) ≡ false
      → u.decoded (four_bytes (c ∷ s)) ≡ u.len c
  pub fails_local :
      (c : ℕ) (s t : Bytes)
      → u.len c ≤ suc (length s)
      → u.fails (four_bytes (c ∷ (s ++ t))) ≡ u.fails (four_bytes (c ∷ s))

-- `isValidUtf8`, with the length of the text as fuel
valid_from : Utf8 → ℕ → Bytes → Bool
valid_from u f [] = true
valid_from u zero (c ∷ s) = false
valid_from u (suc f) (c ∷ s) =
    let n = valid_sequence_length u (c ∷ s) in
    let rest = valid_from u f (drop n (c ∷ s)) in if n == 0 then false else rest

unfoldable pub is_valid_utf8 : Utf8 → Bytes → Bool
unfolding valid_from
is_valid_utf8 u s = valid_from u (length s) s

-- `{:02x}` of a byte
unfoldable pub hex_byte : ℕ → Bytes
hex_byte c =
    get_or (codes "0123456789abcdef") (c / 16 % 16) 0
    ∷ get_or (codes "0123456789abcdef") (c % 16) 0
    ∷ []

escape_invalid_from : Utf8 → ℕ → Bytes → Bytes
escape_invalid_from u f [] = []
escape_invalid_from u zero (c ∷ s) = []
escape_invalid_from u (suc f) (c ∷ s) =
    let n = valid_sequence_length u (c ∷ s) in
    let escaped = escape_invalid_from u f s in
    let rest = escape_invalid_from u f (drop n (c ∷ s)) in
    if n == 0 then codes "\\x" ++ (hex_byte c ++ escaped) else take n (c ∷ s) ++ rest

-- `escapeInvalidUtf8`
unfoldable pub escape_invalid_utf8 : Utf8 → Bytes → Bytes
unfolding escape_invalid_from
escape_invalid_utf8 u s = escape_invalid_from u (length s) s
