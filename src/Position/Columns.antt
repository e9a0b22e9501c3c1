-- ===== src/Position/Columns.antt =====
-- src/util/Converters.cpp: `utf16Length` and `utf16ToByteOffset`, with the length of the text as
-- fuel. Counts are of 32 bits.
use slang_server_verilator.Position.Utf8.{Utf8, valid_sequence_length}
use slang_server_verilator.Prelude.{
  ℕ, zero, suc, ◌+◌, ◌-◌, ◌%◌, ◌^◌, min, [], ◌∷◌, Option, none, some, if◌then◌else◌, ◌==◌, ltb,
  Bytes, length, drop,
}

-- The bytes and the code units of the sequence at the front, one of each for a malformed one
unfoldable pub sequence : Utf8 → ℕ → Bytes → ℕ × ℕ
sequence u c s =
    let n = valid_sequence_length u (c ∷ s) in
    if ltb c 128 then (1, 1) else if n == 0 then (1, 1) else (n, if n == 4 then 2 else 1)

abbrev pub word : ℕ
word = 2 ^ 32

unfoldable pub length_from : Utf8 → ℕ → ℕ → Bytes → ℕ
length_from u zero count s = count
length_from u (suc f) count [] = count
length_from u (suc f) count (c ∷ s) =
    let q = sequence u c s in length_from u f ((count + q.1) % word) (drop q.0 (c ∷ s))

-- `utf16Length`
unfoldable pub utf16_length : Utf8 → Bytes → ℕ
utf16_length u s = length_from u (length s) 0 s

unfoldable pub find_column : Utf8 → ℕ → ℕ → ℕ → ℕ → Bytes → ℕ → Option ℕ
find_column u zero size i count s column = if count == column then some size else none
find_column u (suc f) size i count [] column = if count == column then some size else none
find_column u (suc f) size i count (c ∷ s) column =
    let q = sequence u c s in
    let rest =
      find_column u f size (i + min q.0 (size - i)) ((count + q.1) % word) (drop q.0 (c ∷ s))
        column in
    if count == column then some i else rest

-- `utf16ToByteOffset`
unfoldable pub utf16_to_byte_offset : Utf8 → Bytes → ℕ → Option ℕ
utf16_to_byte_offset u line column = find_column u (length line) (length line) 0 0 line column
