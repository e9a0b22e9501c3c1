-- ===== src/Position/Examples.antt =====
-- Runs of the conversions on a line with a character outside the basic plane.
use slang_server_verilator.Position.Boundary.{IsBoundary, at_start, behind}
use slang_server_verilator.Position.Columns.{
  sequence, length_from, find_column, utf16_length, utf16_to_byte_offset,
}
use slang_server_verilator.Position.Decoder.{decoder, decoder-IsDecoder}
use slang_server_verilator.Position.Offsets.{
  Lines, is_terminator, to_position_at, line_content, to_source_location,
}
use slang_server_verilator.Position.RoundTrip.{IsLine, to_source_location-to_position_at}
use slang_server_verilator.Position.Utf8.{
  valid_sequence_length, four_bytes, is_valid_utf8, escape_invalid_utf8, hex_byte,
}
use slang_server_verilator.Prelude.{
  false, ◌+◌, ◌-◌, [], ◌∷◌, ◌≡◌, some, none, refl, Bytes, arith, if◌then◌else◌, ◌==◌, ltb,
}
use slang_server_verilator.Text.{codes}

-- `a`, U+1F600, and a byte that is malformed
abbrev face : Bytes
face = b'a' ∷ 240 ∷ 159 ∷ 152 ∷ 128 ∷ 255 ∷ []

face-length : utf16_length decoder face ≡ 4
unfolding utf16_length length_from sequence valid_sequence_length four_bytes
face-length = refl

-- A column inside the surrogate pair addresses nothing.
face-inside : utf16_to_byte_offset decoder face 2 ≡ none
unfolding utf16_to_byte_offset find_column sequence valid_sequence_length four_bytes
face-inside = refl

face-is_valid : is_valid_utf8 decoder face ≡ false
unfolding is_valid_utf8 valid_sequence_length four_bytes
face-is_valid = refl

face-escape : escape_invalid_utf8 decoder (b'a' ∷ 255 ∷ []) ≡ codes "a\\xff"
unfolding escape_invalid_utf8 valid_sequence_length four_bytes hex_byte
face-escape = refl

face-IsBoundary : IsBoundary decoder (255 ∷ b'z' ∷ []) (b'a' ∷ 240 ∷ 159 ∷ 152 ∷ 128 ∷ []) 3
unfolding sequence valid_sequence_length four_bytes
face-IsBoundary = behind b'a' [] _ _ refl (behind 240 (159 ∷ 152 ∷ 128 ∷ []) _ _ refl at_start)

-- The source manager of `ab` and of the line behind it
abbrev two_lines : Lines
two_lines = record {
  column_number = λ n. if ltb n 3 then n + 1 else n - 2;
  raw_line_number = λ n. if ltb n 3 then 1 else 2;
  source_location = λ n. if n == 1 then some 0 else if n == 2 then some 3 else none;
}

abbrev two_lines_text : Bytes
two_lines_text = b'a' ∷ b'b' ∷ b'\n' ∷ b'a' ∷ 240 ∷ 159 ∷ 152 ∷ 128 ∷ 255 ∷ b'z' ∷ b'\n' ∷ 0 ∷ []

two_lines-IsLine : IsLine two_lines 1 3 8
two_lines-IsLine = record { in_range = omega arith; starts = refl; lies = refl; column = refl }

content_example :
    line_content (b'a' ∷ 240 ∷ 159 ∷ 152 ∷ 128 ∷ 255 ∷ b'z' ∷ b'\n' ∷ 0 ∷ [])
    ≡ b'a' ∷ 240 ∷ 159 ∷ 152 ∷ 128 ∷ 255 ∷ b'z' ∷ []
unfolding line_content is_terminator
content_example = refl

to_source_location-to_position_at_example :
    to_source_location decoder two_lines two_lines_text
      (to_position_at decoder two_lines two_lines_text 8)
    ≡ some 8
to_source_location-to_position_at_example =
    to_source_location-to_position_at decoder decoder-IsDecoder two_lines (b'a' ∷ b'b' ∷ b'\n' ∷ [])
      (b'a' ∷ 240 ∷ 159 ∷ 152 ∷ 128 ∷ []) (255 ∷ b'z' ∷ []) (b'\n' ∷ 0 ∷ []) 1 3 two_lines-IsLine
      content_example face-IsBoundary (omega arith) (omega arith)
