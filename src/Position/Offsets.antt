-- ===== src/Position/Offsets.antt =====
-- util/Converters.cpp: offsets of the text and positions of the client, on slang's source manager.
use slang_server_verilator.Diag.Types.{Position}
use slang_server_verilator.Position.Columns.{word, utf16_length, utf16_to_byte_offset}
use slang_server_verilator.Position.Utf8.{Utf8}
use slang_server_verilator.Prelude.{
  ℕ, ◌+◌, ◌-◌, ◌%◌, ◌>>=◌, min, Bool, ◌||◌, [], ◌∷◌, Option, none, some, if◌then◌else◌, ◌==◌, ltb,
  leb, Bytes, length, take, drop,
}

-- slang's `SourceManager`, of one buffer: the column and the line of an offset, from 1, and the
-- offset at which a line starts.
pub record Lines : Type 0 where
  pub column_number : ℕ → ℕ
  pub raw_line_number : ℕ → ℕ
  pub source_location : ℕ → Option ℕ

unfoldable pub is_terminator : ℕ → Bool
is_terminator c = c == b'\n' || c == b'\r'

-- `toPositionAt`
unfoldable pub to_position_at : Utf8 → Lines → Bytes → ℕ → Position
to_position_at u sm text offset =
    let location = min offset (length text - 1) in
    let byte_column = sm.column_number location in
    let character = if ltb 0 byte_column then byte_column - 1 else 0 in
    let measured = utf16_length u (take character (drop (location - character) text)) in
    if length text == 0 then record { line = 0; character = 0 } else record {
      line = (sm.raw_line_number location + word - 1) % word;
      character = if leb character location then measured else character % word;
    }

-- The text up to the first terminator
unfoldable pub line_content : Bytes → Bytes
unfolding is_terminator
line_content [] = []
line_content (c ∷ s) = if is_terminator c then [] else c ∷ line_content s

-- `toSourceLocation`
unfoldable pub to_source_location : Utf8 → Lines → Bytes → Position → Option ℕ
to_source_location u sm text position = do
  line_start ← sm.source_location ((position.line + 1) % word)
  line ← (if ltb (length text) line_start then none else some (line_content (drop line_start text)))
  byte_offset ← utf16_to_byte_offset u line position.character
  some (line_start + byte_offset)
