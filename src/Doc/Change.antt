-- ===== src/Doc/Change.antt =====
-- document/SlangDoc.cpp: `onChange` and `textMatches`, on the text that slang's source manager holds,
-- its terminating NUL included. slang's `computeLineOffsets` is a parameter.
use slang_server_verilator.Diag.Types.{Position, Range}
use slang_server_verilator.Position.Columns.{word, utf16_to_byte_offset}
use slang_server_verilator.Position.Offsets.{is_terminator}
use slang_server_verilator.Position.Utf8.{Utf8}
use slang_server_verilator.Prelude.{
  ℕ, zero, suc, ◌+◌, ◌-◌, ◌%◌, ◌>>=◌, Bool, false, ◌||◌, List, [], ◌∷◌, ◌++◌, Option, none, some,
  if◌then◌else◌, ◌==◌, ltb, leb, Bytes, length, take, drop, get_elem?, get_or, list_eqb,
}

-- `lsp::TextDocumentContentChangeEvent`, in the order of the variant; the deprecated length of a range
-- is not read.
pub data ContentChange : Type 0 where
  partial : Range → Bytes → ContentChange
  whole_document : Bytes → ContentChange

-- What `SlangDoc` keeps: the text of `m_buffer`, and whether `m_tree`, `m_analysis` and
-- `m_includeCompilation` are set
pub record SlangDoc : Type 0 where
  pub text : Bytes
  pub tree : Bool
  pub analysis : Bool
  pub include_compilation : Bool

-- The bytes of a line of `n` bytes without the terminators at its end
unfoldable pub trimmed : Bytes → ℕ → ℕ → ℕ
unfolding is_terminator
trimmed text start zero = 0
trimmed text start (suc n) =
    let rest = trimmed text start n in
    if is_terminator (get_or text (start + n) 0) then rest else suc n

-- `getOffset`; line offsets ascend.
unfoldable pub get_offset : Utf8 → List ℕ → Bytes → Position → Option ℕ
get_offset u line_offsets text pos = do
  line_start ← get_elem? line_offsets pos.line
  let line_end = get_or line_offsets ((pos.line + 1) % word) (length text)
  column ←
      utf16_to_byte_offset u
        (take (trimmed text line_start (line_end - line_start)) (drop line_start text))
        pos.character
  some (line_start + column)

-- `getOffsets`
unfoldable pub get_offsets : Utf8 → (Bytes → List ℕ) → Bytes → Range → Option (ℕ × ℕ)
get_offsets u compute_line_offsets text range = do
  first ← get_offset u (compute_line_offsets text) text range.start
  second ← get_offset u (compute_line_offsets text) text range.end
  (if ltb second first || leb (length text) second then none else some (first, second))

-- `buffer.back() != '\0'`, false of an empty buffer
unfoldable pub ends_with_null : Bytes → Bool
ends_with_null [] = false
ends_with_null (c ∷ []) = c == 0
ends_with_null (c ∷ d ∷ s) = ends_with_null (d ∷ s)

-- `ensureNullTerminated`
unfoldable pub ensure_null_terminated : Bytes → Bytes
ensure_null_terminated buffer = if ends_with_null buffer then buffer else buffer ++ 0 ∷ []

-- The change at index 0, into an empty buffer
unfoldable pub first_change : Utf8 → (Bytes → List ℕ) → Bytes → ContentChange → Option Bytes
first_change u compute_line_offsets text (partial range inserted) = do
  offsets ← get_offsets u compute_line_offsets text range
  some (ensure_null_terminated (take offsets.0 text ++ inserted ++ drop offsets.1 text))
first_change u compute_line_offsets text (whole_document inserted) =
    some (ensure_null_terminated inserted)

-- The erase and the insertion of a later change
unfoldable pub replace_between : Bytes → ℕ × ℕ → Bytes → Bytes
replace_between buffer offsets inserted =
    let erased =
      if ltb offsets.0 offsets.1 then take offsets.0 buffer ++ drop offsets.1 buffer else buffer in
    take offsets.0 erased ++ inserted ++ drop offsets.0 erased

-- A later change, of the buffer
unfoldable pub next_change : Utf8 → (Bytes → List ℕ) → Bytes → ContentChange → Option Bytes
next_change u compute_line_offsets buffer (partial range inserted) = do
  offsets ← get_offsets u compute_line_offsets buffer range
  some (replace_between buffer offsets inserted)
next_change u compute_line_offsets buffer (whole_document inserted) =
    some (ensure_null_terminated inserted)

unfoldable pub later_changes : Utf8 → (Bytes → List ℕ) → Bytes → List ContentChange → Option Bytes
later_changes u compute_line_offsets buffer [] = some buffer
later_changes u compute_line_offsets buffer (change ∷ changes) = do
  changed ← next_change u compute_line_offsets buffer change
  later_changes u compute_line_offsets changed changes

-- What an exception leaves behind is the document as it was.
unfoldable pub replace_buffer : SlangDoc → Option Bytes → SlangDoc
replace_buffer doc none = doc
replace_buffer doc (some buffer) = record {
  text = buffer;
  tree = false;
  analysis = false;
  include_compilation = false;
}

-- `onChange`; without changes it logs and returns.
unfoldable pub on_change : Utf8 → (Bytes → List ℕ) → SlangDoc → List ContentChange → SlangDoc
on_change u compute_line_offsets doc [] = doc
on_change u compute_line_offsets doc (change ∷ changes) = replace_buffer doc (do
  buffer ← first_change u compute_line_offsets doc.text change
  later_changes u compute_line_offsets buffer changes)

-- `textMatches`, of a text that a NUL follows
unfoldable pub text_matches : SlangDoc → Bytes → Bool
text_matches doc text =
    if length doc.text == length text + 1 then list_eqb doc.text (text ++ 0 ∷ []) else false
