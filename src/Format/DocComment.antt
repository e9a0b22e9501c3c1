-- ===== src/Format/DocComment.antt =====
-- src/util/Formatting.cpp: where a doc comment starts, and the text of one.
use slang_server_verilator.Format.Lines.{newline, ltrim, onto_lines}
use slang_server_verilator.Markup.Escape.{escape_markdown_line}
use slang_server_verilator.Prelude.{
  ℕ, ◌+◌, Bool, true, false, ◌&&◌, List, [], ◌∷◌, ◌++◌, if◌then◌else◌, ◌==◌, ltb, Bytes, Option,
  none, some, length, drop,
}
use slang_server_verilator.Text.{codes, starts_with}

-- `parsing::TriviaKind`, as far as the code tells the kinds apart
pub data TriviaKind : Type 0 where
  end_of_line block_comment line_comment other_trivia : TriviaKind

-- The loop over the trivia, the last one first, with `lastComment`, `leadingCommentStart`,
-- `lastIsNewline` and `newlinesBeforeComment`. As many trivia stand before one as its index says.
unfoldable pub find_boundary : List TriviaKind → Option ℕ → Option ℕ → Bool → ℕ → Option ℕ
find_boundary [] last start ended n = start
find_boundary (end_of_line ∷ r) none start ended n =
    let rest = find_boundary r none none true (n + 1) in if ltb 1 (n + 1) then start else rest
find_boundary (end_of_line ∷ r) (some c) start ended n =
    let rest = find_boundary r (some c) (some c) true n in if ended then start else rest
find_boundary (block_comment ∷ r) last start ended n = some (length r)
find_boundary (line_comment ∷ r) last start ended n =
    find_boundary r (some (length r)) start false n
find_boundary (other_trivia ∷ r) last start ended n = find_boundary r last start false n

unfoldable pub reverse : List TriviaKind → List TriviaKind
reverse [] = []
reverse (x ∷ t) = reverse t ++ x ∷ []

-- `findLeadingDocCommentStart`, of the first token's trivia
unfoldable pub find_leading_doc_comment_start : List TriviaKind → Option ℕ
find_leading_doc_comment_start t = find_boundary (reverse t) none none false 0

-- `appendCommentLine`; `line_kind` for a line comment, `plaintext` for the format of that name
unfoldable pub append_comment_line : Bool → Bool → Bytes → Bytes
append_comment_line line_kind plaintext line =
    let trimmed = ltrim line in
    let bare =
      if line_kind
      then if starts_with trimmed (codes "///")
        then drop 3 trimmed
        else if starts_with trimmed (codes "//")
        then drop 2 trimmed
        else trimmed
      else if starts_with trimmed (codes "*")
      then drop 1 trimmed
      else trimmed in
    let text = ltrim bare in
    let shown = if plaintext then escape_markdown_line text else text in
    shown ++ (elim text [ [] ↦ codes "\n" | c ∷ s ↦ codes "  \n" ])

-- `ends_with`, and the prefix without that end
unfoldable pub without_end : Bytes → Bytes → Bytes
without_end end [] = []
without_end end (c ∷ s) =
    let rest = without_end end s in
    if starts_with (c ∷ s) end && ltb (length s) (length end) then [] else c ∷ rest

-- What stands between the marks of a block comment
unfoldable pub block_text : Bytes → Bytes
block_text raw =
    let front =
      if starts_with raw (codes "/*")
      then if starts_with (drop 2 raw) (codes "*") then drop 3 raw else drop 2 raw
      else raw in
    let inner = without_end (codes "*/") front in
    if ltb (length inner) (length front) then without_end (codes "*") inner else front

-- The pieces between newlines
unfoldable pub pieces : Bytes → List Bytes
pieces [] = [] ∷ []
pieces (c ∷ s) = let rest = pieces s in if c == newline then [] ∷ rest else onto_lines c rest

unfoldable pub append_lines : Bool → List Bytes → Bytes
append_lines plaintext [] = []
append_lines plaintext (l ∷ ls) = append_comment_line false plaintext l ++ append_lines plaintext ls

-- `appendComment`
unfoldable pub append_comment : TriviaKind → Bool → Bytes → Bytes
append_comment line_comment plaintext raw = append_comment_line true plaintext raw
append_comment block_comment plaintext raw = append_lines plaintext (pieces (block_text raw))
append_comment _ plaintext raw = []
