-- ===== src/Markup/Escape.antt =====
-- src/util/Markdown.cpp: `looksLikeTag`, `needsLeadingEscapePlaintext` and `escapeMarkdownLine`.
use slang_server_verilator.Prelude.{
  ℕ, ◌+◌, Bool, true, false, not, ◌&&◌, ◌||◌, [], ◌∷◌, ◌++◌, if◌then◌else◌, ◌==◌, ltb, leb, Bytes,
  Option, none, some, length,
}
use slang_server_verilator.Text.{
  codes, is_space, is_digit, is_alpha, is_alnum, is_xdigit, starts_with, all_of,
}

abbrev is_empty : Bytes → Bool
is_empty [] = true
is_empty (c ∷ s) = false

-- `s.front()` has the property.
abbrev at_front : (ℕ → Bool) → Bytes → Bool
at_front ok [] = false
at_front ok (c ∷ s) = ok c

-- `s.back()` has the property.
at_back : (ℕ → Bool) → Bytes → Bool
at_back ok [] = false
at_back ok (c ∷ []) = ok c
at_back ok (c ∷ d ∷ s) = at_back ok (d ∷ s)

-- `rtrim`
rtrim : Bytes → Bytes
rtrim [] = []
rtrim (c ∷ s) = let rest = rtrim s in if is_space c && is_empty rest then [] else c ∷ rest

-- `while (!s.empty() && ok(s.front())) s.remove_prefix(1)`
skip : (ℕ → Bool) → Bytes → Bytes
skip ok [] = []
skip ok (c ∷ s) = let rest = skip ok s in if ok c then rest else c ∷ s

in_tag_name : ℕ → Bool
in_tag_name c = is_alnum c || c == b'-' || c == b'_' || c == b':'

-- The loop over the attributes
tag_rest : Bytes → Bool
tag_rest [] = true
tag_rest (c ∷ s) =
    let rest = tag_rest s in
    if is_alnum c || is_space c
    then rest
    else c == b'>' || starts_with (c ∷ s) (codes "/>") || c == b'='

-- `looksLikeTag`
unfoldable pub looks_like_tag : Bytes → Bool
unfolding skip in_tag_name tag_rest
looks_like_tag [] = false
looks_like_tag (c ∷ s) =
    if c == b'!' || c == b'?' || c == b'/'
    then true
    else is_alpha c && tag_rest (skip is_space (skip in_tag_name (c ∷ s)))

-- The text before the first semicolon; `none` if there is none
before_semicolon : Bytes → Option Bytes
before_semicolon [] = none
before_semicolon (c ∷ s) = if c == b';' then some [] else extend c (before_semicolon s)
  where
    extend : ℕ → Option Bytes → Option Bytes
    extend c none = none
    extend c (some t) = some (c ∷ t)

numeric : Bytes → Bool
numeric [] = true
numeric (c ∷ s) = if c == b'x' || c == b'X' then all_of is_xdigit s else all_of is_digit (c ∷ s)

entity : Option Bytes → Bool
unfolding numeric
entity none = false
entity (some []) = true
entity (some (c ∷ s)) = if c == b'#' then numeric s else all_of is_alpha (c ∷ s)

-- `rulerLength` of a character at the start of a line; `startsLine` is true in every call.
ruler_length : ℕ → Bytes → Bytes → ℕ
unfolding rtrim
ruler_length c before after =
    if is_empty before && all_of (λ d. d == c) (rtrim after) then 1 + length (rtrim after) else 0

is_bullet : Bytes → Bytes → Bool
is_bullet before after = is_empty before && (is_empty after || starts_with after (b' ' ∷ []))

space_surrounds : Bytes → Bytes → Bool
unfolding at_back
space_surrounds before after =
    (is_empty after || at_front is_space after) && (is_empty before || at_back is_space before)

word_surrounds : Bytes → Bytes → Bool
unfolding at_back
word_surrounds before after = at_front is_alnum after && at_back is_alnum before

heading : Bytes → Bool
heading rest = is_empty rest || starts_with rest (b' ' ∷ [])

-- `needsLeadingEscapePlaintext`, with `startsLine`
unfoldable pub needs_escape : ℕ → Bytes → Bytes → Bool
unfolding skip before_semicolon entity ruler_length is_bullet space_surrounds word_surrounds heading
needs_escape c before after =
    if c == b'\\' || c == b'`'
    then true
    else if c == b'~'
    then is_empty before && starts_with after (codes "~~")
    else if c == b'#'
    then is_empty before && heading (skip (λ d. d == b'#') after)
    else if c == b']'
    then starts_with after (b':' ∷ []) || starts_with after (b'(' ∷ [])
    else if c == b'='
    then ltb 0 (ruler_length c before after)
    else if c == b'_'
    then leb 3 (ruler_length c before after)
      || not (space_surrounds before after || word_surrounds before after)
    else if c == b'-'
    then ltb 0 (ruler_length c before after) || is_bullet before after
    else if c == b'+'
    then is_bullet before after
    else if c == b'*'
    then is_bullet before after
      || leb 3 (ruler_length c before after)
      || not (space_surrounds before after)
    else if c == b'<'
    then looks_like_tag after
    else if c == b'>'
    then is_empty before
    else if c == b'&'
    then entity (before_semicolon after)
    else (c == b'.' || c == b')')
      && not (is_empty before)
      && all_of is_digit before
      && starts_with after (b' ' ∷ [])

-- The loop, with the part of the line that was read
unfoldable pub escape_from : Bytes → Bytes → Bytes
escape_from before [] = []
escape_from before (c ∷ after) =
    let rest = escape_from (before ++ c ∷ []) after in
    if needs_escape c before after then b'\\' ∷ c ∷ rest else c ∷ rest

-- `escapeMarkdownLine`
unfoldable pub escape_markdown_line : Bytes → Bytes
escape_markdown_line line = escape_from [] line
