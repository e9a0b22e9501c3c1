-- ===== src/Snippet/Types.antt =====
-- include/lsp/SnippetString.h: the builder. Numbers of tab stops are natural numbers, as in the
-- grammar of snippets.
use slang_server_verilator.Prelude.{
  ℕ, zero, suc, ◌+◌, ◌/◌, ◌%◌, max, ◌||◌, List, [], ◌∷◌, ◌++◌, Option, none, some, if◌then◌else◌,
  ◌==◌, ltb, Bytes,
}

pub record Snippet : Type 0 where
  pub value : Bytes
  pub tabstop : ℕ

-- `SnippetString(value)`
abbrev pub new_snippet : Bytes → Snippet
new_snippet v = record { value = v; tabstop = 1 }

-- The digits of a number, with fuel; a number has at most as many digits as its successor.
unfoldable pub digits : ℕ → ℕ → Bytes
digits zero n = []
digits (suc k) n =
    let front = digits k (n / 10) in
    if ltb n 10 then (b'0' + n) ∷ [] else front ++ (b'0' + n % 10) ∷ []

-- `std::to_string`
unfoldable pub to_string : ℕ → Bytes
to_string n = digits (suc n) n

-- `_escape`
unfoldable pub escape : Bytes → Bytes
escape [] = []
escape (c ∷ s) =
    let rest = escape s in
    if c == b'$' || c == b'}' || c == b'\\' then b'\\' ∷ c ∷ rest else c ∷ rest

-- `_nextTabstop`: the number, and the next one
unfoldable pub next_tabstop : Option ℕ → ℕ → ℕ × ℕ
next_tabstop (some n) next = (n, max next (n + 1))
next_tabstop none next = (next, next + 1)

-- `_value += text`
abbrev add : Bytes → ℕ → Snippet → Snippet
add text next s = record { value = s.value ++ text; tabstop = next }

-- `appendText`
unfoldable pub append_text : Bytes → Snippet → Snippet
append_text text s = add (escape text) s.tabstop s

-- `appendTabstop`
unfoldable pub append_tabstop : Option ℕ → Snippet → Snippet
append_tabstop number s = let n = next_tabstop number s.tabstop in add (b'$' ∷ to_string n.0) n.1 s

-- `appendPlaceholder`
unfoldable pub append_placeholder : Bytes → Option ℕ → Snippet → Snippet
append_placeholder text number s =
    let n = next_tabstop number s.tabstop in
    add (b'$' ∷ b'{' ∷ (to_string n.0 ++ b':' ∷ (escape text ++ b'}' ∷ []))) n.1 s

-- The loop over a choice's text
unfoldable pub escape_choice : Bytes → Bytes
escape_choice [] = []
escape_choice (c ∷ s) =
    let rest = escape_choice s in
    if c == b',' || c == b'|' || c == b'\\' then b'\\' ∷ c ∷ rest else c ∷ rest

-- The loop over the choices
unfoldable pub choices : List Bytes → Bytes
choices [] = []
choices (v ∷ []) = escape_choice v
choices (v ∷ w ∷ vs) = escape_choice v ++ b',' ∷ choices (w ∷ vs)

-- `appendChoice`
unfoldable pub append_choice : List Bytes → Option ℕ → Snippet → Snippet
append_choice [] number s = s
append_choice (v ∷ vs) number s =
    let n = next_tabstop number s.tabstop in
    add (b'$' ∷ b'{' ∷ (to_string n.0 ++ b'|' ∷ (choices (v ∷ vs) ++ b'|' ∷ b'}' ∷ []))) n.1 s

abbrev default_text : Bytes → Bytes
default_text [] = []
default_text (c ∷ s) = b':' ∷ c ∷ s

-- `appendVariable`
unfoldable pub append_variable : Bytes → Bytes → Snippet → Snippet
append_variable name default s =
    add (b'$' ∷ b'{' ∷ (name ++ (default_text (escape default) ++ b'}' ∷ []))) s.tabstop s

-- `appendVariable` with a callback
unfoldable pub append_variable_with : Bytes → (Snippet → Snippet) → Snippet → Snippet
append_variable_with name callback s =
    let nested = callback (new_snippet []) in
    add (b'$' ∷ b'{' ∷ (name ++ (default_text nested.value ++ b'}' ∷ []))) s.tabstop s
