-- ===== src/Snippet/Read.antt =====
-- include/lsp/SnippetString.h: a reader of snippets finds the stops that were appended.
use slang_server_verilator.Prelude.{
  ℕ, Bool, true, false, ◌&&◌, ◌||◌, List, [], ◌∷◌, ◌++◌, ◌≡◌, refl, subst, arith, if◌then◌else◌,
  ◌==◌, Bytes, Bool-cases, inl, inr, append_assoc, append-nil, Option, none, some, drop, length,
}
use slang_server_verilator.Snippet.Decimal.{read_number, read_number-to_string}
use slang_server_verilator.Snippet.Types.{
  Snippet, to_string, escape, escape_choice, choices, next_tabstop, append_placeholder,
  append_choice,
}
use slang_server_verilator.Text.{is_digit}

special : ℕ → Bool
special c = c == b'$' || c == b'}' || c == b'\\'

push : ℕ → Option (Bytes × Bytes) → Option (Bytes × Bytes)
push c none = none
push c (some r) = some (c ∷ r.0, r.1)

-- Plain text up to a brace, and what stands behind it; a backslash takes the meaning of the three
-- special characters, and a dollar sign with its meaning is not plain text.
unfoldable pub read_text : Bytes → Option (Bytes × Bytes)
unfolding special push
read_text [] = none
read_text (c ∷ []) = if c == b'}' then some ([], []) else none
read_text (c ∷ d ∷ s) =
    let skipped = read_text s in
    let rest = read_text (d ∷ s) in
    if c == b'}'
    then some ([], d ∷ s)
    else if c == b'$'
    then none
    else if c == b'\\' && special d
    then push d skipped
    else push c rest

read_text-escape : (v r : Bytes) → read_text (escape v ++ b'}' ∷ r) ≡ some (v, r)
unfolding read_text escape special push
read_text-escape [] [] = refl
read_text-escape [] (c ∷ r) = refl
read_text-escape (c ∷ v) r = ground (arith, read_text-escape v r, plain c (escape v ++ b'}' ∷ r))
  where
    plain : (c : ℕ) (s : Bytes) → special c ≡ false → read_text (c ∷ s) ≡ push c (read_text s)
    plain c [] h = ground arith
    plain c (d ∷ s) h = ground arith

onto : Bytes → Option (List Bytes × Bytes) → Option (List Bytes × Bytes)
onto v (some (w ∷ ws, r)) = some ((v ++ w) ∷ ws, r)
onto v _ = none

next_choice : Option (List Bytes × Bytes) → Option (List Bytes × Bytes)
next_choice none = none
next_choice (some (ws, r)) = some ([] ∷ ws, r)

separates : ℕ → Bool
separates c = c == b',' || c == b'|' || c == b'\\'

-- Choices with commas between them, up to a bar
unfoldable pub read_choices : Bytes → Option (List Bytes × Bytes)
unfolding onto next_choice separates
read_choices [] = none
read_choices (c ∷ []) = if c == b'|' then some ([] ∷ [], []) else none
read_choices (c ∷ d ∷ s) =
    let skipped = read_choices s in
    let rest = read_choices (d ∷ s) in
    if c == b'|'
    then some ([] ∷ [], d ∷ s)
    else if c == b','
    then next_choice rest
    else if c == b'\\' && separates d
    then onto (d ∷ []) skipped
    else onto (c ∷ []) rest

read_choices-plain :
    (c : ℕ) (s : Bytes)
    → separates c ≡ false
    → read_choices (c ∷ s) ≡ onto (c ∷ []) (read_choices s)
unfolding read_choices separates onto
read_choices-plain c [] h = ground arith
read_choices-plain c (d ∷ s) h = ground arith

read_choices-escaped :
    (c : ℕ) (s : Bytes)
    → separates c ≡ true
    → read_choices (b'\\' ∷ c ∷ s) ≡ onto (c ∷ []) (read_choices s)
unfolding read_choices separates
read_choices-escaped c s h = rw (h) refl

read_choices-escape :
    (v w : Bytes) (ws : List Bytes) (t r : Bytes)
    → read_choices t ≡ some (w ∷ ws, r)
    → read_choices (escape_choice v ++ t) ≡ some ((v ++ w) ∷ ws, r)
unfolding escape_choice separates onto
read_choices-escape [] w ws t r h = h
read_choices-escape (c ∷ v) w ws t r h = elim (Bool-cases (separates c)) [
  | inl e ↦
      rw (e, read_choices-escaped c (escape_choice v ++ t) e, read_choices-escape v w ws t r h) refl
  | inr e ↦
      rw (e, read_choices-plain c (escape_choice v ++ t) e, read_choices-escape v w ws t r h) refl
]

read_choices-comma : (s : Bytes) → read_choices (b',' ∷ s) ≡ next_choice (read_choices s)
unfolding read_choices next_choice
read_choices-comma [] = refl
read_choices-comma (d ∷ s) = refl

read_choices-bar : (s : Bytes) → read_choices (b'|' ∷ s) ≡ some ([] ∷ [], s)
unfolding read_choices
read_choices-bar [] = refl
read_choices-bar (d ∷ s) = refl

read_choices-choices :
    (v : Bytes) (vs : List Bytes) (r : Bytes)
    → read_choices (choices (v ∷ vs) ++ b'|' ∷ r) ≡ some (v ∷ vs, r)
unfolding choices next_choice
read_choices-choices v [] r =
    subst (λ u. read_choices (escape_choice v ++ b'|' ∷ r) ≡ some (u ∷ [], r)) (append-nil v)
      (read_choices-escape v [] [] (b'|' ∷ r) r (read_choices-bar r))
read_choices-choices v (w ∷ vs) r =
    let t = choices (w ∷ vs) ++ b'|' ∷ r in
    let h : read_choices (b',' ∷ t) ≡ some ([] ∷ w ∷ vs, r) =
      rw (read_choices-comma t, read_choices-choices w vs r) refl in
    rw (append_assoc (escape_choice v) (b',' ∷ choices (w ∷ vs)) (b'|' ∷ r)) (
      subst (λ u. read_choices (escape_choice v ++ b',' ∷ t) ≡ some (u ∷ w ∷ vs, r)) (append-nil v)
        (read_choices-escape v [] (w ∷ vs) (b',' ∷ t) r h))

-- A stop of a snippet
pub data Stop : Type 0 where
  placeholder : ℕ → Bytes → Stop
  choice : ℕ → List Bytes → Stop

stop_text : ℕ → Option (Bytes × Bytes) → Option Stop
stop_text n none = none
stop_text n (some r) = some (placeholder n r.0)

stop_choice : ℕ → Option (List Bytes × Bytes) → Option Stop
stop_choice n (some (vs, c ∷ r)) = if c == b'}' then some (choice n vs) else none
stop_choice n _ = none

read_body : ℕ → Bytes → Option Stop
unfolding stop_text stop_choice
read_body n [] = none
read_body n (c ∷ s) =
    if c == b':'
    then stop_text n (read_text s)
    else if c == b'|'
    then stop_choice n (read_choices s)
    else none

read_braced : Bytes → Option Stop
unfolding read_body
read_braced s = let n = read_number 0 s in read_body n.0 n.1

-- The stop in braces at the front of a snippet
unfoldable pub read_stop : Bytes → Option Stop
unfolding read_braced
read_stop (c ∷ d ∷ s) = if (c == b'$') && (d == b'{') then read_braced s else none
read_stop _ = none

drop_front : (a b : Bytes) → drop (length a) (a ++ b) ≡ b
drop_front [] b = refl
drop_front (x ∷ a) b = drop_front a b

-- What `appendPlaceholder` adds is read as a placeholder of its number with the given text.
pub read_stop-append_placeholder :
    (text : Bytes) (number : Option ℕ) (s : Snippet)
    → read_stop (drop (length s.value) (append_placeholder text number s).value)
      ≡ some (placeholder (next_tabstop number s.tabstop).0 text)
unfolding append_placeholder read_stop read_body stop_text is_digit
read_stop-append_placeholder text number s =
    let n = (next_tabstop number s.tabstop).0 in
    let body = escape text ++ b'}' ∷ [] in
    rw
      (
        drop_front s.value (b'$' ∷ b'{' ∷ (to_string n ++ b':' ∷ body)),
        read_number-to_string n b':' body refl,
        read_text-escape text [],
      )
      refl

-- What `appendChoice` adds for at least one value is read as a choice between the given values.
pub read_stop-append_choice :
    (v : Bytes) (vs : List Bytes) (number : Option ℕ) (s : Snippet)
    → read_stop (drop (length s.value) (append_choice (v ∷ vs) number s).value)
      ≡ some (choice (next_tabstop number s.tabstop).0 (v ∷ vs))
unfolding append_choice read_stop read_body stop_choice is_digit
read_stop-append_choice v vs number s =
    let n = (next_tabstop number s.tabstop).0 in
    let body = choices (v ∷ vs) ++ b'|' ∷ b'}' ∷ [] in
    rw
      (
        drop_front s.value (b'$' ∷ b'{' ∷ (to_string n ++ b'|' ∷ body)),
        read_number-to_string n b'|' body refl,
        read_choices-choices v vs (b'}' ∷ []),
      )
      refl
