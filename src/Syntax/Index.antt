-- ===== src/Syntax/Index.antt =====
-- document/SyntaxIndexer.cpp: the lookups of `SyntaxIndexer`, on the tokens that were collected of its
-- buffer. slang's `SourceRange::contains` is a parameter.
use slang_server_verilator.Prelude.{
  ℕ, zero, suc, ◌+◌, ◌-◌, ◌/◌, ◌>>=◌, Bool, true, false, not, ◌&&◌, ◌||◌, List, [], ◌∷◌, Option,
  none, some, if◌then◌else◌, ◌==◌, ltb, leb, length, get_elem?,
}

-- The kinds that are words, and all others
pub data TokenKind : Type 0 where
  identifier system_identifier directive macro_usage other_kind : TokenKind

-- A token of the buffer: its range, and the node that is its parent, with that node's ancestors, the
-- node itself first
pub record Token : Type 0 where
  pub kind : TokenKind
  pub start : ℕ
  pub end : ℕ
  pub is_missing : Bool
  pub parent : List ℕ

pub record SourceLocation : Type 0 where
  pub buffer : ℕ
  pub offset : ℕ

pub record SyntaxIndexer : Type 0 where
  pub buffer : ℕ
  pub collected : List Token

-- `isIdToken`
unfoldable pub is_id_token : TokenKind → Bool
is_id_token other_kind = false
is_id_token _ = true

-- `editorContains`
unfoldable pub editor_contains : Token → ℕ → Bool
editor_contains token offset = leb token.start offset && ltb offset token.end

-- `collected[i]->range().start() <= loc`
unfoldable pub starts_by : List Token → ℕ → ℕ → Bool
starts_by [] i offset = false
starts_by (token ∷ tokens) zero offset = leb token.start offset
starts_by (token ∷ tokens) (suc i) offset = starts_by tokens i offset

-- The loop of `tokenIndexBefore`, with the number of tokens as fuel
unfoldable pub search_index : List Token → ℕ → ℕ → ℕ → ℕ → ℕ
search_index tokens offset zero low high = low
search_index tokens offset (suc f) low high =
    let mid = low + (high - low) / 2 in
    let below = starts_by tokens mid offset in
    let rest =
      search_index tokens offset f (if below then mid else low) (if below then high else mid) in
    if ltb (low + 1) high then rest else low

-- `tokenIndexBefore`; `none` is -1
unfoldable pub token_index_before : SyntaxIndexer → SourceLocation → Option ℕ
token_index_before s loc =
    if not (loc.buffer == s.buffer)
    then none
    else if length s.collected == 0
    then none
    else if not (starts_by s.collected 0 loc.offset)
    then none
    else some (search_index s.collected loc.offset (length s.collected) 0 (length s.collected))

-- A token that is a word and contains the offset
unfoldable pub word_at : ℕ → Token → Option Token
word_at offset token =
    if is_id_token token.kind && editor_contains token offset then some token else none

unfoldable pub or_else : Option Token → Option Token → Option Token
or_else none other = other
or_else (some token) other = some token

-- `collected[at_index - 1]`, if there is one
unfoldable pub token_in_front : List Token → ℕ → Option Token
token_in_front tokens zero = none
token_in_front tokens (suc i) = get_elem? tokens i

-- `getWordTokenAt`
unfoldable pub get_word_token_at : SyntaxIndexer → SourceLocation → Option Token
unfolding or_else
get_word_token_at s loc = do
  at_index ← token_index_before s loc
  or_else (get_elem? s.collected at_index >>= word_at loc.offset)
      (token_in_front s.collected at_index >>= word_at loc.offset)

-- `getTokenAt`
unfoldable pub get_token_at : (Token → ℕ → Bool) → SyntaxIndexer → SourceLocation → Option Token
get_token_at contains s loc = do
  at_index ← token_index_before s loc
  token ← get_elem? s.collected at_index
  (if contains token loc.offset then some token else none)

-- Of the `n` tokens in front, those up to the last that starts in front of the offset
unfoldable pub step_back : List Token → ℕ → ℕ → ℕ
step_back tokens offset zero = 0
step_back tokens offset (suc i) =
    let rest = step_back tokens offset i in
    let later =
      get_elem? tokens i >>= (λ token. if leb offset token.start then some token else none) in
    elim later [ none ↦ suc i | some token ↦ rest ]

-- `getTokenBefore`, on the number of tokens up to the index
token_ending : List Token → ℕ → ℕ → Option Token
token_ending tokens offset n =
    token_in_front tokens n
    >>= (λ token. if ltb offset token.end then token_in_front tokens (n - 1) else some token)

-- `getTokenBefore`
unfoldable pub get_token_before : SyntaxIndexer → SourceLocation → Option Token
unfolding token_ending
get_token_before s loc = do
  index ← token_index_before s loc
  token_ending s.collected loc.offset (step_back s.collected loc.offset (suc index))

first_starting : List Token → ℕ → Option Token
first_starting [] offset = none
first_starting (token ∷ tokens) offset =
    let rest = first_starting tokens offset in if ltb token.start offset then rest else some token

-- `getTokenAfter`; `std::lower_bound` of tokens in order is the first that starts at the offset or
-- behind it.
unfoldable pub get_token_after : SyntaxIndexer → SourceLocation → Option Token
unfolding first_starting
get_token_after s loc =
    if not (loc.buffer == s.buffer) then none else first_starting s.collected loc.offset

contains_node : List ℕ → ℕ → Bool
contains_node [] node = false
contains_node (n ∷ nodes) node = (n == node) || contains_node nodes node

-- The first of the nodes that is one of the others, with its ancestors
first_common : List ℕ → List ℕ → List ℕ
first_common nodes [] = []
first_common nodes (node ∷ ancestors) =
    let rest = first_common nodes ancestors in
    if contains_node nodes node then node ∷ ancestors else rest

-- `getSyntaxAt`, with the ancestors of the node; none is nullptr
unfoldable pub get_syntax_at : SyntaxIndexer → SourceLocation → List ℕ
unfolding first_common contains_node
get_syntax_at s loc = syntax_of (token_index_before s loc)
  where
    common : Token → Option Token → List ℕ
    common before none = []
    common before (some after) = first_common before.parent after.parent

    inside : Token → ℕ → List ℕ
    inside before index =
        if ltb loc.offset before.end || (before.is_missing && (loc.offset == before.start))
        then before.parent
        else common before (get_elem? s.collected (suc index))

    at : Option Token → ℕ → List ℕ
    at none index = []
    at (some before) index = inside before index

    syntax_of : Option ℕ → List ℕ
    syntax_of none = []
    syntax_of (some index) = at (get_elem? s.collected index) index
