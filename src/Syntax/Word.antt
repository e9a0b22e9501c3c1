-- ===== src/Syntax/Word.antt =====
-- document/SyntaxIndexer.cpp: the word at a place is the word token that contains it.
use slang_server_verilator.Prelude.{
  ℕ, zero, suc, ◌≤◌, ◌<◌, ◌>>=◌, true, false, List, [], ◌∷◌, ◌++◌, ◌≡◌, refl, sym, arith, ◌==◌,
  length, inl, inr, Option, none, some, get_elem?,
}
use slang_server_verilator.Syntax.Index.{
  Token, SourceLocation, SyntaxIndexer, starts_by, editor_contains, word_at, or_else,
  token_in_front, get_word_token_at,
}
use slang_server_verilator.Syntax.Search.{Split, token_index_before-cases}

-- The tokens are in order and do not overlap; the first starts at `from` or behind it.
pub data IsOrdered : ℕ → List Token → Type 0 where
  no_tokens : (from : ℕ) → IsOrdered from []
  then_token :
      (from : ℕ) (token : Token) (tokens : List Token)
      → from ≤ token.start
      → token.start ≤ token.end
      → IsOrdered token.end tokens
      → IsOrdered from (token ∷ tokens)

-- The first word token that contains the offset
unfoldable pub find_word : List Token → ℕ → Option Token
find_word [] offset = none
find_word (token ∷ tokens) offset = or_else (word_at offset token) (find_word tokens offset)

word_at-before : (offset : ℕ) (token : Token) → offset < token.start → word_at offset token ≡ none
unfolding word_at editor_contains
word_at-before offset token h = ground (arith, h)

pub word_at-behind : (offset : ℕ) (token : Token) → token.end ≤ offset → word_at offset token ≡ none
unfolding word_at editor_contains
word_at-behind offset token h = ground (arith, h)

find_word-none :
    (from : ℕ) (tokens : List Token) (offset : ℕ)
    → IsOrdered from tokens
    → offset < from
    → find_word tokens offset ≡ none
unfolding find_word or_else
find_word-none from [] offset o h = refl
find_word-none from (token ∷ tokens) offset (then_token _ _ _ a b o) h =
    rw (word_at-before offset token (omega arith))
      (find_word-none token.end tokens offset o (omega arith))

find_word-later :
    (from : ℕ) (tokens : List Token) (offset : ℕ)
    → IsOrdered from tokens
    → starts_by tokens 0 offset ≡ false
    → find_word tokens offset ≡ none
unfolding find_word or_else starts_by
find_word-later from [] offset o h = refl
find_word-later from (token ∷ tokens) offset (then_token _ _ _ a b o) h =
    rw (word_at-before offset token behind)
      (find_word-none token.end tokens offset o (omega (arith, behind, b)))
  where
    behind : offset < token.start
    behind = ground (arith, h)

split-IsOrdered :
    (from : ℕ) (front : List Token) (token : Token) (back : List Token)
    → IsOrdered from (front ++ token ∷ back)
    → (from ≤ token.start) × (token.start ≤ token.end) × IsOrdered token.end back
split-IsOrdered from [] token back (then_token _ _ _ a b o) = (a, b, o)
split-IsOrdered from (t ∷ front) token back (then_token _ _ _ a b o) =
    let rest = split-IsOrdered t.end front token back o in
    (omega (arith, a, b, rest.0), rest.1, rest.2)

find_word-front :
    (from : ℕ) (front : List Token) (token : Token) (back : List Token) (offset : ℕ)
    → IsOrdered from (front ++ token ∷ back)
    → token.start ≤ offset
    → find_word (front ++ token ∷ back) offset ≡ find_word (token ∷ back) offset
unfolding find_word or_else
find_word-front from [] token back offset o h = refl
find_word-front from (t ∷ front) token back offset (then_token _ _ _ a b o) h =
    rw (word_at-behind offset t (omega (arith, h, (split-IsOrdered t.end front token back o).0)))
      (find_word-front t.end front token back offset o h)

-- No token in front of the one that was found is a word at the offset.
word-in_front :
    (from : ℕ) (front : List Token) (token : Token) (back : List Token) (offset i : ℕ)
    → IsOrdered from (front ++ token ∷ back)
    → token.start ≤ offset
    → i < length front
    → (get_elem? (front ++ token ∷ back) i >>= word_at offset) ≡ none
word-in_front from [] token back offset i o h k = absurd (omega arith)
word-in_front from (t ∷ front) token back offset zero (then_token _ _ _ a b o) h k =
    word_at-behind offset t (omega (arith, h, (split-IsOrdered t.end front token back o).0))
word-in_front from (t ∷ front) token back offset (suc i) (then_token _ _ _ a b o) h k =
    word-in_front t.end front token back offset i o h (omega arith)

get_elem?-middle :
    (front : List Token) (token : Token) (back : List Token) (index : ℕ)
    → length front ≡ index
    → get_elem? (front ++ token ∷ back) index ≡ some token
get_elem?-middle [] token back zero e = refl
get_elem?-middle [] token back (suc i) e = absurd (omega (arith, e))
get_elem?-middle (t ∷ front) token back zero e = absurd (omega (arith, e))
get_elem?-middle (t ∷ front) token back (suc i) e =
    get_elem?-middle front token back i (omega (arith, e))

token_in_front-none :
    (from : ℕ) (front : List Token) (token : Token) (back : List Token) (offset index : ℕ)
    → IsOrdered from (front ++ token ∷ back)
    → token.start ≤ offset
    → length front ≡ index
    → (token_in_front (front ++ token ∷ back) index >>= word_at offset) ≡ none
unfolding token_in_front
token_in_front-none from front token back offset zero o h e = refl
token_in_front-none from front token back offset (suc i) o h e =
    word-in_front from front token back offset i o h (omega (arith, e))

find_word-token :
    (from : ℕ) (front : List Token) (token : Token) (back : List Token) (offset : ℕ)
    → IsOrdered from (front ++ token ∷ back)
    → starts_by back 0 offset ≡ false
    → or_else (word_at offset token) none ≡ find_word (token ∷ back) offset
unfolding find_word
find_word-token from front token back offset o h =
    rw (find_word-later token.end back offset (split-IsOrdered from front token back o).2 h) refl

-- The two tokens that are looked at are as good as all of them.
pub get_word_token_at-find_word :
    (s : SyntaxIndexer) (loc : SourceLocation) (from : ℕ)
    → (loc.buffer == s.buffer) ≡ true
    → IsOrdered from s.collected
    → get_word_token_at s loc ≡ find_word s.collected loc.offset
unfolding get_word_token_at
get_word_token_at-find_word s loc from e o = elim (token_index_before-cases s loc e) [
  | inl h ↦ rw h.0 (sym (find_word-later from s.collected loc.offset o h.1))
  | inr h ↦ rw h.1 (at_split h.0 h.2 (rw h.2.whole at o))
]
  where
    at_split :
        (index : ℕ) (p : Split s.collected loc.offset index)
        → IsOrdered from (p.front ++ p.token ∷ p.back)
        → or_else
            (get_elem? s.collected index >>= word_at loc.offset)
            (token_in_front s.collected index >>= word_at loc.offset)
          ≡ find_word s.collected loc.offset
    at_split index p o = rw p.whole (
        rw
          (
            get_elem?-middle p.front p.token p.back index p.in_front,
            token_in_front-none from p.front p.token p.back loc.offset index o p.starts p.in_front,
            find_word-front from p.front p.token p.back loc.offset o p.starts,
          )
          (find_word-token from p.front p.token p.back loc.offset o p.later))
