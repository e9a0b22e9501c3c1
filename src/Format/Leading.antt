-- ===== src/Format/Leading.antt =====
-- src/util/Formatting.cpp: what `findLeadingDocCommentStart` finds.
use slang_server_verilator.Format.DocComment.{
  TriviaKind, end_of_line, block_comment, line_comment, other_trivia, find_boundary, reverse,
  find_leading_doc_comment_start,
}
use slang_server_verilator.Prelude.{
  ℕ, zero, suc, ◌+◌, Bool, true, false, List, [], ◌∷◌, ◌++◌, ◌≡◌, refl, sym, replicate,
  append_assoc, append-nil, ap, ◌∙◌, arith, if◌then◌else◌, ◌==◌, Bool-cases, subst, inl, inr,
  Option, none, some, length, length-append, get_elem?, ◌-◌, ◌≤◌, ◌⊎◌,
}

-- The trivia with so many behind it in a list
kind_at : ℕ → List TriviaKind → Option TriviaKind
kind_at j [] = none
kind_at j (x ∷ r) = if j == length r then some x else kind_at j r

abbrev pub is_comment : Option TriviaKind → Bool
is_comment (some block_comment) = true
is_comment (some line_comment) = true
is_comment _ = false

kind_at-last :
    (j : ℕ) (a : List TriviaKind) (x : TriviaKind)
    → kind_at j (a ++ x ∷ []) ≡ (if j == 0 then some x else kind_at (j - 1) a)
unfolding kind_at
kind_at-last j [] x = refl
kind_at-last j (y ∷ a) x = ground (arith, kind_at-last j a x, length-append a (x ∷ []))

kind_at-reverse : (j : ℕ) (t : List TriviaKind) → kind_at j (reverse t) ≡ get_elem? t j
unfolding reverse
kind_at-reverse j [] = unfold kind_at in refl
kind_at-reverse zero (x ∷ t) = kind_at-last 0 (reverse t) x
kind_at-reverse (suc j) (x ∷ t) =
    kind_at-last (suc j) (reverse t) x ∙ ground (arith, kind_at-reverse j t)

kind_at_beyond : (j : ℕ) (r : List TriviaKind) → length r ≤ j → kind_at j r ≡ none
unfolding kind_at
kind_at_beyond j [] h = refl
kind_at_beyond j (x ∷ r) h = ground (arith, kind_at_beyond j r)

-- A comment further up is one of the longer list.
further_up :
    (j : ℕ) (x : TriviaKind) (r : List TriviaKind)
    → is_comment (kind_at j r) ≡ true
    → is_comment (kind_at j (x ∷ r)) ≡ true
unfolding kind_at
further_up j x r h = elim (Bool-cases (j == length r)) [
  | inl e ↦
      absurd (not_there (subst (λ o. is_comment o ≡ true) (kind_at_beyond j r (ground arith)) h))
  | inr e ↦ rw (e) h
]
  where
    not_there : ¬ (false ≡ true)
    not_there k = ground arith

found_here :
    (j : ℕ) (x : TriviaKind) (r : List TriviaKind) → length r ≡ j → kind_at j (x ∷ r) ≡ some x
unfolding kind_at
found_here j x r h = ground arith

-- What the search may give: what it had, or a comment further up
Found : List TriviaKind → Option ℕ → Option ℕ → ℕ → Type 0
Found r last start j = (last ≡ some j) ⊎ (start ≡ some j) ⊎ (is_comment (kind_at j r) ≡ true)

find_boundary-Found :
    (r : List TriviaKind) (last start : Option ℕ) (ended : Bool) (n j : ℕ)
    → find_boundary r last start ended n ≡ some j
    → Found r last start j
unfolding find_boundary Found
find_boundary-Found [] last start ended n j h = ground arith
find_boundary-Found (end_of_line ∷ r) none start ended n j h =
    ground (arith, find_boundary-Found r none none true (n + 1) j, further_up j end_of_line r)
find_boundary-Found (end_of_line ∷ r) (some c) start ended n j h =
    ground (arith, find_boundary-Found r (some c) (some c) true n j, further_up j end_of_line r)
find_boundary-Found (block_comment ∷ r) last start ended n j h =
    ground (arith, found_here j block_comment r)
find_boundary-Found (line_comment ∷ r) last start ended n j h = ground (
  arith,
  find_boundary-Found r (some (length r)) start false n j,
  further_up j line_comment r,
  found_here j line_comment r,
)
find_boundary-Found (other_trivia ∷ r) last start ended n j h =
    ground (arith, find_boundary-Found r last start false n j, further_up j other_trivia r)

-- Where the search finds the start of a doc comment there is a comment.
pub find_leading_doc_comment_start_lem :
    (t : List TriviaKind) (j : ℕ)
    → find_leading_doc_comment_start t ≡ some j
    → is_comment (get_elem? t j) ≡ true
unfolding find_leading_doc_comment_start Found
find_leading_doc_comment_start_lem t j h =
    rw (← kind_at-reverse j t)
      (ground (arith, find_boundary-Found (reverse t) none none false 0 j h))

abbrev pub others : ℕ → List TriviaKind
others n = replicate n other_trivia

reverse-append : (a b : List TriviaKind) → reverse (a ++ b) ≡ reverse b ++ reverse a
unfolding reverse
reverse-append [] b = sym (append-nil (reverse b))
reverse-append (x ∷ a) b =
    ap (λ r. r ++ x ∷ []) (reverse-append a b) ∙ append_assoc (reverse b) (reverse a) (x ∷ [])

snoc_others : (n : ℕ) → others n ++ other_trivia ∷ [] ≡ other_trivia ∷ others n
snoc_others zero = refl
snoc_others (suc n) = ap (◌∷◌ other_trivia) (snoc_others n)

reverse-others : (n : ℕ) → reverse (others n) ≡ others n
unfolding reverse
reverse-others zero = refl
reverse-others (suc n) = ap (λ r. r ++ other_trivia ∷ []) (reverse-others n) ∙ snoc_others n

-- Nothing was found, and only white space is read.
past_others :
    (m : ℕ) (r : List TriviaKind) (ended : Bool) (n : ℕ)
    → (b : Bool) × (find_boundary (others m ++ r) none none ended n ≡ find_boundary r none none b n)
unfolding find_boundary
past_others zero r ended n = (ended, refl)
past_others (suc m) r ended n = past_others m r false n

two_newlines :
    (b c : ℕ) (r : List TriviaKind)
    → find_boundary (others c ++ end_of_line ∷ (others b ++ end_of_line ∷ r)) none none false 0
      ≡ none
unfolding find_boundary
two_newlines b c r =
    (past_others c (end_of_line ∷ (others b ++ end_of_line ∷ r)) false 0).1
    ∙ (past_others b (end_of_line ∷ r) true 1).1

-- Nothing is found where the trivia end in two line ends with no comment between or behind them: a
-- blank line separates the token from the comments above.
pub find_leading-blank_line :
    (t : List TriviaKind) (b c : ℕ)
    → find_leading_doc_comment_start (t ++ (end_of_line ∷ (others b ++ (end_of_line ∷ others c))))
      ≡ none
unfolding find_leading_doc_comment_start reverse
find_leading-blank_line t b c =
    rw
      (
        reverse-append t (end_of_line ∷ (others b ++ end_of_line ∷ others c)),
        reverse-append (others b) (end_of_line ∷ others c),
        reverse-others b,
        reverse-others c,
      )
      (simp append_assoc (two_newlines b c (reverse t)))
