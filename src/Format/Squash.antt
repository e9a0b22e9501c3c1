-- ===== src/Format/Squash.antt =====
-- src/util/Formatting.cpp: what `squashSpaces` and `shiftIndent` do to a line.
use slang_server_verilator.Assoc.{contains, remove}
use slang_server_verilator.Format.Lines.{
  split_front, is_blank, squash_content, squash_line, indent, lower, min_indent, remove_indent,
}
use slang_server_verilator.Prelude.{
  ℕ, zero, suc, ◌≤◌, Bool, true, false, ◌&&◌, ◌||◌, List, [], ◌∷◌, ◌++◌, ◌≡◌, refl, sym, ap, ◌∙◌,
  arith, ◌==◌, ltb, Bytes, Option-cases, list_eq, list_eqb_iff, inl, inr, some, none, length,
  nat_eq, drop,
}

-- Two spaces that follow one another
unfoldable pub doubled : Bytes → Bool
doubled [] = false
doubled (c ∷ []) = false
doubled (c ∷ d ∷ s) = ((c == b' ') && (d == b' ')) || doubled (d ∷ s)

abbrev space_first : Bytes → Bool
space_first [] = false
space_first (c ∷ s) = c == b' '

doubled-cons : (c : ℕ) (s : Bytes) → doubled (c ∷ s) ≡ (((c == b' ') && space_first s) || doubled s)
unfolding doubled
doubled-cons c [] = ground arith
doubled-cons c (d ∷ s) = refl

-- Behind a space no space comes first.
squash_content-front : (s : Bytes) → space_first (squash_content true s) ≡ false
unfolding squash_content
squash_content-front [] = refl
squash_content-front (c ∷ s) = ground (arith, squash_content-front s)

-- The squashed content has no two spaces in a row.
pub squash_content-doubled : (b : Bool) (s : Bytes) → doubled (squash_content b s) ≡ false
unfolding squash_content
squash_content-doubled b [] = unfold doubled in refl
squash_content-doubled b (c ∷ s) = ground (
  arith,
  squash_content-doubled true s,
  squash_content-doubled false s,
  doubled-cons c (squash_content true s),
  doubled-cons c (squash_content false s),
  squash_content-front s,
)

-- All characters but the spaces stay, in their order.
pub squash_content-letters :
    (b : Bool) (s : Bytes) → remove b' ' (squash_content b s) ≡ remove b' ' s
unfolding squash_content remove
squash_content-letters b [] = refl
squash_content-letters b (c ∷ s) =
    ground (arith, squash_content-letters true s, squash_content-letters false s)

split_front_whole : (ok : ℕ → Bool) (s : Bytes) → (split_front ok s).0 ++ (split_front ok s).1 ≡ s
unfolding split_front
split_front_whole ok [] = refl
split_front_whole ok (c ∷ s) = ground (arith, split_front_whole ok s)

remove-append : (c : ℕ) (a b : Bytes) → remove c (a ++ b) ≡ remove c a ++ remove c b
unfolding remove
remove-append c [] b = refl
remove-append c (d ∷ a) b = ground (arith, remove-append c a b)

-- A squashed line keeps every character that is not a space, in order, and behind its leading
-- blanks it has no two spaces in a row.
pub squash_line_lem :
    (l : Bytes)
    → (remove b' ' (squash_line l) ≡ remove b' ' l)
      × (doubled (squash_content false (split_front is_blank l).1) ≡ false)
unfolding squash_line
squash_line_lem l =
    let m = split_front is_blank l in
    (
      remove-append b' ' m.0 (squash_content false m.1)
          ∙ ap (λ t. remove b' ' m.0 ++ t) (squash_content-letters false m.1)
          ∙ sym (remove-append b' ' m.0 m.1)
          ∙ ap (remove b' ') (split_front_whole is_blank l),
      squash_content-doubled false m.1,
    )

none_there :
    (i : ℕ) (ls : List Bytes) (l : Bytes)
    → min_indent i ls ≡ none
    → contains l ls ≡ true
    → ltb (indent i l) (length l) ≡ false
unfolding min_indent contains lower
none_there i [] l h k = ground arith
none_there i (x ∷ ls) l h k = elim (Option-cases (min_indent i ls)) [
  | inl e ↦ ground (arith, list_eqb_iff x l, none_there i ls l e)
  | inr (r, e) ↦ ground arith
]

-- Every line with text has at least the least indentation.
min_indent-bound :
    (i n : ℕ) (ls : List Bytes) (l : Bytes)
    → min_indent i ls ≡ some n
    → contains l ls ≡ true
    → ltb (indent i l) (length l) ≡ true
    → n ≤ indent i l
unfolding min_indent contains lower
min_indent-bound i n [] l h k m = ground arith
min_indent-bound i n (x ∷ ls) l h k m = elim (Option-cases (min_indent i ls)) [
  | inl e ↦ ground (arith, list_eqb_iff x l, none_there i ls l e)
  | inr (r, e) ↦ ground (arith, list_eqb_iff x l, min_indent-bound i r ls l e)
]

-- Of an indentation that is large enough the amount is removed and nothing else.
remove_indent-drop : (i n : ℕ) (l : Bytes) → n ≤ indent i l → remove_indent i n l ≡ drop n l
unfolding remove_indent indent
remove_indent-drop i zero l h = refl
remove_indent-drop i (suc n) [] h = refl
remove_indent-drop i (suc n) (c ∷ l) h = ground (arith, remove_indent-drop i n l)

-- Where the least indentation of some lines is removed, every one of them that has text loses just
-- that many characters.
pub remove_indent-min_indent :
    (i n : ℕ) (ls : List Bytes) (l : Bytes)
    → min_indent i ls ≡ some n
    → contains l ls ≡ true
    → ltb (indent i l) (length l) ≡ true
    → remove_indent i n l ≡ drop n l
remove_indent-min_indent i n ls l h k m = remove_indent-drop i n l (min_indent-bound i n ls l h k m)
