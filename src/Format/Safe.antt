-- ===== src/Format/Safe.antt =====
-- src/util/Formatting.cpp: no call cuts the last character of an empty string.
use slang_server_verilator.Assoc.{contains}
use slang_server_verilator.Format.Lines.{
  newline, split_front, behind_newlines, strip_blank_lines, onto_lines, lines, squash_line,
  squash_lines, without_last, squash_spaces, ltrim, is_single_line, indent, min_indent, shift_lines,
  shift_by, remove_indent, shift_indent, detail_format, tail,
}
use slang_server_verilator.Prelude.{
  ℕ, zero, suc, Bool, true, false, not, ◌||◌, List, [], ◌∷◌, ◌++◌, ◌≡◌, refl, arith, if◌then◌else◌,
  ◌==◌, Bytes, Bool-cases, inl, inr, Option, none, some, nat_eq,
}

-- There is text.
abbrev there : Bytes → Bool
there [] = false
there (c ∷ s) = true

abbrev any_there : List Bytes → Bool
any_there [] = false
any_there (l ∷ ls) = there l || any_there ls

without_last_total : (s : Bytes) → there s ≡ true → (t : Bytes) × (without_last s ≡ some t)
unfolding without_last
without_last_total [] h = ground arith
without_last_total (c ∷ []) h = ([], refl)
without_last_total (c ∷ d ∷ s) h =
    let r = without_last_total (d ∷ s) refl in (c ∷ r.0, rw (r.1) refl)

there-append : (a b : Bytes) (c : ℕ) → there (a ++ c ∷ b) ≡ true
there-append [] b c = refl
there-append (d ∷ a) b c = refl

squash_lines-there : (ls : List Bytes) → any_there ls ≡ true → there (squash_lines ls) ≡ true
unfolding squash_lines
squash_lines-there [] h = ground arith
squash_lines-there ([] ∷ ls) h = squash_lines-there ls h
squash_lines-there ((c ∷ l) ∷ ls) h = there-append (squash_line (c ∷ l)) (squash_lines ls) newline

shift_lines-there :
    (i n : ℕ) (ls : List Bytes) → any_there ls ≡ true → there (shift_lines i n ls) ≡ true
unfolding shift_lines
shift_lines-there i n [] h = ground arith
shift_lines-there i n ([] ∷ ls) h = shift_lines-there i n ls h
shift_lines-there i n ((c ∷ l) ∷ ls) h =
    there-append (remove_indent i n (c ∷ l)) (shift_lines i n ls) newline

-- A least indentation comes from a line with text.
min_indent-there : (i n : ℕ) (ls : List Bytes) → min_indent i ls ≡ some n → any_there ls ≡ true
unfolding min_indent indent
min_indent-there i n [] h = ground arith
min_indent-there i n ([] ∷ ls) h = min_indent-there i n ls (ground arith)
min_indent-there i n ((c ∷ l) ∷ ls) h = refl

tail-there : (ls : List Bytes) → any_there (tail ls) ≡ true → any_there ls ≡ true
tail-there [] h = h
tail-there (l ∷ ls) h = ground arith

shift_by_total :
    (i : ℕ) (o : Option ℕ) (s : Bytes)
    → ((n : ℕ) → o ≡ some n → any_there (lines s) ≡ true)
    → (t : Bytes) × (shift_by i o s ≡ some t)
unfolding shift_by
shift_by_total i none s h = (s, refl)
shift_by_total i (some zero) s h = (s, refl)
shift_by_total i (some (suc n)) s h =
    without_last_total (shift_lines i (suc n) (lines s))
      (shift_lines-there i (suc n) (lines s) (h (suc n) refl))

shift_several :
    (i : ℕ) (s : Bytes) → (t : Bytes) × (shift_by i (min_indent i (tail (lines s))) s ≡ some t)
shift_several i s =
    shift_by_total i (min_indent i (tail (lines s))) s
      (λ n e. tail-there (lines s) (min_indent-there i n (tail (lines s)) e))

-- `shiftIndent` always returns: where it cuts the last newline there is one.
pub shift_indent_total : (s : Bytes) → (t : Bytes) × (shift_indent s ≡ some t)
unfolding shift_indent
shift_indent_total [] = ([], refl)
shift_indent_total (c ∷ s) =
    let i : ℕ = if contains 9 (c ∷ s) then 9 else b' ' in
    elim (Bool-cases (is_single_line (c ∷ s))) [
      | inl e ↦ (ltrim (c ∷ s), rw (e) refl)
      | inr e ↦ let r = shift_several i (c ∷ s) in (r.0, rw (e) r.1)
    ]

-- The first line of a text that does not start with a newline
starts_line : (s : Bytes) (c : ℕ) → (c == newline) ≡ false → any_there (lines (c ∷ s)) ≡ true
unfolding lines onto_lines
starts_line s c h = elim (Bool-cases (c == newline)) [
  | inl e ↦ ground arith
  | inr e ↦ rw (e) (onto (lines s))
]
  where
    onto : (ls : List Bytes) → any_there (onto_lines c ls) ≡ true
    onto [] = refl
    onto (l ∷ ls) = refl

-- No newline stands at the front of what `stripBlankLines` leaves.
abbrev bare_front : Bytes → Bool
bare_front [] = true
bare_front (c ∷ s) = not (c == newline)

behind_newlines-bare : (s : Bytes) → contains newline (behind_newlines s) ≡ false
unfolding behind_newlines contains
behind_newlines-bare [] = refl
behind_newlines-bare (c ∷ s) = ground (arith, behind_newlines-bare s)

split_front-bare :
    (is_white : ℕ → Bool) (s : Bytes)
    → is_white newline ≡ true
    → bare_front (split_front is_white s).1 ≡ true
unfolding split_front
split_front-bare is_white [] h = refl
split_front-bare is_white (c ∷ s) h = ground (arith, split_front-bare is_white s h)

bare-append :
    (a b : Bytes) → contains newline a ≡ false → bare_front b ≡ true → bare_front (a ++ b) ≡ true
unfolding contains
bare-append [] b h k = k
bare-append (c ∷ a) b h k = ground arith

squash_bare : (s : Bytes) → bare_front s ≡ true → (t : Bytes) × (squash_spaces s ≡ some t)
unfolding squash_spaces
squash_bare [] h = ([], refl)
squash_bare (c ∷ s) h =
    without_last_total (squash_lines (lines (c ∷ s)))
      (squash_lines-there (lines (c ∷ s)) (starts_line s c (ground arith)))

-- If a newline is white space, `detailFormat` always returns: after `stripBlankLines` there is a
-- line to end, or no text at all.
pub detail_format_total :
    (is_white : ℕ → Bool) (printed : Bytes)
    → is_white newline ≡ true
    → (t : Bytes) × (detail_format is_white printed ≡ some t)
unfolding detail_format strip_blank_lines
detail_format_total is_white s h =
    let m = split_front is_white s in
    let r = squash_bare (behind_newlines m.0 ++ m.1) (
      bare-append (behind_newlines m.0) m.1 (behind_newlines-bare m.0)
        (split_front-bare is_white s h)) in
    (ltrim r.0, rw (r.1) refl)
