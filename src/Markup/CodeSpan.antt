-- ===== src/Markup/CodeSpan.antt =====
-- src/util/Markdown.cpp: a reader of Markdown sees the code of `appendCode` as it was.
use slang_server_verilator.Markup.Code.{
  longest_run, code_span, read_span, with_run, longest_run_grows, closing,
}
use slang_server_verilator.Prelude.{
  ℕ, zero, suc, ◌+◌, ◌<◌, ◌≤◌, max, Bool, true, false, not, ◌&&◌, ◌||◌, [], ◌∷◌, ◌++◌, ◌≡◌, refl,
  subst, ap, arith, if◌then◌else◌, ◌==◌, ltb, Bytes, replicate, Bool-cases, inl, inr, Option, none,
  some,
}
use slang_server_verilator.Text.{all_of}

replicate_more : (k c : ℕ) (s : Bytes) → replicate (suc k) c ++ s ≡ replicate k c ++ c ∷ s
replicate_more zero c s = refl
replicate_more (suc k) c s = ap (◌∷◌ c) (replicate_more k c s)

-- The closing run is longer than every run of the code.
read_span-spaced :
    (n k m : ℕ) (code : Bytes)
    → k ≤ m
    → longest_run k m code < n
    → read_span n k (code ++ b' ' ∷ replicate n b'`')
      ≡ some (replicate k b'`' ++ (code ++ b' ' ∷ []))
unfolding read_span longest_run with_run
read_span-spaced n k m [] h l = ground (arith, closing n 0 n (omega arith))
read_span-spaced n k m (c ∷ code) h l = ground (
  arith,
  read_span-spaced n (suc k) (max m (suc k)) code,
  read_span-spaced n 0 m code,
  longest_run_grows 0 m code,
  replicate_more k b'`' (code ++ b' ' ∷ []),
)

-- Code without a backtick ends at the first one.
read_span-plain :
    (code : Bytes) → longest_run 0 0 code ≡ 0 → read_span 1 0 (code ++ b'`' ∷ []) ≡ some code
unfolding read_span longest_run with_run
read_span-plain [] h = refl
read_span-plain (c ∷ code) h = ground (arith, read_span-plain code, longest_run_grows 1 1 code)

-- What a reader does with text that starts with backticks: it counts them, and reads up to as many.
unfoldable pub read_code : ℕ → Bytes → Option Bytes
read_code n [] = none
read_code n (c ∷ s) =
    let more = read_code (suc n) s in if c == b'`' then more else read_span n 0 (c ∷ s)

read_code-replicate :
    (j n c : ℕ) (s : Bytes)
    → (c == b'`') ≡ false
    → read_code n (replicate j b'`' ++ c ∷ s) ≡ read_span (j + n) 0 (c ∷ s)
unfolding read_code
read_code-replicate zero n c s h = ground arith
read_code-replicate (suc j) n c s h = ground (arith, read_code-replicate j (suc n) c s h)

ends_blank : Bytes → Bool
ends_blank [] = false
ends_blank (c ∷ []) = c == b' '
ends_blank (c ∷ d ∷ s) = ends_blank (d ∷ s)

drop_last : Bytes → Bytes
drop_last [] = []
drop_last (c ∷ []) = []
drop_last (c ∷ d ∷ s) = c ∷ drop_last (d ∷ s)

-- A blank at both ends of the code is not shown, if there is more than blanks.
unfoldable pub strip_blanks : Bytes → Bytes
unfolding ends_blank drop_last
strip_blanks [] = []
strip_blanks (c ∷ s) =
    if (c == b' ') && ends_blank s && not (all_of (λ d. d == b' ') (c ∷ s))
    then drop_last s
    else c ∷ s

ends_blank-append : (s : Bytes) → ends_blank (s ++ b' ' ∷ []) ≡ true
unfolding ends_blank
ends_blank-append [] = refl
ends_blank-append (c ∷ []) = refl
ends_blank-append (c ∷ d ∷ s) = ends_blank-append (d ∷ s)

drop_last-append : (s : Bytes) → drop_last (s ++ b' ' ∷ []) ≡ s
unfolding drop_last
drop_last-append [] = refl
drop_last-append (c ∷ []) = refl
drop_last-append (c ∷ d ∷ s) = ap (◌∷◌ c) (drop_last-append (d ∷ s))

-- Blanks have no run of backticks.
longest_run-blanks :
    (s : Bytes) → all_of (λ d. d == b' ') (s ++ b' ' ∷ []) ≡ true → longest_run 0 0 s ≡ 0
unfolding longest_run all_of
longest_run-blanks [] h = refl
longest_run-blanks (c ∷ s) h = ground (arith, longest_run-blanks s)

-- A line feed or a carriage return
abbrev pub ends_line : ℕ → Bool
ends_line c = c == 10 || c == 13

abbrev begins_with_feed : Bytes → Bool
begins_with_feed [] = false
begins_with_feed (c ∷ s) = c == 10

-- A line ending in code is shown as a blank.
unfoldable pub join_lines : Bytes → Bytes
join_lines [] = []
join_lines (c ∷ s) =
    let rest = join_lines s in
    if c == 13 && begins_with_feed s then rest else (if ends_line c then b' ' else c) ∷ rest

-- The code is on one line.
unfoldable pub on_one_line : Bytes → Bool
on_one_line s = all_of (λ c. not (ends_line c)) s

join_lines-one : (s t : Bytes) → on_one_line s ≡ true → join_lines (s ++ t) ≡ s ++ join_lines t
unfolding join_lines on_one_line all_of
join_lines-one [] t h = refl
join_lines-one (c ∷ s) t h = ground (arith, join_lines-one s t)

join_lines-plain : (s : Bytes) → on_one_line s ≡ true → join_lines s ≡ s
unfolding join_lines on_one_line all_of
join_lines-plain [] h = refl
join_lines-plain (c ∷ s) h = ground (arith, join_lines-plain s)

abbrev shown_code : Option Bytes → Option Bytes
shown_code none = none
shown_code (some t) = some (strip_blanks (join_lines t))

-- What a reader shows of a span of code, in a paragraph without a blank line
unfoldable pub rendered : Bytes → Option Bytes
rendered s = shown_code (read_code 0 s)

strip_spaced : (s : Bytes) → 0 < longest_run 0 0 s → strip_blanks (b' ' ∷ (s ++ b' ' ∷ [])) ≡ s
unfolding strip_blanks all_of
strip_spaced s h = ground (arith, ends_blank-append s, drop_last-append s, longest_run-blanks s)

plain_front : (c : ℕ) (s : Bytes) → longest_run 0 0 (c ∷ s) ≡ 0 → (c == b'`') ≡ false
unfolding longest_run
plain_front c s h = ground (arith, longest_run_grows 1 1 s)

strip_joined :
    (s : Bytes)
    → 0 < longest_run 0 0 s
    → on_one_line s ≡ true
    → strip_blanks (join_lines (b' ' ∷ (s ++ b' ' ∷ []))) ≡ s
strip_joined s h o = rw (joined) (strip_spaced s h)
  where
    joined : join_lines (b' ' ∷ (s ++ b' ' ∷ [])) ≡ b' ' ∷ (s ++ b' ' ∷ [])
    joined = unfold join_lines in rw (join_lines-one s (b' ' ∷ []) o) refl

rendered-spaced :
    (s : Bytes) (m : ℕ)
    → on_one_line s ≡ true
    → longest_run 0 0 s ≡ m
    → 0 < m
    → rendered (replicate (suc m) b'`' ++ (b' ' ∷ (s ++ b' ' ∷ replicate (suc m) b'`'))) ≡ some s
unfolding rendered with_run
rendered-spaced s m o e h =
    let tail = s ++ b' ' ∷ replicate (suc m) b'`' in
    rw
      (
        read_code-replicate (suc m) 0 b' ' tail refl,
        read_span-blank (suc m + 0) tail (omega arith),
        at_length,
      )
      (ap some (strip_joined s (omega arith) o))
  where
    read_span-blank :
        (n : ℕ) (t : Bytes) → 0 < n → read_span n 0 (b' ' ∷ t) ≡ with_run 0 b' ' (read_span n 0 t)
    read_span-blank n t h = unfold read_span in ground arith

    at_length : read_span (suc m + 0) 0 (s ++ b' ' ∷ replicate (suc m) b'`') ≡ some (s ++ b' ' ∷ [])
    at_length =
        subst (λ n. read_span n 0 (s ++ b' ' ∷ replicate (suc m) b'`') ≡ some (s ++ b' ' ∷ []))
          (omega arith) (read_span-spaced (suc m) 0 0 s (omega arith) (omega arith))

rendered-plain :
    (c : ℕ) (s : Bytes)
    → (c == b' ') ≡ false
    → on_one_line (c ∷ s) ≡ true
    → longest_run 0 0 (c ∷ s) ≡ 0
    → rendered (b'`' ∷ c ∷ (s ++ b'`' ∷ [])) ≡ some (c ∷ s)
unfolding rendered strip_blanks
rendered-plain c s h o e =
    rw
      (
        read_code-replicate 1 0 c (s ++ b'`' ∷ []) (plain_front c s e),
        read_span-plain (c ∷ s) e,
        join_lines-plain (c ∷ s) o,
      )
      (ground arith)

-- A reader of Markdown shows the code of a span as it was given, if there is some, on one line, and it
-- does not start with a blank. (A line ending would be shown as a blank.)
pub rendered-code_span :
    (c : ℕ) (s : Bytes)
    → (c == b' ') ≡ false
    → on_one_line (c ∷ s) ≡ true
    → rendered (code_span (c ∷ s)) ≡ some (c ∷ s)
unfolding code_span
rendered-code_span c s h o = elim (Bool-cases (ltb 0 (longest_run 0 0 (c ∷ s)))) [
  | inl e ↦ rw (e) (rendered-spaced (c ∷ s) (longest_run 0 0 (c ∷ s)) o refl (ground arith))
  | inr e ↦ let z : longest_run 0 0 (c ∷ s) ≡ 0 = ground arith in rw (z) (rendered-plain c s h o z)
]
