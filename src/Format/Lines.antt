-- ===== src/Format/Lines.antt =====
-- src/util/Formatting.cpp: `stripBlankLines`, `shiftIndent`, `squashSpaces` and `isSingleLine`.
-- `is_white` stands for slang's `isWhitespace`.
use slang_server_verilator.Assoc.{contains}
use slang_server_verilator.Prelude.{
  ℕ, zero, suc, min, Bool, true, false, not, ◌||◌, List, [], ◌∷◌, ◌++◌, if◌then◌else◌, ◌==◌, ltb,
  Bytes, Option, none, some, length, nat_eq,
}
use slang_server_verilator.Text.{is_space}

abbrev pub newline : ℕ
newline = 10

-- The longest prefix of the class, and the rest
unfoldable pub split_front : (ℕ → Bool) → Bytes → Bytes × Bytes
split_front ok [] = ([], [])
split_front ok (c ∷ s) =
    let rest = split_front ok s in if ok c then (c ∷ rest.0, rest.1) else ([], c ∷ s)

-- What stands behind the last newline; all, if there is none
unfoldable pub behind_newlines : Bytes → Bytes
behind_newlines [] = []
behind_newlines (c ∷ s) =
    let rest = behind_newlines s in
    if contains newline s then rest else if c == newline then s else c ∷ s

-- `stripBlankLines`
unfoldable pub strip_blank_lines : (ℕ → Bool) → Bytes → Bytes
strip_blank_lines is_white s = let m = split_front is_white s in behind_newlines m.0 ++ m.1

-- A character before the first of some lines; a newline starts a line.
unfoldable pub onto_lines : ℕ → List Bytes → List Bytes
onto_lines c [] = (c ∷ []) ∷ []
onto_lines c (l ∷ ls) = (c ∷ l) ∷ ls

-- The lines that `std::getline` reads
unfoldable pub lines : Bytes → List Bytes
lines [] = []
lines (c ∷ s) = let rest = lines s in if c == newline then [] ∷ rest else onto_lines c rest

abbrev pub is_blank : ℕ → Bool
is_blank c = c == b' ' || c == 9

-- The inner loop of `squashSpaces`, with `inSpaceSequence`
unfoldable pub squash_content : Bool → Bytes → Bytes
squash_content spaced [] = []
squash_content spaced (c ∷ s) =
    let in_spaces = squash_content true s in
    let in_text = squash_content false s in
    if c == b' ' then if spaced then in_spaces else c ∷ in_spaces else c ∷ in_text

unfoldable pub squash_line : Bytes → Bytes
squash_line l = let m = split_front is_blank l in m.0 ++ squash_content false m.1

unfoldable pub squash_lines : List Bytes → Bytes
squash_lines [] = []
squash_lines ([] ∷ ls) = squash_lines ls
squash_lines ((c ∷ l) ∷ ls) = squash_line (c ∷ l) ++ newline ∷ squash_lines ls

-- `s.resize(s.size() - 1)`; of an empty string that is a `length_error`.
unfoldable pub without_last : Bytes → Option Bytes
without_last [] = none
without_last (c ∷ []) = some []
without_last (c ∷ d ∷ s) = keep c (without_last (d ∷ s))
  where
    keep : ℕ → Option Bytes → Option Bytes
    keep c none = none
    keep c (some t) = some (c ∷ t)

-- `squashSpaces`
unfoldable pub squash_spaces : Bytes → Option Bytes
squash_spaces [] = some []
squash_spaces (c ∷ s) = without_last (squash_lines (lines (c ∷ s)))

-- `ltrim`
unfoldable pub ltrim : Bytes → Bytes
ltrim s = (split_front is_space s).1

-- `isSingleLine`
unfoldable pub is_single_line : Bytes → Bool
is_single_line s = not (contains newline s)

-- The indentation of a line
unfoldable pub indent : ℕ → Bytes → ℕ
indent i [] = 0
indent i (c ∷ l) = let rest = indent i l in if c == i then suc rest else 0

-- `std::min` with `minIndent`; `none` is `SIZE_MAX`
unfoldable pub lower : ℕ → Option ℕ → Option ℕ
lower n none = some n
lower n (some m) = some (min n m)

-- The first pass over the lines behind the first
unfoldable pub min_indent : ℕ → List Bytes → Option ℕ
min_indent i [] = none
min_indent i (l ∷ ls) =
    let rest = min_indent i ls in
    if ltb (indent i l) (length l) then lower (indent i l) rest else rest

-- The inner loop of the second pass
unfoldable pub remove_indent : ℕ → ℕ → Bytes → Bytes
remove_indent i zero l = l
remove_indent i (suc n) [] = []
remove_indent i (suc n) (c ∷ l) = let rest = remove_indent i n l in if c == i then rest else c ∷ l

-- The second pass: empty lines are left out.
unfoldable pub shift_lines : ℕ → ℕ → List Bytes → Bytes
shift_lines i n [] = []
shift_lines i n ([] ∷ ls) = shift_lines i n ls
shift_lines i n ((c ∷ l) ∷ ls) = remove_indent i n (c ∷ l) ++ newline ∷ shift_lines i n ls

unfoldable pub shift_by : ℕ → Option ℕ → Bytes → Option Bytes
shift_by i none s = some s
shift_by i (some zero) s = some s
shift_by i (some (suc n)) s = without_last (shift_lines i (suc n) (lines s))

abbrev pub tail : List Bytes → List Bytes
tail [] = []
tail (l ∷ ls) = ls

-- `shiftIndent`
unfoldable pub shift_indent : Bytes → Option Bytes
shift_indent [] = some []
shift_indent (c ∷ s) =
    let i : ℕ = if contains 9 (c ∷ s) then 9 else b' ' in
    if is_single_line (c ∷ s)
    then some (ltrim (c ∷ s))
    else shift_by i (min_indent i (tail (lines (c ∷ s)))) (c ∷ s)

-- `detailFormat`, of what slang's printer gives
unfoldable pub detail_format : (ℕ → Bool) → Bytes → Option Bytes
detail_format is_white printed = trimmed (squash_spaces (strip_blank_lines is_white printed))
  where
    trimmed : Option Bytes → Option Bytes
    trimmed none = none
    trimmed (some s) = some (ltrim s)
