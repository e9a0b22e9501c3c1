-- ===== src/Markup/Code.antt =====
-- src/util/Markdown.cpp: `Paragraph::appendCode`.
use slang_server_verilator.Prelude.{
  ℕ, zero, suc, ◌+◌, ◌≤◌, max, [], ◌∷◌, ◌++◌, ◌≡◌, arith, if◌then◌else◌, ◌==◌, ltb, Bytes,
  replicate, Option, none, some,
}

-- The loop, with `currentRun` and `maxBackticks`
unfoldable pub longest_run : ℕ → ℕ → Bytes → ℕ
longest_run current longest [] = longest
longest_run current longest (c ∷ code) =
    if c == b'`'
    then longest_run (suc current) (max longest (suc current)) code
    else longest_run 0 longest code

-- What `appendCode` writes of the code
unfoldable pub code_span : Bytes → Bytes
code_span code =
    let m = longest_run 0 0 code in
    let delimiter = replicate (suc m) b'`' in
    if ltb 0 m
    then delimiter ++ (b' ' ∷ (code ++ b' ' ∷ delimiter))
    else delimiter ++ (code ++ delimiter)

-- `appendCode`
unfoldable pub append_code : Bytes → Bytes → Bytes
append_code code p = p ++ code_span code

unfoldable pub with_run : ℕ → ℕ → Option Bytes → Option Bytes
with_run k c none = none
with_run k c (some t) = some (replicate k b'`' ++ c ∷ t)

-- A reader of a span that `n` backticks opened: what stands before the first run of exactly `n`
-- backticks; `k` backticks were just read.
unfoldable pub read_span : ℕ → ℕ → Bytes → Option Bytes
unfolding with_run
read_span n k [] = if k == n then some [] else none
read_span n k (c ∷ s) =
    let longer = read_span n (suc k) s in
    let rest = read_span n 0 s in
    if c == b'`' then longer else if k == n then some [] else with_run k c rest

-- A backtick in the code lengthens the run, and the longest one is at least as long.
pub longest_run_grows : (k m : ℕ) (code : Bytes) → m ≤ longest_run k m code
unfolding longest_run
longest_run_grows k m [] = omega arith
longest_run_grows k m (c ∷ code) =
    ground (arith, longest_run_grows (suc k) (max m (suc k)) code, longest_run_grows 0 m code)

pub closing : (n k j : ℕ) → k + j ≡ n → read_span n k (replicate j b'`') ≡ some []
unfolding read_span
closing n k zero h = ground arith
closing n k (suc j) h = closing n (suc k) j (omega arith)
