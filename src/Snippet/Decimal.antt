-- ===== src/Snippet/Decimal.antt =====
-- A number is read back from its decimal digits.
use slang_server_verilator.Prelude.{
  ℕ, zero, suc, ◌+◌, ◌-◌, ◌*◌, ◌/◌, ◌%◌, ◌<◌, false, [], ◌∷◌, ◌++◌, ◌≡◌, ap, ◌∙◌, arith,
  if◌then◌else◌, ltb, Bytes, Bool-cases, inl, inr, append_assoc,
}
use slang_server_verilator.Snippet.Types.{digits, to_string}
use slang_server_verilator.Text.{is_digit}

-- The number that the digits at the front continue, and the rest
unfoldable pub read_number : ℕ → Bytes → ℕ × Bytes
read_number n [] = (n, [])
read_number n (c ∷ s) =
    let more = read_number (10 * n + (c - b'0')) s in if is_digit c then more else (n, c ∷ s)

read_digit :
    (n d : ℕ) (s : Bytes) → d < 10 → read_number n ((b'0' + d) ∷ s) ≡ read_number (10 * n + d) s
unfolding read_number is_digit
read_digit n d s h = ground arith

read_number-digits :
    (k n : ℕ) (s : Bytes) → n < k → read_number 0 (digits k n ++ s) ≡ read_number n s
unfolding digits
read_number-digits zero n s h = elim h [ ]
read_number-digits (suc k) n s h = elim (Bool-cases (ltb n 10)) [
  | inl e ↦ rw (e) (read_digit 0 n s (ground arith) ∙ ap (λ m. read_number m s) (omega arith))
  | inr e ↦
      rw (e, append_assoc (digits k (n / 10)) ((b'0' + n % 10) ∷ []) s)
        (read_number-digits k (n / 10) ((b'0' + n % 10) ∷ s) (ground arith)
          ∙ read_digit (n / 10) (n % 10) s (omega arith)
          ∙ ap (λ m. read_number m s) (omega arith))
]

pub read_number-to_string :
    (n c : ℕ) (s : Bytes) → is_digit c ≡ false → read_number 0 (to_string n ++ c ∷ s) ≡ (n, c ∷ s)
unfolding to_string read_number
read_number-to_string n c s h = read_number-digits (suc n) n (c ∷ s) (omega arith) ∙ ground arith
