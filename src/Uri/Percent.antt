-- ===== src/Uri/Percent.antt =====
-- src/lsp/URI.cpp: `decode`, `encode` and `to_hex`.
use slang_server_verilator.Prelude.{
  ℕ, zero, suc, ◌+◌, ◌-◌, ◌*◌, ◌/◌, ◌%◌, ◌<◌, Bool, true, false, not, ◌&&◌, ◌||◌, [], ◌∷◌, ◌≡◌,
  refl, ap, Option, none, some, arith, if◌then◌else◌, ◌==◌, leb, ltb, Bytes, get_or, Bool-cases,
  inl, inr,
}
use slang_server_verilator.Prelude.Int.{ℤ, pos, negsuc}
use slang_server_verilator.Text.{
  codes, is_digit, is_alnum, is_alpha, is_upper, is_lower, is_space, all_of,
}

-- The value of a hexadecimal digit
unfoldable pub hex_value : ℕ → Option ℕ
unfolding is_digit
hex_value c =
    if is_digit c
    then some (c - b'0')
    else if leb b'a' c && leb c b'f'
    then some (c - b'a' + 10)
    else if leb b'A' c && leb c b'F'
    then some (c - b'A' + 10)
    else none

negate : ℕ → ℤ
negate n = if n == 0 then pos 0 else negsuc (n - 1)

two_digits : ℕ → Option ℕ → ℤ
two_digits a none = pos a
two_digits a (some b) = pos (16 * a + b)

one_digit : ℕ → Option ℕ → Option ℤ
unfolding negate
one_digit c none = none
one_digit c (some b) =
    if is_space c || c == b'+' then some (pos b) else if c == b'-' then some (negate b) else none

number : ℕ → Option ℕ → Option ℕ → Option ℤ
unfolding two_digits one_digit
number c (some a) b = some (two_digits a b)
number c none b = one_digit c b

-- `std::stoi(s, nullptr, 16)` of two characters: blanks and a sign may stand before the digits, what
-- stands behind them is not read, and with no digit it throws (`none`).
unfoldable pub stoi_hex : ℕ → ℕ → Option ℤ
unfolding number
stoi_hex c d = number c (hex_value c) (hex_value d)

-- `static_cast<char>`
unfoldable pub to_char : ℤ → ℕ
to_char (pos n) = n % 256
to_char (negsuc n) = 255 - n % 256

prepend : Option ℤ → Option Bytes → Option Bytes
prepend (some v) (some rest) = some (to_char v ∷ rest)
prepend _ _ = none

keep : ℕ → Option Bytes → Option Bytes
keep c none = none
keep c (some rest) = some (c ∷ rest)

-- `decode`; `none` when `stoi` throws
unfoldable pub decode : Bytes → Option Bytes
unfolding prepend keep
decode [] = some []
decode (c ∷ []) = some (c ∷ [])
decode (c ∷ d ∷ []) = some (c ∷ d ∷ [])
decode (c ∷ d ∷ e ∷ s) =
    let skipped = decode s in
    let rest = decode (d ∷ e ∷ s) in
    if c == b'%' then prepend (stoi_hex d e) skipped else keep c rest

abbrev hex_chars : Bytes
hex_chars = codes "0123456789ABCDEF"

-- `to_hex`
unfoldable pub to_hex : ℕ → Bytes
to_hex c = get_or hex_chars (c / 16 % 16) 0 ∷ get_or hex_chars (c % 16) 0 ∷ []

-- What `encode` leaves as it is
unfoldable pub is_unreserved : ℕ → Bool
is_unreserved c = is_alnum c || c == b'-' || c == b'.' || c == b'_' || c == b'~' || c == b'/'

-- `encode`
unfoldable pub encode : Bytes → Bytes
encode [] = []
encode (c ∷ s) =
    let rest = encode s in
    if is_unreserved c
    then c ∷ rest
    else b'%' ∷ get_or hex_chars (c / 16 % 16) 0 ∷ get_or hex_chars (c % 16) 0 ∷ rest

hex_value_lem : (a : ℕ) → a < 16 → hex_value (get_or hex_chars a 0) ≡ some a
unfolding hex_value
hex_value_lem zero h = refl
hex_value_lem (suc zero) h = refl
hex_value_lem (suc (suc zero)) h = refl
hex_value_lem (suc (suc (suc zero))) h = refl
hex_value_lem (suc (suc (suc (suc zero)))) h = refl
hex_value_lem (suc (suc (suc (suc (suc zero))))) h = refl
hex_value_lem (suc (suc (suc (suc (suc (suc zero)))))) h = refl
hex_value_lem (suc (suc (suc (suc (suc (suc (suc zero))))))) h = refl
hex_value_lem (suc (suc (suc (suc (suc (suc (suc (suc zero)))))))) h = refl
hex_value_lem (suc (suc (suc (suc (suc (suc (suc (suc (suc zero))))))))) h = refl
hex_value_lem (suc (suc (suc (suc (suc (suc (suc (suc (suc (suc zero)))))))))) h = refl
hex_value_lem (suc (suc (suc (suc (suc (suc (suc (suc (suc (suc (suc zero))))))))))) h = refl
hex_value_lem (suc (suc (suc (suc (suc (suc (suc (suc (suc (suc (suc (suc zero)))))))))))) h = refl
hex_value_lem (suc (suc (suc (suc (suc (suc (suc (suc (suc (suc (suc (suc (suc zero))))))))))))) h =
    refl
hex_value_lem
      (suc (suc (suc (suc (suc (suc (suc (suc (suc (suc (suc (suc (suc (suc zero)))))))))))))) h =
    refl
hex_value_lem
      (suc (suc (suc (suc (suc (suc (suc (suc (suc (suc (suc (suc (suc (suc (suc zero)))))))))))))))
      h =
    refl
hex_value_lem
      (suc
        (suc (suc (suc (suc (suc (suc (suc (suc (suc (suc (suc (suc (suc (suc (suc n))))))))))))))))
      h =
    absurd (not_less n h)
  where
    not_less :
        (n : ℕ)
        → ¬ (
            suc (
              suc (
                suc
                  (suc (suc (suc (suc (suc (suc (suc (suc (suc (suc (suc (suc (suc n)))))))))))))))
            < 16)
    not_less n k = omega arith

decode-keep : (c : ℕ) (s : Bytes) → (c == b'%') ≡ false → decode (c ∷ s) ≡ keep c (decode s)
unfolding decode keep
decode-keep c [] h = refl
decode-keep c (d ∷ []) h = refl
decode-keep c (d ∷ e ∷ s) h = ground arith

stoi_hex-hex_chars :
    (a b : ℕ)
    → a < 16
    → b < 16
    → stoi_hex (get_or hex_chars a 0) (get_or hex_chars b 0) ≡ some (pos (16 * a + b))
unfolding stoi_hex number two_digits
stoi_hex-hex_chars a b h k = rw (hex_value_lem a h, hex_value_lem b k) refl

unreserved_plain : (c : ℕ) → is_unreserved c ≡ true → (c == b'%') ≡ false
unfolding is_unreserved is_alnum is_alpha is_upper is_lower is_digit
unreserved_plain c h = ground arith

decode-hex_chars :
    (c : ℕ) (s : Bytes)
    → c < 256
    → decode (b'%' ∷ get_or hex_chars (c / 16 % 16) 0 ∷ get_or hex_chars (c % 16) 0 ∷ s)
      ≡ keep c (decode s)
unfolding decode prepend to_char keep
decode-hex_chars c s h =
    rw (stoi_hex-hex_chars (c / 16 % 16) (c % 16) (omega arith) (omega arith)) (restored (decode s))
  where
    restored : (o : Option Bytes) → prepend (some (pos (16 * (c / 16 % 16) + c % 16))) o ≡ keep c o
    restored none = refl
    restored (some x) = ap (λ b. some (b ∷ x)) (omega arith)

-- Every string of bytes is what its encoding decodes to.
pub decode-encode : (s : Bytes) → all_of (λ c. ltb c 256) s ≡ true → decode (encode s) ≡ some s
unfolding all_of encode keep
decode-encode [] h = unfold decode in refl
decode-encode (c ∷ s) h =
    let small : c < 256 = ground arith in
    let rest = decode-encode s (ground arith) in
    elim (Bool-cases (is_unreserved c)) [
      | inl e ↦ rw (e, decode-keep c (encode s) (unreserved_plain c e), rest) refl
      | inr e ↦ rw (e, decode-hex_chars c (encode s) small, rest) refl
    ]

-- Without a percent sign a string is what it decodes to.
pub decode_plain : (s : Bytes) → all_of (λ c. not (c == b'%')) s ≡ true → decode s ≡ some s
unfolding all_of keep
decode_plain [] h = unfold decode in refl
decode_plain (c ∷ s) h =
    let rest = decode_plain s (ground arith) in rw (decode-keep c s (ground arith), rest) refl
