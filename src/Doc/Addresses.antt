-- ===== src/Doc/Addresses.antt =====
-- document/SlangDoc.cpp: the offset that a position of the client addresses.
use slang_server_verilator.Diag.Types.{Position}
use slang_server_verilator.Doc.Change.{trimmed, get_offset}
use slang_server_verilator.Position.Boundary.{IsBoundary, utf16_to_byte_offset-utf16_length}
use slang_server_verilator.Position.Columns.{word, utf16_length}
use slang_server_verilator.Position.Offsets.{is_terminator}
use slang_server_verilator.Position.Utf8.{Utf8, IsDecoder}
use slang_server_verilator.Prelude.{
  ℕ, zero, suc, ◌+◌, ◌-◌, ◌%◌, ◌≤◌, ◌<◌, Bool, true, false, List, [], ◌∷◌, ◌++◌, ◌≡◌, refl, ◌∙◌,
  some, arith, Bytes, length, take-append, drop-append, get_elem?, get_or, get_or-at,
  get_or-append_right, get_or-append_left,
}
use slang_server_verilator.Text.{all_of}

-- `Addresses u offsets text p k`: the position `p` lies behind the bytes `s` of a line of the text
-- whose content is `s ++ t` and whose terminators are `term`, and `k` is that place.
pub data Addresses (u : Utf8) (offsets : List ℕ) (text : Bytes) (p : Position) (k : ℕ)
    : Type 0 where
  in_line :
      (pre s t term after : Bytes) (m : ℕ)
      → text ≡ pre ++ (s ++ t ++ (term ++ after))
      → get_elem? offsets p.line ≡ some (length pre)
      → get_or offsets (suc p.line) (length text) ≡ length pre + (length (s ++ t) + length term)
      → suc p.line < word
      → is_terminator (get_or (s ++ t) (length (s ++ t) - 1) 0) ≡ false
      → all_of is_terminator term ≡ true
      → IsBoundary u t s m
      → length s < word
      → p.character ≡ utf16_length u s
      → k ≡ length pre + length s
      → Addresses u offsets text p k

all_of-get_or :
    (p : ℕ → Bool) (x : Bytes) (i d : ℕ)
    → all_of p x ≡ true
    → i < length x
    → p (get_or x i d) ≡ true
unfolding all_of
all_of-get_or p [] i d h k = absurd (omega arith)
all_of-get_or p (c ∷ x) zero d h k = ground (arith, h)
all_of-get_or p (c ∷ x) (suc i) d h k = all_of-get_or p x i d (ground (arith, h)) (omega arith)

module _ (pre content term after : Bytes)
    (ends : is_terminator (get_or content (length content - 1) 0) ≡ false)
    (terms : all_of is_terminator term ≡ true) where
  abbrev whole : Bytes
  whole = pre ++ (content ++ (term ++ after))

  in_content :
      (n : ℕ) → suc n ≡ length content → is_terminator (get_or whole (length pre + n) 0) ≡ false
  in_content n h =
      rw
        (
          get_or-append_right pre (content ++ (term ++ after)) (length pre + n) n 0 refl,
          get_or-append_left content (term ++ after) n 0 (omega arith),
          get_or-at content n (length content - 1) 0 (omega arith),
        )
        ends

  in_term :
      (j n : ℕ)
      → n ≡ length content + j
      → j < length term
      → is_terminator (get_or whole (length pre + n) 0) ≡ true
  in_term j n e h =
      rw
        (
          get_or-append_right pre (content ++ (term ++ after)) (length pre + n) n 0 refl,
          get_or-append_right content (term ++ after) n j 0 e,
          get_or-append_left term after j 0 h,
        )
        (all_of-get_or is_terminator term j 0 terms h)

  trimmed-content : (n : ℕ) → n ≡ length content → trimmed whole (length pre) n ≡ n
  unfolding trimmed
  trimmed-content zero e = refl
  trimmed-content (suc n) e = rw (in_content n e) refl

  trimmed-line :
      (j n : ℕ)
      → j ≤ length term
      → n ≡ length content + j
      → trimmed whole (length pre) n ≡ length content
  unfolding trimmed
  trimmed-line zero n h e = trimmed-content n (omega arith) ∙ omega (arith, e)
  trimmed-line (suc j) zero h e = absurd (omega arith)
  trimmed-line (suc j) (suc n) h e =
      rw (in_term j n (omega arith) (omega arith)) (trimmed-line j n (omega arith) (omega arith))

-- The position addresses that offset in the code.
pub get_offset-Addresses :
    (u : Utf8)
    → IsDecoder u
    → {offsets : List ℕ} {text : Bytes} {p : Position} {k : ℕ} → Addresses u offsets text p k
    → get_offset u offsets text p ≡ some k
unfolding get_offset
get_offset-Addresses u d {offsets} {text = text} {p = p}
      (in_line pre s t term after m e start next w ends terms b small c k) =
    rw (start, line_size, e, k)
      (rw
        (
          trimmed-line pre (s ++ t) term after ends terms (length term)
              (length (s ++ t) + length term) (omega arith) refl,
          drop-append pre (s ++ t ++ (term ++ after)) (length pre) refl,
          take-append (s ++ t) (term ++ after) (length (s ++ t)) refl,
          c,
          (utf16_to_byte_offset-utf16_length u d t b small).0,
        )
        refl)
  where
    next_line : (p.line + 1) % word ≡ suc p.line
    next_line = omega (arith, w)

    line_size :
        get_or offsets ((p.line + 1) % word) (length text) - length pre
        ≡ length (s ++ t) + length term
    line_size = rw (next_line, next) (omega arith)
