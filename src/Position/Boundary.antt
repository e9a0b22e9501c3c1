-- ===== src/Position/Boundary.antt =====
-- src/util/Converters.cpp: a column that is measured is found again.
use slang_server_verilator.Position.Columns.{
  sequence, word, length_from, utf16_length, find_column, utf16_to_byte_offset,
}
use slang_server_verilator.Position.Sequence.{sequence-bounds, sequence-append, mod-word}
use slang_server_verilator.Position.Utf8.{Utf8, IsDecoder}
use slang_server_verilator.Prelude.{
  ℕ, zero, suc, ◌+◌, ◌-◌, ◌≤◌, ◌<◌, min, false, [], ◌∷◌, ◌++◌, append_assoc, ◌≡◌, subst, sym, ap,
  arith, ◌==◌, Bytes, length, length-append, drop-append, some, drop,
}

-- `IsBoundary u a t m`: the text `a`, with `t` behind it, is whole sequences, of `m` code units.
pub data IsBoundary (u : Utf8) (t : Bytes) : Bytes → ℕ → Type 0 where
  at_start : IsBoundary u t [] 0
  behind :
      (c : ℕ) (a b : Bytes) (m : ℕ)
      → length (c ∷ a) ≡ (sequence u c (a ++ (b ++ t))).0
      → IsBoundary u t b m
      → IsBoundary u t (c ∷ (a ++ b)) ((sequence u c (a ++ (b ++ t))).1 + m)

module _ (u : Utf8) (d : IsDecoder u) (t : Bytes) where
  -- There are at most as many code units as bytes.
  pub units-bound : {s : Bytes} {m : ℕ} → IsBoundary u t s m → m ≤ length s
  units-bound at_start = omega arith
  units-bound (behind c a b m e h) =
      omega (arith, units-bound h, sequence-bounds u d c (a ++ (b ++ t)), length-append a b)

  same-sequence :
      (c : ℕ) (a b : Bytes)
      → length (c ∷ a) ≡ (sequence u c (a ++ (b ++ t))).0
      → sequence u c (a ++ b) ≡ sequence u c (a ++ (b ++ t))
  same-sequence c a b e = sym (
      subst
        (λ z. (sequence u c z).0 ≤ suc (length (a ++ b)) → sequence u c z ≡ sequence u c (a ++ b))
        (append_assoc a b t) (sequence-append u d c (a ++ b) t)
        (omega (arith, e, length-append a b)))

  behind-drop :
      (c : ℕ) (a b : Bytes)
      → length (c ∷ a) ≡ (sequence u c (a ++ (b ++ t))).0
      → drop (sequence u c (a ++ (b ++ t))).0 (c ∷ (a ++ b)) ≡ b
  behind-drop c a b e = drop-append (c ∷ a) b _ e

  behind-bounds :
      (c : ℕ) (a b : Bytes)
      → length (c ∷ a) ≡ (sequence u c (a ++ (b ++ t))).0
      → (let n = (sequence u c (a ++ (b ++ t))).1 in
          (n ≤ suc (length a)) × (0 < n) × (length (a ++ b) ≡ length a + length b))
  behind-bounds c a b e =
      ground (arith, e, sequence-bounds u d c (a ++ (b ++ t)), length-append a b)

  length_from-units :
      (f count : ℕ) {s : Bytes} {m : ℕ}
      → IsBoundary u t s m
      → length s ≤ f
      → count + length s < word
      → length_from u f count s ≡ count + m
  unfolding length_from
  length_from-units zero count at_start h k = omega arith
  length_from-units (suc f) count at_start h k = omega arith
  length_from-units zero count (behind c a b m e r) h k = absurd (omega arith)
  length_from-units (suc f) count (behind c a b m e r) h k =
      rw
        (
          same-sequence c a b e,
          behind-drop c a b e,
          mod-word (count + (sequence u c (a ++ (b ++ t))).1)
              (omega (arith, behind-bounds c a b e)),
          length_from-units f (count + (sequence u c (a ++ (b ++ t))).1) r
              (omega (arith, behind-bounds c a b e)) (omega (arith, behind-bounds c a b e)),
        )
        (omega arith)

  find_column-start :
      (f size i count : ℕ) (x : Bytes)
      → length x ≤ f
      → i + length x ≡ size
      → find_column u f size i count x (count + 0) ≡ some i
  unfolding find_column
  find_column-start zero size i count [] h e = ground (arith, e)
  find_column-start zero size i count (c ∷ x) h e = absurd (omega arith)
  find_column-start (suc f) size i count [] h e = ground (arith, e)
  find_column-start (suc f) size i count (c ∷ x) h e = ground arith

  other-count : (a n m : ℕ) → 0 < n → (a == a + (n + m)) ≡ false
  other-count a n m h = ground arith

  step-size :
      (c : ℕ) (a b : Bytes) (i size : ℕ)
      → length (c ∷ a) ≡ (sequence u c (a ++ (b ++ t))).0
      → i + suc (length (a ++ (b ++ t))) ≡ size
      → i + min (sequence u c (a ++ (b ++ t))).0 (size - i) ≡ i + length (c ∷ a)
  step-size c a b i size q e = ground (arith, q, length-append a (b ++ t))

  more-units : (a n m : ℕ) → a + (n + m) ≡ a + n + m
  more-units a n m = omega arith

  rest-bounds :
      (c : ℕ) (a b : Bytes) (i size f : ℕ)
      → suc (length (a ++ b ++ t)) ≤ suc f
      → i + suc (length (a ++ b ++ t)) ≡ size
      → (i + suc (length (a ++ (b ++ t))) ≡ size)
        × (length (b ++ t) ≤ f)
        × (i + length (c ∷ a) + length (b ++ t) ≡ size)
        × (i + length (c ∷ a) + length b ≡ i + suc (length (a ++ b)))
  rest-bounds c a b i size f h e = ground (
    arith,
    h,
    e,
    ap (λ z. length z) (append_assoc a b t),
    length-append a (b ++ t),
    length-append a b,
  )

  find_column-units :
      (f size i count : ℕ) {s : Bytes} {m : ℕ}
      → IsBoundary u t s m
      → length (s ++ t) ≤ f
      → i + length (s ++ t) ≡ size
      → count + length s < word
      → find_column u f size i count (s ++ t) (count + m) ≡ some (i + length s)
  unfolding find_column
  find_column-units f size i count at_start h e k =
      rw (find_column-start f size i count t h e) (ap (λ z. some z) (omega arith))
  find_column-units zero size i count (behind c a b m q r) h e k = absurd (omega arith)
  find_column-units (suc f) size i count (behind c a b m q r) h e k =
      rw
        (
          append_assoc a b t,
          other-count count (sequence u c (a ++ (b ++ t))).1 m (behind-bounds c a b q).1,
          drop-append (c ∷ a) (b ++ t) _ q,
          mod-word (count + (sequence u c (a ++ (b ++ t))).1)
              (omega (arith, behind-bounds c a b q)),
        )
        (rw (step-size c a b i size q rest.0, more-units count (sequence u c (a ++ (b ++ t))).1 m)
          (rw
            (find_column-units f size (i + length (c ∷ a))
              (count + (sequence u c (a ++ (b ++ t))).1) r rest.1 rest.2
              (omega (arith, behind-bounds c a b q)))
            (ap (λ z. some z) rest.3)))
    where
      rest :
          (i + suc (length (a ++ (b ++ t))) ≡ size)
          × (length (b ++ t) ≤ f)
          × (i + length (c ∷ a) + length (b ++ t) ≡ size)
          × (i + length (c ∷ a) + length b ≡ i + suc (length (a ++ b)))
      rest = rest-bounds c a b i size f h e

  -- When the decoder is one of whole sequences, and the front `s` of the line `s ++ t` is whole
  -- sequences or malformed bytes and is below 4 GiB, the column that `utf16Length` measures of the
  -- front is found by `utf16ToByteOffset` at the end of the front, and the column is not longer than
  -- the front.
  pub utf16_to_byte_offset-utf16_length :
      {s : Bytes} {m : ℕ}
      → IsBoundary u t s m
      → length s < word
      → (utf16_to_byte_offset u (s ++ t) (utf16_length u s) ≡ some (length s))
        × (utf16_length u s ≤ length s)
  unfolding utf16_to_byte_offset utf16_length
  utf16_to_byte_offset-utf16_length {s} {m} r h = ground (
    arith,
    length_from-units (length s) 0 r (omega arith) (omega (arith, h)),
    find_column-units (length (s ++ t)) (length (s ++ t)) 0 0 r (omega arith) (omega arith)
        (omega (arith, h)),
    units-bound r,
  )
