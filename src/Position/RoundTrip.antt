-- ===== src/Position/RoundTrip.antt =====
-- util/Converters.cpp: an offset that is shown to the client is the offset that its answer addresses.
use slang_server_verilator.Position.Boundary.{IsBoundary, utf16_to_byte_offset-utf16_length}
use slang_server_verilator.Position.Columns.{word, utf16_length}
use slang_server_verilator.Position.Offsets.{
  Lines, to_position_at, line_content, to_source_location,
}
use slang_server_verilator.Position.Utf8.{Utf8, IsDecoder}
use slang_server_verilator.Prelude.{
  ℕ, suc, ◌+◌, ◌-◌, ◌%◌, ◌<◌, min, true, false, ◌++◌, ◌≡◌, refl, ap, some, arith, if◌then◌else◌,
  ◌==◌, ltb, leb, Bytes, length, take, drop, length-append, drop-append, take-append,
}

-- What slang's source manager answers in line `n`, counted from 0, which starts at `start`, for the
-- offset `location`
pub record IsLine (sm : Lines) (n start location : ℕ) : Type 0 where
  pub in_range : suc n < word
  pub starts : sm.source_location (suc n) ≡ some start
  pub lies : sm.raw_line_number location ≡ suc n
  pub column : sm.column_number location ≡ suc (location - start)

line-word : (n : ℕ) → suc n < word → (suc n + word - 1) % word ≡ n
line-word n h = omega arith

nonempty : (n a b : ℕ) → 0 < n → n ≡ a → (a == 0) ≡ false
nonempty n a b h e = ground arith

start-end :
    (pre s rest : Bytes)
    → 0 < length rest
    → ((length (pre ++ (s ++ rest)) == 0) ≡ false)
      × (min (length pre + length s) (length (pre ++ (s ++ rest)) - 1) ≡ length pre + length s)
start-end pre s rest h = ground (arith, length-append pre (s ++ rest), length-append s rest)

column-lem :
    (c a b : ℕ)
    → c ≡ suc (a + b - a)
    → ((if ltb 0 c then c - 1 else 0) ≡ b) × (a + b - b ≡ a) × (leb b (a + b) ≡ true)
column-lem c a b e = ground arith

measured-line : (pre s rest : Bytes) → take (length s) (drop (length pre) (pre ++ (s ++ rest))) ≡ s
measured-line pre s rest =
    rw (drop-append pre (s ++ rest) (length pre) refl) (take-append s rest (length s) refl)

-- The position of the end of `s`, in the line that starts behind `pre`
to_position_at-line :
    (u : Utf8) (sm : Lines) (pre s rest : Bytes) (n : ℕ)
    → IsLine sm n (length pre) (length pre + length s)
    → 0 < length rest
    → to_position_at u sm (pre ++ (s ++ rest)) (length pre + length s)
      ≡ record { line = n; character = utf16_length u s }
unfolding to_position_at
to_position_at-line u sm pre s rest n l h =
    rw ((start-end pre s rest h).0, (start-end pre s rest h).1)
      (rw
        ((column-lem (sm.column_number (length pre + length s)) (length pre) (length s) l.column).0)
        (rw
          (
            (column-lem (sm.column_number (length pre + length s)) (length pre) (length s)
                l.column).1,
            (column-lem (sm.column_number (length pre + length s)) (length pre) (length s)
                l.column).2,
            measured-line pre s rest,
            l.lies,
            line-word n l.in_range,
          )
          refl))

line-start :
    (sm : Lines) (n start location : ℕ)
    → IsLine sm n start location
    → sm.source_location ((n + 1) % word) ≡ some start
line-start sm n start location l = rw (ap (λ z. sm.source_location z) next) l.starts
  where
    next : (n + 1) % word ≡ suc n
    next = omega (arith, l.in_range)

line-in : (pre x : Bytes) → ltb (length (pre ++ x)) (length pre) ≡ false
line-in pre x = ground (arith, length-append pre x)

-- When the decoder is one of whole sequences, the text is `pre ++ (s ++ (t ++ rest))`, where
-- `s ++ t` is a line's content without its terminator and `s` is whole sequences or malformed bytes
-- below 4 GiB, something follows `s`, and slang's source manager answers the end of `s` as in the
-- line that starts behind `pre`, `toSourceLocation` of the position that `toPosition` shows for the
-- end of `s` is that offset.
pub to_source_location-to_position_at :
    (u : Utf8)
    → IsDecoder u
    → (sm : Lines) (pre s t rest : Bytes) (n m : ℕ)
    → IsLine sm n (length pre) (length pre + length s)
    → line_content (s ++ (t ++ rest)) ≡ s ++ t
    → IsBoundary u t s m
    → length s < word
    → 0 < length (t ++ rest)
    → (let text = pre ++ (s ++ (t ++ rest)) in
        to_source_location u sm text (to_position_at u sm text (length pre + length s))
        ≡ some (length pre + length s))
unfolding to_source_location
to_source_location-to_position_at u d sm pre s t rest n m l c b w h =
    rw (to_position_at-line u sm pre s (t ++ rest) n l h) (
      rw (line-start sm n (length pre) (length pre + length s) l) (
        rw
          (
            line-in pre (s ++ (t ++ rest)),
            drop-append pre (s ++ (t ++ rest)) (length pre) refl,
            c,
            (utf16_to_byte_offset-utf16_length u d t b w).0,
          )
          refl))
