-- ===== src/Doc/Splice.antt =====
-- document/SlangDoc.cpp: the changes as splices of the text that the client has.
use slang_server_verilator.Diag.Types.{Range}
use slang_server_verilator.Doc.Addresses.{Addresses, get_offset-Addresses}
use slang_server_verilator.Doc.Change.{
  ContentChange, partial, whole_document, SlangDoc, get_offsets, ends_with_null,
  ensure_null_terminated, next_change, later_changes, replace_buffer, on_change,
}
use slang_server_verilator.Doc.Terminated.{
  ends_with_null-append, on_change-later_changes, next_change-splice,
}
use slang_server_verilator.Position.Utf8.{Utf8, IsDecoder}
use slang_server_verilator.Prelude.{
  ℕ, ◌<◌, true, false, List, [], ◌∷◌, ◌++◌, append-nil, append_assoc, ◌≡◌, refl, some, arith, ltb,
  leb, Bytes, length, length-append, take, drop, take-append, drop-append,
}

-- The text of the client with slang's NUL behind it
abbrev pub held : Bytes → Bytes
held text = text ++ 0 ∷ []

module _ (u : Utf8) (lines : Bytes → List ℕ) where
  -- One change as the client means it: the range's ends lie around `b`, which is replaced; or the
  -- text is replaced by one that does not itself end with NUL.
  pub data Applies : Bytes → ContentChange → Bytes → Type 0 where
    splice :
        (a b c inserted : Bytes) (range : Range)
        → Addresses u (lines (held (a ++ (b ++ c)))) (held (a ++ (b ++ c))) range.start (length a)
        → Addresses u
            (lines (held (a ++ (b ++ c))))
            (held (a ++ (b ++ c)))
            range.end
            (length (a ++ b))
        → Applies (a ++ (b ++ c)) (partial range inserted) (a ++ (inserted ++ c))
    replaced :
        (text inserted : Bytes)
        → ends_with_null inserted ≡ false
        → Applies text (whole_document inserted) inserted

  pub data AppliesAll : Bytes → List ContentChange → Bytes → Type 0 where
    unchanged : (text : Bytes) → AppliesAll text [] text
    changed :
        (x y z : Bytes) (c : ContentChange) (cs : List ContentChange)
        → Applies x c y
        → AppliesAll y cs z
        → AppliesAll x (c ∷ cs) z

  take-held : (a b c : Bytes) → take (length a) (held (a ++ (b ++ c))) ≡ a
  take-held a b c =
      rw (append_assoc a (b ++ c) (0 ∷ [])) (take-append a (b ++ c ++ 0 ∷ []) (length a) refl)

  drop-held : (a b c : Bytes) → drop (length (a ++ b)) (held (a ++ (b ++ c))) ≡ c ++ 0 ∷ []
  drop-held a b c =
      rw (← append_assoc a b c, append_assoc (a ++ b) c (0 ∷ []))
        (drop-append (a ++ b) (c ++ 0 ∷ []) (length (a ++ b)) refl)

  in_order :
      (a b c : Bytes)
      → (ltb (length (a ++ b)) (length a) ≡ false)
        × (leb (length (held (a ++ (b ++ c)))) (length (a ++ b)) ≡ false)
  in_order a b c = ground (
    arith,
    length-append a b,
    length-append (a ++ (b ++ c)) (0 ∷ []),
    length-append a (b ++ c),
    length-append b c,
  )

  get_offsets-held :
      IsDecoder u
      → (a b c : Bytes) (range : Range)
      → Addresses u (lines (held (a ++ (b ++ c)))) (held (a ++ (b ++ c))) range.start (length a)
      → Addresses u
          (lines (held (a ++ (b ++ c))))
          (held (a ++ (b ++ c)))
          range.end
          (length (a ++ b))
      → get_offsets u lines (held (a ++ (b ++ c))) range ≡ some (length a, length (a ++ b))
  unfolding get_offsets
  get_offsets-held d a b c range p q =
      rw (get_offset-Addresses u d p, get_offset-Addresses u d q)
        (rw ((in_order a b c).0, (in_order a b c).1) refl)

  next_change-Applies :
      IsDecoder u
      → {x y : Bytes} {c : ContentChange} → Applies x c y
      → next_change u lines (held x) c ≡ some (held y)
  unfolding next_change ensure_null_terminated
  next_change-Applies d (splice a b c inserted range p q) =
      rw
        (
          next_change-splice u lines (held (a ++ (b ++ c))) range inserted
              (length a, length (a ++ b)) (get_offsets-held d a b c range p q),
          take-held a b c,
          drop-held a b c,
          append_assoc a (inserted ++ c) (0 ∷ []),
          append_assoc inserted c (0 ∷ []),
          append_assoc a inserted (c ++ 0 ∷ []),
        )
        refl
  next_change-Applies d (replaced text inserted e) = rw e refl

  pub later_changes-AppliesAll :
      IsDecoder u
      → {x y : Bytes} {cs : List ContentChange} (more : List ContentChange) → AppliesAll x cs y
      → later_changes u lines (held x) (cs ++ more) ≡ later_changes u lines (held y) more
  unfolding later_changes
  later_changes-AppliesAll d more (unchanged text) = refl
  later_changes-AppliesAll d more (changed x y z c cs h hs) =
      rw (next_change-Applies d h) (later_changes-AppliesAll d more hs)

  pub on_change-nonempty :
      (doc : SlangDoc) (cs : List ContentChange)
      → 0 < length cs
      → ends_with_null doc.text ≡ true
      → on_change u lines doc cs ≡ replace_buffer doc (later_changes u lines doc.text cs)
  on_change-nonempty doc [] h e = absurd (omega arith)
  on_change-nonempty doc (c ∷ cs) h e = on_change-later_changes u lines doc c cs e

  pub held-terminated : (x : Bytes) → ends_with_null (held x) ≡ true
  unfolding ends_with_null
  held-terminated x = ends_with_null-append x (0 ∷ []) refl

  -- When the decoder is one of whole sequences, the document holds the client's text, and the
  -- changes, at least one, make of that text another by splices at the offsets that their positions
  -- address and by replacements of the whole, then `onChange` leaves the document with that other
  -- text and with no tree, no analysis and no compilation of an include context.
  pub on_change-AppliesAll :
      IsDecoder u
      → (doc : SlangDoc) (x y : Bytes) (cs : List ContentChange) → doc.text ≡ held x
      → AppliesAll x cs y
      → 0 < length cs
      → on_change u lines doc cs
        ≡ record { text = held y; tree = false; analysis = false; include_compilation = false }
  unfolding replace_buffer later_changes
  on_change-AppliesAll d doc x y cs e h n =
      rw
        (
          on_change-nonempty doc cs n (rw e (held-terminated x)),
          e,
          ← append-nil cs,
          later_changes-AppliesAll d [] h,
        )
        refl
