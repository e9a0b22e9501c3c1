-- ===== src/Doc/Rejected.antt =====
-- document/SlangDoc.cpp: a range that cannot be meant leaves the document as it was.
use slang_server_verilator.Diag.Types.{Position, Range}
use slang_server_verilator.Doc.Addresses.{Addresses, get_offset-Addresses}
use slang_server_verilator.Doc.Change.{
  ContentChange, partial, SlangDoc, get_offset, get_offsets, next_change, later_changes,
  replace_buffer, on_change,
}
use slang_server_verilator.Doc.Splice.{
  held, AppliesAll, later_changes-AppliesAll, on_change-nonempty, held-terminated,
}
use slang_server_verilator.Position.Utf8.{Utf8, IsDecoder}
use slang_server_verilator.Prelude.{
  ℕ, zero, suc, ◌≤◌, ◌<◌, ◌>>=◌, List, [], ◌∷◌, ◌++◌, ◌≡◌, refl, Option, none, some, arith, Bytes,
  length, length-append, get_elem?,
}

-- A range that is reversed, that reaches behind the last byte, or that starts or ends on a line that
-- is not there
pub data Invalid (u : Utf8) (offsets : List ℕ) (text : Bytes) (range : Range) : Type 0 where
  reversed :
      (i j : ℕ)
      → Addresses u offsets text range.start i
      → Addresses u offsets text range.end j
      → j < i
      → Invalid u offsets text range
  past_end :
      (i j : ℕ)
      → Addresses u offsets text range.start i
      → Addresses u offsets text range.end j
      → length text ≤ j
      → Invalid u offsets text range
  no_start_line : length offsets ≤ range.start.line → Invalid u offsets text range
  no_end_line : length offsets ≤ range.end.line → Invalid u offsets text range

get_elem?-none : {A : Type 0} (xs : List A) (i : ℕ) → length xs ≤ i → get_elem? xs i ≡ none
get_elem?-none [] i h = refl
get_elem?-none (x ∷ xs) zero h = absurd (omega arith)
get_elem?-none (x ∷ xs) (suc i) h = get_elem?-none xs i (omega arith)

get_offset-none :
    (u : Utf8) (offsets : List ℕ) (text : Bytes) (p : Position)
    → length offsets ≤ p.line
    → get_offset u offsets text p ≡ none
unfolding get_offset
get_offset-none u offsets text p h = rw (get_elem?-none offsets p.line h) refl

none->>= {ℓ κ} :
    {A : Type ℓ} {B : Type κ} (o : Option A) (f : A → Option B)
    → ((a : A) → f a ≡ none)
    → (o >>= f) ≡ none
none->>= none f h = refl
none->>= (some a) f h = h a

pub get_offsets-Invalid :
    (u : Utf8) (lines : Bytes → List ℕ)
    → IsDecoder u
    → {text : Bytes} {range : Range} → Invalid u (lines text) text range
    → get_offsets u lines text range ≡ none
unfolding get_offsets
get_offsets-Invalid u lines d (reversed i j p q h) =
    rw (get_offset-Addresses u d p, get_offset-Addresses u d q) (ground arith)
get_offsets-Invalid u lines d (past_end i j p q h) =
    rw (get_offset-Addresses u d p, get_offset-Addresses u d q) (ground arith)
get_offsets-Invalid u lines d {text} {range} (no_start_line h) =
    rw (get_offset-none u (lines text) text range.start h) refl
get_offsets-Invalid u lines d {text} {range} (no_end_line h) =
    rw (get_offset-none u (lines text) text range.end h)
      (none->>= (get_offset u (lines text) text range.start) _ (λ first. refl))

-- When the decoder is one of whole sequences, the document holds the client's text, the changes in
-- front make of that text `y`, and the range of the next change is reversed in `y`, reaches behind
-- its NUL or has a line that `y` lacks, `onChange` leaves the document as it was: none of the changes
-- is made, those in front of it and those behind it included.
pub on_change-Invalid :
    (u : Utf8) (lines : Bytes → List ℕ)
    → IsDecoder u
    → (doc : SlangDoc) (x y : Bytes) (before after : List ContentChange) (range : Range)
      (inserted : Bytes)
    → doc.text ≡ held x
    → AppliesAll u lines x before y
    → Invalid u (lines (held y)) (held y) range
    → on_change u lines doc (before ++ partial range inserted ∷ after) ≡ doc
unfolding replace_buffer later_changes next_change
on_change-Invalid u lines d doc x y before after range inserted e h bad =
    rw
      (
        on_change-nonempty u lines doc (before ++ partial range inserted ∷ after) some_change
            (rw e (held-terminated u lines x)),
        e,
        later_changes-AppliesAll u lines d (partial range inserted ∷ after) h,
        get_offsets-Invalid u lines d bad,
      )
      refl
  where
    some_change : 0 < length (before ++ partial range inserted ∷ after)
    some_change = omega (arith, length-append before (partial range inserted ∷ after))
