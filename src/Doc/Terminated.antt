-- ===== src/Doc/Terminated.antt =====
-- document/SlangDoc.cpp: the buffer keeps its terminating NUL.
use slang_server_verilator.Diag.Types.{Range}
use slang_server_verilator.Doc.Change.{
  ContentChange, partial, whole_document, SlangDoc, get_offset, get_offsets, ends_with_null,
  ensure_null_terminated, first_change, replace_between, next_change, later_changes, replace_buffer,
  on_change,
}
use slang_server_verilator.Position.Utf8.{Utf8}
use slang_server_verilator.Prelude.{
  ℕ, zero, suc, ◌≤◌, ◌<◌, true, false, ◌||◌, List, [], ◌∷◌, ◌++◌, ◌≡◌, refl, none, some, arith, inl,
  inr, Bool-cases, Option-cases, >>=-some, take-append, drop-append, length-take, if◌then◌else◌,
  ltb, leb, Bytes, length, take, drop,
}

pub ends_with_null-append : (a b : Bytes) → ends_with_null b ≡ true → ends_with_null (a ++ b) ≡ true
unfolding ends_with_null
ends_with_null-append [] b h = h
ends_with_null-append (c ∷ []) (d ∷ b) h = h
ends_with_null-append (c ∷ d ∷ a) b h = ends_with_null-append (d ∷ a) b h
ends_with_null-append (c ∷ []) [] h = absurd (ground (arith, h))

ends_with_null-drop :
    (n : ℕ) (a : Bytes) → ends_with_null a ≡ true → n < length a → ends_with_null (drop n a) ≡ true
unfolding ends_with_null
ends_with_null-drop zero a e h = e
ends_with_null-drop (suc n) [] e h = absurd (omega arith)
ends_with_null-drop (suc n) (c ∷ []) e h = absurd (omega arith)
ends_with_null-drop (suc n) (c ∷ d ∷ a) e h = ends_with_null-drop n (d ∷ a) e (omega arith)

pub ensure_null_terminated-lem : (a : Bytes) → ends_with_null (ensure_null_terminated a) ≡ true
unfolding ensure_null_terminated ends_with_null
ensure_null_terminated-lem a = ground (arith, ends_with_null-append a (0 ∷ []) refl)

in-order :
    (a b n : ℕ) (o : ℕ × ℕ)
    → (if ltb b a || leb n b then none else some (a, b)) ≡ some o
    → (o.0 ≤ o.1) × (o.1 < n)
in-order a b n o h = ground (arith, h)

ensure_null_terminated-same : (a : Bytes) → ends_with_null a ≡ true → ensure_null_terminated a ≡ a
unfolding ensure_null_terminated
ensure_null_terminated-same a h = rw h refl

-- A range that is accepted lies in the text.
pub get_offsets-bounds :
    (u : Utf8) (lines : Bytes → List ℕ) (text : Bytes) (range : Range) {o : ℕ × ℕ}
    → get_offsets u lines text range ≡ some o
    → (o.0 ≤ o.1) × (o.1 < length text)
unfolding get_offsets
get_offsets-bounds u lines text range {o} h =
    let first = >>=-some (get_offset u (lines text) text range.start) _ h in
    let second = >>=-some (get_offset u (lines text) text range.end) _ first.2 in
    in-order first.0 second.0 (length text) o second.2

spliced-terminated :
    (a b : ℕ) (text inserted : Bytes)
    → b < length text
    → ends_with_null text ≡ true
    → ends_with_null (take a text ++ inserted ++ drop b text) ≡ true
spliced-terminated a b text inserted h e =
    ends_with_null-append (take a text ++ inserted) (drop b text) (ends_with_null-drop b text e h)

-- Erasing and inserting in place is the splice of a fresh buffer.
pub replace_between-splice :
    (buffer : Bytes) (o : ℕ × ℕ) (inserted : Bytes)
    → o.0 ≤ o.1
    → o.1 < length buffer
    → replace_between buffer o inserted ≡ take o.0 buffer ++ inserted ++ drop o.1 buffer
unfolding replace_between
replace_between-splice buffer (a, b) inserted h k = elim (Bool-cases (ltb a b)) [
  | inl e ↦
      rw
        (
          e,
          take-append (take a buffer) (drop b buffer) a in_front,
          drop-append (take a buffer) (drop b buffer) a in_front,
        )
        refl
  | inr e ↦ rw (e, same e) refl
]
  where
    in_front : length (take a buffer) ≡ a
    in_front = omega (arith, length-take a buffer)

    same : ltb a b ≡ false → a ≡ b
    same e = ground (arith, e)

module _ (u : Utf8) (lines : Bytes → List ℕ) where
  pub next_change-splice :
      (text : Bytes) (range : Range) (inserted : Bytes) (o : ℕ × ℕ)
      → get_offsets u lines text range ≡ some o
      → next_change u lines text (partial range inserted)
        ≡ some (take o.0 text ++ inserted ++ drop o.1 text)
  unfolding next_change
  next_change-splice text range inserted o h =
      rw
        (
          h,
          replace_between-splice text o inserted (get_offsets-bounds u lines text range h).0
              (get_offsets-bounds u lines text range h).1,
        )
        refl

  next_change-terminated :
      (text : Bytes) (c : ContentChange) {x : Bytes}
      → ends_with_null text ≡ true
      → next_change u lines text c ≡ some x
      → ends_with_null x ≡ true
  unfolding next_change
  next_change-terminated text (partial range inserted) e h =
      let found = >>=-some (get_offsets u lines text range) _ h in
      let inside = get_offsets-bounds u lines text range found.1 in
      ground (
        arith,
        h,
        next_change-splice text range inserted found.0 found.1,
        spliced-terminated found.0.0 found.0.1 text inserted inside.1 e,
      )
  next_change-terminated text (whole_document inserted) e h =
      ground (arith, ensure_null_terminated-lem inserted, h)

  -- The first change does to a terminated text what a later one does.
  pub first_change-next_change :
      (text : Bytes) (c : ContentChange)
      → ends_with_null text ≡ true
      → first_change u lines text c ≡ next_change u lines text c
  unfolding first_change next_change ensure_null_terminated
  first_change-next_change text (whole_document inserted) e = refl
  first_change-next_change text (partial range inserted) e =
      elim (Option-cases (get_offsets u lines text range)) [
        | inl h ↦ rw h refl
        | inr h ↦
            let inside = get_offsets-bounds u lines text range h.1 in
            rw
              (
                h.1,
                replace_between-splice text h.0 inserted inside.0 inside.1,
                ensure_null_terminated-same _
                    (spliced-terminated h.0.0 h.0.1 text inserted inside.1 e),
              )
              refl
      ]

  later_changes-terminated :
      (text : Bytes) (cs : List ContentChange) {x : Bytes}
      → ends_with_null text ≡ true
      → later_changes u lines text cs ≡ some x
      → ends_with_null x ≡ true
  unfolding later_changes
  later_changes-terminated text [] e h = ground (arith, h)
  later_changes-terminated text (c ∷ cs) e h =
      let one = >>=-some (next_change u lines text c) _ h in
      later_changes-terminated one.0 cs (next_change-terminated text c e one.1) one.2

  -- On a terminated text, `onChange` makes all changes as later ones.
  pub on_change-later_changes :
      (doc : SlangDoc) (c : ContentChange) (cs : List ContentChange)
      → ends_with_null doc.text ≡ true
      → on_change u lines doc (c ∷ cs)
        ≡ replace_buffer doc (later_changes u lines doc.text (c ∷ cs))
  unfolding on_change later_changes
  on_change-later_changes doc c cs e = rw (first_change-next_change doc.text c e) refl

  -- A text that ends with NUL does so after `onChange` of any changes, whatever their ranges: also
  -- when they are none and when one of them is out of bounds.
  pub on_change-terminated :
      (doc : SlangDoc) (cs : List ContentChange)
      → ends_with_null doc.text ≡ true
      → ends_with_null (on_change u lines doc cs).text ≡ true
  unfolding on_change replace_buffer
  on_change-terminated doc [] e = e
  on_change-terminated doc (c ∷ cs) e =
      rw (on_change-later_changes doc c cs e)
        (elim (Option-cases (later_changes u lines doc.text (c ∷ cs))) [
          | inl h ↦ rw h e
          | inr h ↦ rw h.1 (later_changes-terminated doc.text (c ∷ cs) e h.1)
        ])
