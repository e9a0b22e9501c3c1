-- ===== src/Syntax/Search.antt =====
-- document/SyntaxIndexer.cpp: the binary search for the last token that starts by an offset.
use slang_server_verilator.Prelude.{
  ℕ, zero, suc, ◌+◌, ◌-◌, ◌/◌, ◌≤◌, ◌<◌, true, false, List, [], ◌∷◌, ◌++◌, ◌≡◌, refl, ap, arith,
  ◌==◌, ltb, length, Bool-cases, inl, inr, ◌⊎◌, none, some,
}
use slang_server_verilator.Syntax.Index.{
  Token, SourceLocation, SyntaxIndexer, starts_by, search_index, token_index_before,
}

starts_by-out :
    (tokens : List Token) (i offset : ℕ) → length tokens ≤ i → starts_by tokens i offset ≡ false
unfolding starts_by
starts_by-out [] i offset h = refl
starts_by-out (token ∷ tokens) zero offset h = absurd (omega arith)
starts_by-out (token ∷ tokens) (suc i) offset h = starts_by-out tokens i offset (omega arith)

last-low : (low high : ℕ) → low < high → high ≤ low + 1 → suc low ≡ high
last-low low high h k = omega arith

stopped-low : (low high : ℕ) → low < high → ltb (low + 1) high ≡ false → suc low ≡ high
stopped-low low high h k = ground (arith, h, k)

-- Bounds of the halves
middle :
    (low high f : ℕ)
    → ltb (low + 1) high ≡ true
    → high ≤ low + suc (suc f)
    → (low < low + (high - low) / 2)
      × (low + (high - low) / 2 < high)
      × (high ≤ low + (high - low) / 2 + suc f)
      × (low + (high - low) / 2 ≤ low + suc f)
middle low high f h k = ground (arith, h, k)

-- The fuel is enough: what is found starts by the offset, and the token behind it does not.
pub search_index-lem :
    (tokens : List Token) (offset f low high : ℕ)
    → low < high
    → high ≤ low + suc f
    → starts_by tokens low offset ≡ true
    → starts_by tokens high offset ≡ false
    → (starts_by tokens (search_index tokens offset f low high) offset ≡ true)
      × (starts_by tokens (suc (search_index tokens offset f low high)) offset ≡ false)
unfolding search_index
search_index-lem tokens offset zero low high h fuel a b = (a, rw (last-low low high h fuel) b)
search_index-lem tokens offset (suc f) low high h fuel a b =
    elim (Bool-cases (ltb (low + 1) high)) [
      | inl more ↦
          let bounds = middle low high f more fuel in
          rw more (elim (Bool-cases (starts_by tokens (low + (high - low) / 2) offset)) [
            | inl below ↦ rw below (
                search_index-lem tokens offset f (low + (high - low) / 2) high bounds.1 bounds.2
                  below b)
            | inr above ↦ rw above (
                search_index-lem tokens offset f low (low + (high - low) / 2) bounds.0 bounds.3 a
                  above)
          ])
      | inr done ↦ rw done (a, rw (stopped-low low high h done) b)
    ]

-- Where the tokens are split by what is found
pub record Split (tokens : List Token) (offset index : ℕ) : Type 0 where
  pub front : List Token
  pub token : Token
  pub back : List Token
  pub whole : tokens ≡ front ++ token ∷ back
  pub in_front : length front ≡ index
  pub starts : token.start ≤ offset
  pub later : starts_by back 0 offset ≡ false

pub split :
    (tokens : List Token) (offset index : ℕ)
    → starts_by tokens index offset ≡ true
    → starts_by tokens (suc index) offset ≡ false
    → Split tokens offset index
unfolding starts_by
split [] offset index h k = absurd (ground (arith, h))
split (token ∷ tokens) offset zero h k = record {
  front = [];
  token = token;
  back = tokens;
  whole = refl;
  in_front = refl;
  starts = ground (arith, h);
  later = k;
}
split (token ∷ tokens) offset (suc index) h k =
    let rest = split tokens offset index h k in
    record {
      front = token ∷ rest.front;
      token = rest.token;
      back = rest.back;
      whole = ap (λ z. token ∷ z) rest.whole;
      in_front = ap suc rest.in_front;
      starts = rest.starts;
      later = rest.later;
    }

-- What the index is, in a buffer with tokens: none when the first token starts behind the offset,
-- and otherwise that of a token that starts by it while the next does not
pub token_index_before-cases :
    (s : SyntaxIndexer) (loc : SourceLocation)
    → (loc.buffer == s.buffer) ≡ true
    → ((token_index_before s loc ≡ none) × (starts_by s.collected 0 loc.offset ≡ false))
      ⊎ ((index : ℕ) × (token_index_before s loc ≡ some index) × Split s.collected loc.offset index)
unfolding token_index_before
token_index_before-cases s loc e = elim (Bool-cases (starts_by s.collected 0 loc.offset)) [
  | inl h ↦
      let found =
        search_index-lem s.collected loc.offset (length s.collected) 0 (length s.collected)
          (some_token s.collected h) (omega arith) h
          (starts_by-out s.collected (length s.collected) loc.offset (omega arith)) in
      inr (
        search_index s.collected loc.offset (length s.collected) 0 (length s.collected),
        rw (e, h, not-empty (length s.collected) (some_token s.collected h)) refl,
        split s.collected loc.offset _ found.0 found.1,
      )
  | inr h ↦ inl (rw (e, h) (ground arith), h)
]
  where
    not-empty : (n : ℕ) → 0 < n → (n == 0) ≡ false
    not-empty n h = ground (arith, h)

    some_token : (tokens : List Token) → starts_by tokens 0 loc.offset ≡ true → 0 < length tokens
    some_token [] h = absurd (ground (arith, h, starts_by-out [] 0 loc.offset (omega arith)))
    some_token (t ∷ ts) h = omega arith
