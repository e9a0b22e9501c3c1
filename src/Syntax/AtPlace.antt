-- ===== src/Syntax/AtPlace.antt =====
-- document/SyntaxIndexer.cpp: `getWordTokenAt` finds the word that contains a place.
use mathlib.Core.List.{Memᴰ}
use mathlib.Core.List.Memᴰ
use mathlib.Core.Logic.{⊎_elim}
use slang_server_verilator.Prelude.{
  ℕ, ◌≤◌, ◌<◌, true, List, [], ◌∷◌, ◌≡◌, refl, sym, ◌∙◌, subst, arith, ◌==◌, inl, inr, some,
  Option-cases,
}
use slang_server_verilator.Syntax.Index.{
  Token, SourceLocation, SyntaxIndexer, editor_contains, is_id_token, word_at, or_else,
  get_word_token_at,
}
use slang_server_verilator.Syntax.Word.{
  IsOrdered, then_token, find_word, word_at-behind, get_word_token_at-find_word,
}

-- A word of the tokens that starts by the offset
pub record IsWord (tokens : List Token) (offset : ℕ) (token : Token) : Type 0 where
  pub listed : Memᴰ token tokens
  pub is_word : is_id_token token.kind ≡ true
  pub starts : token.start ≤ offset

word_at-some :
    (offset : ℕ) (t token : Token)
    → word_at offset token ≡ some t
    → (token ≡ t) × (is_id_token token.kind ≡ true) × (token.start ≤ offset) × (offset < token.end)
unfolding word_at editor_contains
word_at-some offset t token h =
    (ground (arith, h), ground (arith, h), ground (arith, h), ground (arith, h))

find_word_sound :
    (tokens : List Token) (offset : ℕ) (t : Token)
    → find_word tokens offset ≡ some t
    → IsWord tokens offset t × (offset < t.end)
unfolding find_word or_else
find_word_sound [] offset t h = absurd (ground (arith, h))
find_word_sound (token ∷ tokens) offset t h = elim (Option-cases (word_at offset token)) [
  | inl e ↦
      let (w, b) = find_word_sound tokens offset t (rw (e) at h) in
      (record { listed = Memᴰ.tail w.listed; is_word = w.is_word; starts = w.starts }, b)
  | inr (x, e) ↦
      let found : some x ≡ some t = rw (e) at h in
      let (same, k, s, b) = word_at-some offset t token (e ∙ found) in
      (
        record {
          listed = Memᴰ.head (sym same);
          is_word = subst (λ z. is_id_token z.kind ≡ true) same k;
          starts = subst (λ z. z.start ≤ offset) same s;
        },
        subst (λ z. offset < z.end) same b,
      )
]

starts_behind :
    (from : ℕ) (tokens : List Token) (t : Token)
    → IsOrdered from tokens
    → Memᴰ t tokens
    → from ≤ t.start
starts_behind from [] t o h = absurd (Memᴰ.not-nil h)
starts_behind from (token ∷ tokens) t (then_token _ _ _ a b o) h =
    ⊎_elim (λ e. subst (λ z. from ≤ z.start) (sym e) a)
      (λ r. omega (arith, a, b, starts_behind token.end tokens t o r)) (Memᴰ.cases_cons h)

find_word_complete :
    (from : ℕ) (tokens : List Token) (offset : ℕ) (t : Token)
    → IsOrdered from tokens
    → IsWord tokens offset t
    → offset < t.end
    → find_word tokens offset ≡ some t
unfolding find_word or_else
find_word_complete from [] offset t o w b = absurd (Memᴰ.not-nil w.listed)
find_word_complete from (token ∷ tokens) offset t (then_token _ _ _ p q o) w b =
    ⊎_elim
      (λ e.
        let here : word_at offset t ≡ some t = word_here in
        subst (λ z. or_else (word_at offset z) (find_word tokens offset) ≡ some t) e
          (rw (here) refl))
      (λ r.
        let behind = starts_behind token.end tokens t o r in
        rw (word_at-behind offset token (omega (arith, behind, w.starts))) (
          find_word_complete token.end tokens offset t o
            (record { listed = r; is_word = w.is_word; starts = w.starts }) b))
      (Memᴰ.cases_cons w.listed)
  where
    word_here : word_at offset t ≡ some t
    word_here = unfold word_at in unfold editor_contains in ground (arith, w.is_word, w.starts, b)

-- When the tokens of the buffer are in order and do not overlap, what `getWordTokenAt` gives for a
-- place in the buffer is a word token that starts by the place and does not end before it; and a word
-- token that contains the place, its end left out, is what it gives. (Of a word that ends at the place
-- this says neither that it is given nor that it is not.)
pub get_word_token_at-IsWord :
    (s : SyntaxIndexer) (loc : SourceLocation) (from : ℕ)
    → (loc.buffer == s.buffer) ≡ true
    → IsOrdered from s.collected
    → ((t : Token)
        → get_word_token_at s loc ≡ some t
        → IsWord s.collected loc.offset t × (loc.offset ≤ t.end))
      × ((t : Token)
          → IsWord s.collected loc.offset t
          → loc.offset < t.end
          → get_word_token_at s loc ≡ some t)
get_word_token_at-IsWord s loc from e o =
    let all = get_word_token_at-find_word s loc from e o in
    (
      λ t h.
          let (w, b) = find_word_sound s.collected loc.offset t (sym all ∙ h) in
          (w, omega (arith, b)),
      λ t w b. all ∙ find_word_complete from s.collected loc.offset t o w b,
    )
