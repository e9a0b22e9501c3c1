-- ===== src/Server/Fuzzy.antt =====
-- src/SlangServer.cpp: `fuzzyMatch`, on bytes below 256.

use slang_server_verilator.Format.Case.{to_lower}
use slang_server_verilator.Prelude.{
  ℕ, Bool, true, false, [], ◌∷◌, ◌≡◌, refl, ◌↔◌, map, inl, inr, arith, if◌then◌else◌, ◌==◌, Bytes,
  Bool-cases, ==_iff, subst, ◌⊎◌,
}
use mathlib.Core.Logic.{⊎_elim}

-- What is left of the query when the candidate has been read
unfoldable pub fuzzy_scan : Bytes → Bytes → Bytes
fuzzy_scan query [] = query
fuzzy_scan [] (c ∷ candidate) = []
fuzzy_scan (q ∷ query) (c ∷ candidate) =
    fuzzy_scan (if to_lower c == to_lower q then query else q ∷ query) candidate

abbrev pub is_empty : Bytes → Bool
is_empty [] = true
is_empty (c ∷ cs) = false

-- `fuzzyMatch`
unfoldable pub fuzzy_match : Bytes → Bytes → Bool
fuzzy_match query candidate = is_empty (fuzzy_scan query candidate)

-- The text of the first is a part of the second, in its order, but perhaps with gaps.
pub data Within : Bytes → Bytes → Type 0 where
  stop : {cs : Bytes} → Within [] cs
  skip : {qs cs : Bytes} {c : ℕ} → Within qs cs → Within qs (c ∷ cs)
  take_one : {qs cs : Bytes} {c : ℕ} → Within qs cs → Within (c ∷ qs) (c ∷ cs)

abbrev pub lower : Bytes → Bytes
lower = map to_lower

Within-nil : {q : ℕ} {qs : Bytes} → ¬ Within (q ∷ qs) []
Within-nil w = elim w [ ]

Within-tail : {q : ℕ} {qs cs : Bytes} → Within (q ∷ qs) cs → Within qs cs
Within-tail (skip w) = skip (Within-tail w)
Within-tail (take_one w) = skip w

Within-same : {q c : ℕ} {qs cs : Bytes} → c ≡ q → Within qs cs → Within (q ∷ qs) (c ∷ cs)
Within-same {q} {c} {qs} {cs} e w = subst (λ x. Within (x ∷ qs) (c ∷ cs)) e (take_one w)

fuzzy_scan_sound : (q c : Bytes) → is_empty (fuzzy_scan q c) ≡ true → Within (lower q) (lower c)
unfolding fuzzy_scan
fuzzy_scan_sound [] c h = stop
fuzzy_scan_sound (q ∷ qs) [] h = absurd (ground (arith, h))
fuzzy_scan_sound (q ∷ qs) (c ∷ cs) h = elim (Bool-cases (to_lower c == to_lower q)) [
  | inl e ↦ Within-same ((==_iff _ _).0 e) (fuzzy_scan_sound qs cs (rw (fuzzy_scan, e) at h))
  | inr e ↦ skip (fuzzy_scan_sound (q ∷ qs) cs (rw (fuzzy_scan, e) at h))
]

fuzzy_scan-nil : (c : Bytes) → fuzzy_scan [] c ≡ []
unfolding fuzzy_scan
fuzzy_scan-nil [] = refl
fuzzy_scan-nil (c ∷ cs) = refl

Within-pass : {q c : ℕ} {qs cs : Bytes} → Within (q ∷ qs) (c ∷ cs) → (c ≡ q) ⊎ Within (q ∷ qs) cs
Within-pass (skip w) = inr w
Within-pass (take_one w) = inl refl

Within-drop : {q c : ℕ} {qs cs : Bytes} → Within (q ∷ qs) (c ∷ cs) → Within qs cs
Within-drop (skip w) = Within-tail w
Within-drop (take_one w) = w

fuzzy_scan_complete : (q c : Bytes) → Within (lower q) (lower c) → fuzzy_scan q c ≡ []
unfolding fuzzy_scan
fuzzy_scan_complete [] c w = fuzzy_scan-nil c
fuzzy_scan_complete (q ∷ qs) [] w = absurd (Within-nil w)
fuzzy_scan_complete (q ∷ qs) (c ∷ cs) w = elim (Bool-cases (to_lower c == to_lower q)) [
  | inl e ↦ rw (e) (fuzzy_scan_complete qs cs (Within-drop w))
  | inr e ↦ rw (e) (
      fuzzy_scan_complete (q ∷ qs) cs
        (⊎_elim (λ same. absurd (ground (arith, same, e))) (λ t. t) (Within-pass w)))
]

-- `fuzzyMatch` says whether the query, in lower case, is within the candidate, in lower case.
pub fuzzy_match_iff : (q c : Bytes) → (fuzzy_match q c ≡ true) ↔ Within (lower q) (lower c)
unfolding fuzzy_match
fuzzy_match_iff q c = (fuzzy_scan_sound q c, λ w. rw (fuzzy_scan_complete q c w) refl)
