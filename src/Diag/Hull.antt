-- ===== src/Diag/Hull.antt =====
-- src/ServerDiagClient.cpp: the one range that `getLocation` makes of a location and its ranges.
use slang_server_verilator.Diag.Report.{
  Services, before, widen, collapse, include_location, get_location,
}
use slang_server_verilator.Diag.Types.{SourceLocation, SourceRange}
use slang_server_verilator.Prelude.{
  ℕ, ◌≤◌, ◌==◌, false, List, [], ◌∷◌, ◌++◌, ◌≡◌, ◌≢◌, refl, sym, ◌∙◌, some, arith, if◌then◌else◌,
  ==_iff, Bool-cases, inl, inr,
}

-- `r` lies in `t`: its start is in the same buffer and not before, and its end is not after, where a
-- location in a later buffer is after.
pub record Encloses (t r : SourceRange) : Type 0 where
  pub buffer_eq : r.start.buffer ≡ t.start.buffer
  pub starts : t.start.offset ≤ r.start.offset
  pub ends : before t.end r.end ≡ false

before_self : (l : SourceLocation) → before l l ≡ false
before_self l = ground arith

Encloses-trans : (t r s : SourceRange) → Encloses t r → Encloses r s → Encloses t s
Encloses-trans t r s h k = ground arith

widen-Encloses-left : (t r : SourceRange) → Encloses (widen t r) t
unfolding widen
widen-Encloses-left t r = ground arith

widen-Encloses-right :
    (t r : SourceRange) → r.start.buffer ≡ t.start.buffer → Encloses (widen t r) r
unfolding widen
widen-Encloses-right t r e = ground arith

-- A range that holds both holds the widened one.
widen_least :
    (t r s : SourceRange)
    → Encloses s t
    → (r.start.buffer ≡ t.start.buffer → Encloses s r)
    → Encloses s (widen t r)
unfolding widen
widen_least t r s h k = elim (Bool-cases (r.start.buffer == t.start.buffer)) [
  | inl e ↦ let kr = k (ground arith) in ground arith
  | inr e ↦ ground arith
]

collapse-Encloses-first : (t : SourceRange) (rs : List SourceRange) → Encloses (collapse t rs) t
unfolding collapse
collapse-Encloses-first t [] = record {
  buffer_eq = refl;
  starts = omega arith;
  ends = before_self t.end;
}
collapse-Encloses-first t (r ∷ rs) =
    Encloses-trans (collapse (widen t r) rs) (widen t r) t (collapse-Encloses-first (widen t r) rs)
      (widen-Encloses-left t r)

-- Every range that starts in buffer `b` lies in `t`.
abbrev pub EnclosesAll : ℕ → SourceRange → List SourceRange → Type 0
EnclosesAll b t [] = Unit {0}
EnclosesAll b t (r ∷ rs) = (r.start.buffer ≡ b → Encloses t r) × EnclosesAll b t rs

collapse-EnclosesAll :
    (t : SourceRange) (rs : List SourceRange) (b : ℕ)
    → b ≡ t.start.buffer
    → EnclosesAll b (collapse t rs) rs
unfolding collapse
collapse-EnclosesAll t [] b e = tt
collapse-EnclosesAll t (r ∷ rs) b e = (
  λ h.
      Encloses-trans (collapse (widen t r) rs) (widen t r) r
        (collapse-Encloses-first (widen t r) rs) (widen-Encloses-right t r (h ∙ e)),
  collapse-EnclosesAll (widen t r) rs b (e ∙ (widen-Encloses-left t r).buffer_eq),
)

collapse_least :
    (t : SourceRange) (rs : List SourceRange) (b : ℕ) (s : SourceRange)
    → b ≡ t.start.buffer
    → Encloses s t
    → EnclosesAll b s rs
    → Encloses s (collapse t rs)
unfolding collapse
collapse_least t [] b s e h k = h
collapse_least t (r ∷ rs) b s e h (k, ks) =
    collapse_least (widen t r) rs b s (e ∙ (widen-Encloses-left t r).buffer_eq)
      (widen_least t r s h (λ q. k (q ∙ sym e))) ks

-- `t` is the smallest range that holds the first range and all ranges that start in its buffer.
pub record IsHull (t r : SourceRange) (rs : List SourceRange) : Type 0 where
  pub first : Encloses t r
  pub others : EnclosesAll r.start.buffer t rs
  pub least : (s : SourceRange) → Encloses s r → EnclosesAll r.start.buffer s rs → Encloses s t

-- A location in `t`
abbrev pub At : SourceLocation → SourceRange
At l = record { start = l; end = l }

collapse-IsHull : (r : SourceRange) (rs : List SourceRange) → IsHull (collapse r rs) r rs
collapse-IsHull r rs = record {
  first = collapse-Encloses-first r rs;
  others = collapse-EnclosesAll r rs r.start.buffer refl;
  least = λ s h k. collapse_least r rs r.start.buffer s refl h k;
}

include_location_none :
    (sv : Services) (loc : SourceLocation) (t : SourceRange)
    → loc.buffer ≡ sv.no_location.buffer
    → include_location sv loc t ≡ t
unfolding include_location
include_location_none sv loc t e = ground arith

-- The location widens the range as the range from it to itself would.
include_location-widen :
    (sv : Services) (loc : SourceLocation) (t : SourceRange)
    → loc.buffer ≢ sv.no_location.buffer
    → include_location sv loc t ≡ widen t (At loc)
unfolding include_location widen
include_location-widen sv loc t n = ground arith

collapse-concat :
    (t : SourceRange) (rs : List SourceRange) (q : SourceRange)
    → collapse t (rs ++ q ∷ []) ≡ widen (collapse t rs) q
unfolding collapse
collapse-concat t [] q = refl
collapse-concat t (r ∷ rs) q = collapse-concat (widen t r) rs q

-- The ranges that count beside the first: the location is one, if it is a location at all.
abbrev pub with_location : Services → SourceLocation → List SourceRange → List SourceRange
with_location sv loc rs = if loc.buffer == sv.no_location.buffer then rs else rs ++ At loc ∷ []

-- With at least one range, `getLocation` converts the smallest range that holds the first range,
-- and every other range, and the location if there is one, that starts in the first one's buffer. An end in a
-- later buffer is behind, as it is for slang.
pub get_location-IsHull :
    (sv : Services) (loc : SourceLocation) (r : SourceRange) (rs : List SourceRange)
    → (t : SourceRange) × (get_location sv loc (r ∷ rs) ≡ some (sv.to_range_location t))
      × IsHull t r (with_location sv loc rs)
unfolding get_location
get_location-IsHull sv loc r rs = elim (Bool-cases (loc.buffer == sv.no_location.buffer)) [
  | inl e ↦ (
    collapse r rs,
    rw (include_location_none sv loc (collapse r rs) ((==_iff _ _).0 e)),
    rw e (collapse-IsHull r rs),
  )
  | inr e ↦ (
    collapse r (rs ++ At loc ∷ []),
    rw (include_location-widen sv loc (collapse r rs) (λ q. ground arith))
        (rw (← collapse-concat r rs (At loc))),
    rw e (collapse-IsHull r (rs ++ At loc ∷ [])),
  )
]
