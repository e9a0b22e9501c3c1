-- ===== src/Tokens/Inactive.antt =====
-- document/SemanticTokens.cpp: `isInactive`, on the offsets of the disabled regions.
use slang_server_verilator.Prelude.{
  ℕ, ◌≤◌, ◌<◌, Bool, false, ◌&&◌, ◌||◌, List, [], ◌∷◌, ◌≡◌, refl, Option, none, some, arith,
  if◌then◌else◌, ltb, leb,
}

-- A `SourceRange` of the buffer
pub record DisabledRange : Type 0 where
  pub start : ℕ
  pub end : ℕ

-- The range in front of `std::partition_point`
unfoldable pub last_starting : List DisabledRange → ℕ → Option DisabledRange → Option DisabledRange
last_starting [] offset last = last
last_starting (range ∷ ranges) offset last =
    let rest = last_starting ranges offset (some range) in
    if leb range.start offset then rest else last

ends_behind : ℕ → Option DisabledRange → Bool
ends_behind offset none = false
ends_behind offset (some range) = ltb offset range.end

-- `isInactive` of a token's offset
unfoldable pub is_inactive : List DisabledRange → ℕ → Bool
unfolding ends_behind
is_inactive ranges offset = ends_behind offset (last_starting ranges offset none)

-- Some range contains the offset.
pub any_contains : List DisabledRange → ℕ → Bool
any_contains [] offset = false
any_contains (range ∷ ranges) offset =
    (leb range.start offset && ltb offset range.end) || any_contains ranges offset

-- The ranges are in order and do not overlap; the first starts at `from` or behind it.
pub data IsOrdered : ℕ → List DisabledRange → Type 0 where
  no_ranges : (from : ℕ) → IsOrdered from []
  then_range :
      (from : ℕ) (range : DisabledRange) (ranges : List DisabledRange)
      → from ≤ range.start
      → range.start ≤ range.end
      → IsOrdered range.end ranges
      → IsOrdered from (range ∷ ranges)

none-contains :
    (from : ℕ) (ranges : List DisabledRange) (offset : ℕ)
    → IsOrdered from ranges
    → offset < from
    → any_contains ranges offset ≡ false
unfolding any_contains
none-contains from [] offset (no_ranges _) h = refl
none-contains from (range ∷ ranges) offset (then_range _ _ _ a b o) h =
    ground (arith, h, a, b, none-contains range.end ranges offset o (omega arith))

last_starting-contains :
    (from : ℕ) (ranges : List DisabledRange) (offset : ℕ) (last : DisabledRange)
    → IsOrdered from ranges
    → last.end ≤ from
    → ends_behind offset (last_starting ranges offset (some last))
      ≡ (ltb offset last.end || any_contains ranges offset)
unfolding last_starting any_contains ends_behind
last_starting-contains from [] offset last (no_ranges _) h = ground arith
last_starting-contains from (range ∷ ranges) offset last (then_range _ _ _ a b o) h = ground (
  arith,
  h,
  a,
  b,
  last_starting-contains range.end ranges offset range o (omega arith),
  none-contains range.end ranges offset o,
)

-- When the disabled regions are in order and do not overlap, a token is inactive exactly when one
-- of them contains its offset.
pub is_inactive-any_contains :
    (from : ℕ) (ranges : List DisabledRange) (offset : ℕ)
    → IsOrdered from ranges
    → is_inactive ranges offset ≡ any_contains ranges offset
unfolding is_inactive last_starting any_contains ends_behind
is_inactive-any_contains from [] offset o = refl
is_inactive-any_contains from (range ∷ ranges) offset (then_range _ _ _ a b o) = ground (
  arith,
  a,
  b,
  last_starting-contains range.end ranges offset range o (omega arith),
  none-contains range.end ranges offset o,
)
