-- ===== src/Format/Case.antt =====
-- src/util/Formatting.cpp: `toCamelCase`, with <cctype> in the C locale.
use slang_server_verilator.Prelude.{
  ℕ, ◌+◌, false, ◌&&◌, [], ◌∷◌, map, ◌≡◌, refl, arith, if◌then◌else◌, Bytes,
}
use slang_server_verilator.Text.{is_upper}

-- `std::tolower`
unfoldable pub to_lower : ℕ → ℕ
to_lower c = if is_upper c then c + 32 else c

-- The loop, from its current byte to the end
unfoldable pub lower_run : ℕ → Bytes → Bytes
lower_run c [] = to_lower c ∷ []
lower_run c (d ∷ s) =
    let rest = lower_run d s in if is_upper c && is_upper d then to_lower c ∷ rest else c ∷ d ∷ s

-- `toCamelCase`
unfoldable pub to_camel_case : Bytes → Bytes
to_camel_case [] = []
to_camel_case (c ∷ []) = to_lower c ∷ []
to_camel_case (c ∷ d ∷ s) = to_lower c ∷ lower_run d s

to_lower-again : (c : ℕ) → to_lower (to_lower c) ≡ to_lower c
unfolding to_lower is_upper
to_lower-again c = ground arith

lower_again : Bytes → Bytes
lower_again [] = []
lower_again (c ∷ s) = lower_run c s

to_lower-not_upper : (c : ℕ) → is_upper (to_lower c) ≡ false
unfolding to_lower is_upper
to_lower-not_upper c = ground arith

lower_run-lower : (c : ℕ) (s : Bytes) → lower_run (to_lower c) s ≡ to_lower c ∷ s
unfolding lower_run
lower_run-lower c [] = ground (arith, to_lower-again c)
lower_run-lower c (d ∷ s) = ground (arith, to_lower-not_upper c)

lower_run-again : (c : ℕ) (s : Bytes) → lower_again (lower_run c s) ≡ lower_run c s
unfolding lower_again lower_run
lower_run-again c [] = ground (arith, to_lower-again c)
lower_run-again c (d ∷ s) = ground (arith, lower_run-lower c (lower_run d s))

map-lower_run : (c : ℕ) (s : Bytes) → map to_lower (lower_run c s) ≡ to_lower c ∷ map to_lower s
unfolding lower_run
map-lower_run c [] = ground (arith, to_lower-again c)
map-lower_run c (d ∷ s) = ground (arith, to_lower-again c, map-lower_run d s)

to_camel_case-cons : (c : ℕ) (s : Bytes) → to_camel_case (c ∷ s) ≡ to_lower c ∷ lower_again s
unfolding to_camel_case lower_again
to_camel_case-cons c [] = refl
to_camel_case-cons c (d ∷ s) = refl

-- A name in camel case is left as it is by `toCamelCase`, and no name changes but in the case of its
-- letters.
pub to_camel_case-again :
    (s : Bytes)
    → (to_camel_case (to_camel_case s) ≡ to_camel_case s)
      × (map to_lower (to_camel_case s) ≡ map to_lower s)
unfolding to_camel_case
to_camel_case-again [] = (refl, refl)
to_camel_case-again (c ∷ []) = (ground (arith, to_lower-again c), ground (arith, to_lower-again c))
to_camel_case-again (c ∷ d ∷ s) = (
  ground (
    arith,
    to_camel_case-cons (to_lower c) (lower_run d s),
    to_lower-again c,
    lower_run-again d s,
  ),
  ground (arith, to_lower-again c, map-lower_run d s),
)
