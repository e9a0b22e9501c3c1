-- ===== src/Index/Exclusion.antt =====
-- src/Indexer.cpp: `ExclusionSet::containsDirectoryOrAncestor`, with its two ways to search.
use slang_server_verilator.Assoc.{contains}
use slang_server_verilator.Prelude.{
  ℕ, zero, suc, ◌≤◌, Bool, true, false, ◌&&◌, ◌||◌, List, [], ◌∷◌, ◌≡◌, refl, arith, if◌then◌else◌,
  ◌==◌, leb, Bytes, list_eq, list_eqb, length,
}
use slang_server_verilator.Text.{starts_with}

abbrev is_empty : Bytes → Bool
is_empty [] = true
is_empty (c ∷ s) = false

-- `path.remove_suffix(1)`
unfoldable pub drop_last : Bytes → Bytes
drop_last [] = []
drop_last (c ∷ []) = []
drop_last (c ∷ d ∷ s) = c ∷ drop_last (d ∷ s)

-- The text up to the last slash, with it; empty if there is none.
unfoldable pub through_slash : Bytes → Bytes
through_slash [] = []
through_slash (c ∷ s) =
    let rest = through_slash s in
    if is_empty rest then if c == b'/' then c ∷ [] else [] else c ∷ rest

-- `std::ranges::any_of(values, path.starts_with)`
unfoldable pub any_starts : List Bytes → Bytes → Bool
any_starts [] path = false
any_starts (v ∷ vs) path = starts_with path v || any_starts vs path

-- The loop over the ancestors, with fuel; `hashed` has the same strings as `values`.
unfoldable pub any_ancestor : ℕ → List Bytes → Bytes → Bool
any_ancestor zero vs path = false
any_ancestor (suc n) vs path =
    let rest = any_ancestor n vs (through_slash (drop_last path)) in
    if is_empty path then false else if contains path vs then true else rest

-- `containsDirectoryOrAncestor`; an ancestor is shorter, so the length of the path is enough fuel.
unfoldable pub contains_directory_or_ancestor : List Bytes → Bytes → Bool
contains_directory_or_ancestor vs path =
    if leb (length vs) 16 then any_starts vs path else any_ancestor (length path) vs path

-- A stored directory ends in a slash.
unfoldable pub ends_slash : Bytes → Bool
ends_slash [] = false
ends_slash (c ∷ []) = c == b'/'
ends_slash (c ∷ d ∷ s) = ends_slash (d ∷ s)

unfoldable pub all_end_slash : List Bytes → Bool
all_end_slash [] = true
all_end_slash (v ∷ vs) = ends_slash v && all_end_slash vs

starts_with-drop_last :
    (c : ℕ) (s v : Bytes)
    → starts_with (c ∷ s) v ≡ (list_eqb v (c ∷ s) || starts_with (drop_last (c ∷ s)) v)
unfolding starts_with drop_last list_eqb
starts_with-drop_last c s [] = ground arith
starts_with-drop_last c [] (d ∷ []) = ground arith
starts_with-drop_last c [] (d ∷ e ∷ v) = ground arith
starts_with-drop_last c (e ∷ s) (d ∷ v) = ground (arith, starts_with-drop_last e s v)

starts_with-through_slash :
    (s v : Bytes) → ends_slash v ≡ true → starts_with s v ≡ starts_with (through_slash s) v
unfolding starts_with through_slash ends_slash
starts_with-through_slash s [] h = ground arith
starts_with-through_slash [] (d ∷ v) h = refl
starts_with-through_slash (c ∷ s) (d ∷ []) h = ground arith
starts_with-through_slash (c ∷ s) (d ∷ e ∷ v) h =
    ground (arith, starts_with-through_slash s (e ∷ v) h)

any_starts-ancestor :
    (vs : List Bytes) (c : ℕ) (s : Bytes)
    → all_end_slash vs ≡ true
    → any_starts vs (c ∷ s)
      ≡ (contains (c ∷ s) vs || any_starts vs (through_slash (drop_last (c ∷ s))))
unfolding any_starts contains all_end_slash
any_starts-ancestor [] c s h = refl
any_starts-ancestor (v ∷ vs) c s h = ground (
  arith,
  starts_with-drop_last c s v,
  starts_with-through_slash (drop_last (c ∷ s)) v,
  any_starts-ancestor vs c s,
)

any_starts_nothing : (vs : List Bytes) → all_end_slash vs ≡ true → any_starts vs [] ≡ false
unfolding any_starts all_end_slash starts_with ends_slash
any_starts_nothing [] h = refl
any_starts_nothing ([] ∷ vs) h = ground arith
any_starts_nothing ((c ∷ v) ∷ vs) h = ground (arith, any_starts_nothing vs)

length-drop_last : (c : ℕ) (s : Bytes) → length (drop_last (c ∷ s)) ≡ length s
unfolding drop_last
length-drop_last c [] = refl
length-drop_last c (d ∷ s) = omega (arith, length-drop_last d s)

length-through_slash : (s : Bytes) → length (through_slash s) ≤ length s
unfolding through_slash
length-through_slash [] = omega arith
length-through_slash (c ∷ s) = ground (arith, length-through_slash s)

any_ancestor_lem :
    (n : ℕ) (vs : List Bytes) (path : Bytes)
    → all_end_slash vs ≡ true
    → length path ≤ n
    → any_ancestor n vs path ≡ any_starts vs path
unfolding any_ancestor
any_ancestor_lem zero vs [] h k = ground (arith, any_starts_nothing vs)
any_ancestor_lem zero vs (c ∷ s) h k = ground arith
any_ancestor_lem (suc n) vs [] h k = ground (arith, any_starts_nothing vs)
any_ancestor_lem (suc n) vs (c ∷ s) h k =
    let up = through_slash (drop_last (c ∷ s)) in
    let shorter : length up ≤ n =
      omega (arith, length-through_slash (drop_last (c ∷ s)), length-drop_last c s) in
    ground (arith, any_ancestor_lem n vs up h shorter, any_starts-ancestor vs c s h)

-- If every stored directory ends in a slash, the walk over the ancestors of a path finds the same
-- as the search for a directory that the path starts with.
pub contains_directory_or_ancestor_lem :
    (vs : List Bytes) (path : Bytes)
    → all_end_slash vs ≡ true
    → contains_directory_or_ancestor vs path ≡ any_starts vs path
unfolding contains_directory_or_ancestor
contains_directory_or_ancestor_lem vs path h =
    ground (arith, any_ancestor_lem (length path) vs path h (omega arith))
