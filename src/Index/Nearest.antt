-- ===== src/Index/Nearest.antt =====
-- src/Indexer.cpp: `nearestFiles` and the lookups on it. std::filesystem's `weakly_canonical`,
-- `lexically_normal`, `is_regular_file` and the order of paths are
-- parameters.
use slang_server_verilator.Assoc.{contains}
use slang_server_verilator.Assoc.Multi.{at}
use slang_server_verilator.Index.Types.{FilePath, path_eqb, path_eq, SymbolLoc, loc_eq, Index}
use slang_server_verilator.Prelude.{
  ℕ, suc, ◌-◌, ◌^◌, Bool, true, false, not, ◌&&◌, ◌||◌, List, [], ◌∷◌, ◌++◌, Option, none, some,
  if◌then◌else◌, ltb, ◌==◌, Bytes, replicate, list_eqb, list_eq,
}
use slang_server_verilator.Text.{codes}

pub record Paths : Type 0 where
  pub weakly_canonical : FilePath → Option FilePath
  pub lexically_normal : FilePath → FilePath
  pub is_regular_file : FilePath → Bool
  pub below : FilePath → FilePath → Bool

unfoldable pub drop_last : Bytes → FilePath → FilePath
drop_last x [] = []
drop_last x (y ∷ p) = x ∷ drop_last y p

-- `parent_path`: the root is its own parent.
unfoldable pub parent_path : FilePath → FilePath
parent_path [] = []
parent_path (x ∷ []) = if list_eqb x (codes "/") then x ∷ [] else []
parent_path (x ∷ y ∷ p) = drop_last x (y ∷ p)

unfoldable pub is_absolute : FilePath → Bool
is_absolute [] = false
is_absolute (x ∷ p) = list_eqb x (codes "/")

same_root : FilePath → FilePath → Bool
same_root p base = if is_absolute p then is_absolute base else not (is_absolute base)

-- What of both paths is behind their common front
unfoldable pub diverge : FilePath → FilePath → FilePath × FilePath
diverge [] base = ([], base)
diverge (x ∷ p) [] = (x ∷ p, [])
diverge (x ∷ p) (y ∷ base) =
    let rest = diverge p base in if list_eqb x y then rest else (x ∷ p, y ∷ base)

-- The elements that go down, and those that go up
unfoldable pub count_down : FilePath → ℕ
count_down [] = 0
count_down (x ∷ p) =
    let rest = count_down p in
    if list_eqb x [] || list_eqb x (codes ".") || list_eqb x (codes "..") then rest else suc rest

unfoldable pub count_up : FilePath → ℕ
count_up [] = 0
count_up (x ∷ p) = let rest = count_up p in if list_eqb x (codes "..") then suc rest else rest

starts_empty : FilePath → Bool
starts_empty [] = true
starts_empty (x ∷ p) = list_eqb x []

climb : FilePath → ℕ → ℕ → FilePath
unfolding starts_empty
climb p down up =
    if ltb down up
    then []
    else if (down == up) && starts_empty p
    then codes "." ∷ []
    else replicate (down - up) (codes "..") ++ p

-- The way from behind the common front, up out of what is left of the base
unfoldable pub way : FilePath → FilePath → FilePath
unfolding climb
way p base = climb p (count_down base) (count_up base)

-- `lexically_relative`, on POSIX: empty for an absolute and a relative path, and for a base that
-- goes up farther than down
unfoldable pub lexically_relative : FilePath → FilePath → FilePath
unfolding same_root
lexically_relative p base =
    let rest = diverge p base in if same_root p base then way rest.0 rest.1 else []

-- The elements of a relative path but for dots
unfoldable pub count_parts : FilePath → ℕ
count_parts [] = 0
count_parts (x ∷ p) = let rest = count_parts p in if list_eqb x (codes ".") then rest else suc rest

-- The way from the folder of the source to that of a file
unfoldable pub relative : FilePath → FilePath → FilePath
relative source path = lexically_relative (parent_path path) (parent_path source)

unfoldable pub distance : FilePath → FilePath → ℕ
distance source path = count_parts (relative source path)

-- A file to which there is no way is not counted.
unfoldable pub reachable : FilePath → Option FilePath → Option FilePath
reachable source none = none
reachable source (some p) = elim (relative source p) [ [] ↦ none | x ∷ q ↦ some p ]

module _ {T : Type 0} (k : Paths) (get_path : T → Option FilePath) where
  canonical_of : Option FilePath → Option FilePath
  canonical_of none = none
  canonical_of (some p) = k.weakly_canonical p

  -- The canonical path of a candidate, where it has one and is not skipped
  unfoldable pub located : FilePath → T → Option FilePath
  unfolding canonical_of
  located source x = reachable source (canonical_of (get_path x))

  -- One round of the loop, of a candidate whose canonical path is known
  unfoldable pub keep_nearest : ℕ → FilePath → T → ℕ × List (FilePath × T) → ℕ × List (FilePath × T)
  keep_nearest d p x (best, kept) =
      if ltb d best
      then (d, (p, x) ∷ [])
      else if d == best
      then (best, kept ++ (p, x) ∷ [])
      else (best, kept)

  unfoldable pub consider :
      FilePath → Option FilePath → T → ℕ × List (FilePath × T) → ℕ × List (FilePath × T)
  consider source none x s = s
  consider source (some p) x s = keep_nearest (distance source p) p x s

  unfoldable pub scan_nearest :
      FilePath → List T → ℕ × List (FilePath × T) → ℕ × List (FilePath × T)
  scan_nearest source [] s = s
  scan_nearest source (x ∷ xs) s = scan_nearest source xs (consider source (located source x) x s)

  -- `std::ranges::sort` by the paths
  unfoldable pub insert_sorted : FilePath × T → List (FilePath × T) → List (FilePath × T)
  insert_sorted e [] = e ∷ []
  insert_sorted e (f ∷ es) = if k.below f.0 e.0 then f ∷ insert_sorted e es else e ∷ f ∷ es

  unfoldable pub sort_entries : List (FilePath × T) → List (FilePath × T)
  sort_entries [] = []
  sort_entries (e ∷ es) = insert_sorted e (sort_entries es)

  -- The loop that leaves out an entry with the path of the one before
  unfoldable pub distinct_from : FilePath → List (FilePath × T) → List T
  distinct_from p [] = []
  distinct_from p ((q, x) ∷ es) =
      let rest = distinct_from q es in if path_eqb q p then rest else x ∷ rest

  unfoldable pub distinct : List (FilePath × T) → List T
  distinct [] = []
  distinct ((p, x) ∷ es) = x ∷ distinct_from p es

  unfoldable pub nearest_from : Option FilePath → List T → List T
  nearest_from none candidates = []
  nearest_from (some source) candidates =
      distinct (sort_entries (scan_nearest source candidates (2 ^ 64 - 1, [])).1)

  -- `nearestFiles`
  unfoldable pub nearest_files : FilePath → List T → List T
  nearest_files source candidates = nearest_from (k.weakly_canonical source) candidates

-- `getNearestSymbolLocs`; a single entry is given whatever its path is.
unfoldable pub nearest_of : Paths → FilePath → List SymbolLoc → List SymbolLoc
nearest_of k source [] = []
nearest_of k source (l ∷ []) = l ∷ []
nearest_of k source (l ∷ l' ∷ ls) = nearest_files k (λ e. some e.uri) source (l ∷ l' ∷ ls)

unfoldable pub get_nearest_symbol_locs : Paths → Bytes → FilePath → Index → List SymbolLoc
get_nearest_symbol_locs k name source s = nearest_of k source (at name s.symbol_to_files)

abbrev front : List SymbolLoc → Option SymbolLoc
front [] = none
front (l ∷ ls) = some l

-- `getNearestSymbolLoc`
unfoldable pub get_nearest_symbol_loc : Paths → Bytes → FilePath → Index → Option SymbolLoc
get_nearest_symbol_loc k name source s = front (get_nearest_symbol_locs k name source s)

-- `filename`, of a path that is not a root
unfoldable pub last_part : FilePath → Bytes
last_part [] = []
last_part (x ∷ []) = x
last_part (x ∷ y ∷ p) = last_part (y ∷ p)

-- The loop that takes the elements of a suffix off a path, both from their ends; here both are
-- reversed
unfoldable pub strip_suffix : FilePath → FilePath → Bool
strip_suffix [] remaining = true
strip_suffix (x ∷ suffix) [] = false
strip_suffix (x ∷ suffix) (y ∷ remaining) =
    let rest = strip_suffix suffix remaining in if list_eqb x y then rest else false

abbrev pub reverse_onto : FilePath → FilePath → FilePath
reverse_onto acc [] = acc
reverse_onto acc (x ∷ p) = reverse_onto (x ∷ acc) p

unfoldable pub has_suffix : FilePath → FilePath → Bool
has_suffix suffix path = strip_suffix (reverse_onto [] suffix) (reverse_onto [] path)

-- An include that can name a file of the index: not empty, not absolute, with no way up
unfoldable pub is_plain_include : FilePath → Bool
is_plain_include [] = false
is_plain_include (x ∷ p) = not (list_eqb x (codes "/")) && not (contains (codes "..") (x ∷ p))

include_target : Paths → FilePath → FilePath → Option FilePath
include_target k include_path candidate =
    if has_suffix include_path (k.lexically_normal candidate) && k.is_regular_file candidate
    then some candidate
    else none

abbrev first_path : List FilePath → Option FilePath
first_path [] = none
first_path (p ∷ ps) = some p

-- `nearestInclude`
unfoldable pub nearest_include : Paths → FilePath → FilePath → List FilePath → Option FilePath
unfolding include_target
nearest_include k spelling source candidates =
    let include_path = k.lexically_normal spelling in
    if is_plain_include include_path
    then first_path (nearest_files k (include_target k include_path) source candidates)
    else none
