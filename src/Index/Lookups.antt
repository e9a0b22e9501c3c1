-- ===== src/Index/Lookups.antt =====
-- Lookups of the nearest files and of the files for an include, in a workspace of three files.
use mathlib.Core.List.{Memᴰ}
use slang_server_verilator.Assoc.Multi.{at}
use slang_server_verilator.Index.Choice.{IsNearest, nearest_files_lem}
use slang_server_verilator.Index.Include.{
  EndsWith, get_files_for_include, get_files_for_include_iff,
}
use slang_server_verilator.Index.Nearest.{
  Paths, distance, located, nearest_files, is_plain_include, last_part,
}
use slang_server_verilator.Index.Types.{FilePath, path_eq}
use slang_server_verilator.Prelude.{
  ◌-◌, ◌^◌, ◌≤◌, true, false, List, [], ◌∷◌, ◌≡◌, refl, ◌↔◌, some, Bytes, list_eq,
}
use slang_server_verilator.Text.{codes}

abbrev paths : Paths
paths = record {
  weakly_canonical = λ p. some p;
  lexically_normal = λ p. p;
  is_regular_file = λ p. true;
  below = λ p q. false;
}

abbrev near : FilePath
near = codes "/" ∷ codes "a" ∷ codes "x.svh" ∷ []

abbrev far : FilePath
far = codes "/" ∷ codes "b" ∷ codes "x.svh" ∷ []

abbrev source : FilePath
source = codes "/" ∷ codes "a" ∷ codes "top.sv" ∷ []

nearest_files_example :
    ((x : FilePath)
      → Memᴰ x (nearest_files paths some source (far ∷ near ∷ []))
      → (p : FilePath) × IsNearest paths some source (far ∷ near ∷ []) p x)
    × ((p y : FilePath)
        → IsNearest paths some source (far ∷ near ∷ []) p y
        → distance source p ≤ 2 ^ 64 - 1
        → (x : FilePath) × (located paths some source x ≡ some p)
          × Memᴰ x (nearest_files paths some source (far ∷ near ∷ [])))
nearest_files_example = nearest_files_lem paths some source source (far ∷ near ∷ []) refl

abbrev table : List (Bytes × List FilePath)
table = (codes "x.svh", near ∷ far ∷ []) ∷ []

abbrev spelling : FilePath
spelling = codes "b" ∷ codes "x.svh" ∷ []

get_files_for_include_example : Memᴰ far (get_files_for_include paths spelling table) ↔ (
    (is_plain_include spelling ≡ true)
    × Memᴰ far (at (last_part spelling) table)
    × EndsWith spelling far)
get_files_for_include_example = get_files_for_include_iff paths spelling table far
