-- ===== src/Index/Examples.antt =====
-- Runs of the index on a small workspace.
use slang_server_verilator.Assoc.Multi.{listed, at}
use slang_server_verilator.Assoc.{contains}
use slang_server_verilator.Index.Edges.{run-Mirrored}
use slang_server_verilator.Index.Exclusion.{
  contains_directory_or_ancestor, any_starts, all_end_slash, ends_slash,
  contains_directory_or_ancestor_lem,
}
use slang_server_verilator.Index.History.{
  Call, add_files, watched, update_includes, run, content, run-lookups, run-symbols,
}
use slang_server_verilator.Index.Query.{
  get_files_for_macro, get_files_referencing_symbol, get_headers_for_symbol,
}
use slang_server_verilator.Index.Types.{FilePath, path_eq, symbol_eq, loc_eq, IndexedPath, Disk}
use slang_server_verilator.Index.Update.{changed, deleted}
use slang_server_verilator.Text.{codes}
use slang_server_verilator.Prelude.{
  true, List, [], ◌∷◌, ◌≡◌, some, list_eq, refl, Bytes, replicate, if◌then◌else◌,
}

abbrev top_sv : FilePath
top_sv = (codes "top.sv") ∷ []

abbrev defs_svh : FilePath
defs_svh = (codes "include") ∷ (codes "defs.svh") ∷ []

abbrev top_entry : IndexedPath
top_entry = record {
  symbols = record { name = (codes "top"); kind = 7 } ∷ [];
  macros = [];
  referenced = (codes "alu") ∷ [];
  header_symbols = [];
  includes = (codes "include/defs.svh") ∷ [];
}

abbrev defs_entry : IndexedPath
defs_entry = record {
  symbols = [];
  macros = (codes "WIDTH") ∷ (codes "DEPTH") ∷ [];
  referenced = [];
  header_symbols = (codes "word_t") ∷ [];
  includes = [];
}

abbrev disk : Disk
disk = record {
  canonical = λ p. some p;
  exists = λ p. true;
  parse = λ p. if contains (codes "top.sv") p then top_entry else defs_entry;
}

-- The header is deleted on disk after all was read.
abbrev updates : List Call
updates =
    watched disk (deleted defs_svh ∷ changed top_sv ∷ [])
    ∷ update_includes ((top_sv, defs_svh ∷ defs_svh ∷ []) ∷ [])
    ∷ add_files disk (top_sv ∷ defs_svh ∷ [])
    ∷ []

run-lookups_example :
    (contains defs_svh (get_files_for_macro (codes "WIDTH") (run updates))
      ≡ contains (codes "WIDTH") (content updates defs_svh).macros)
    × (contains defs_svh (get_files_referencing_symbol (codes "WIDTH") (run updates))
        ≡ contains (codes "WIDTH") (content updates defs_svh).referenced)
    × (contains defs_svh (get_headers_for_symbol (codes "WIDTH") (run updates))
        ≡ contains (codes "WIDTH") (content updates defs_svh).header_symbols)
run-lookups_example = run-lookups updates (codes "WIDTH") defs_svh

run-symbols_example :
    listed (codes "top") (record { uri = top_sv; kind = 7 }) (run updates).symbol_to_files
    ≡ contains (record { name = (codes "top"); kind = 7 }) (content updates top_sv).symbols
run-symbols_example = run-symbols updates (codes "top") top_sv 7

run-Mirrored_example :
    listed defs_svh top_sv (run updates).includers
    ≡ contains defs_svh (at top_sv (run updates).included_files)
run-Mirrored_example = run-Mirrored updates top_sv defs_svh

-- More directories than the linear search is used for
abbrev excluded : List Bytes
excluded = (codes "/w/out/") ∷ replicate 16 (codes "/w/build/")

contains_directory_example :
    contains_directory_or_ancestor excluded (codes "/w/build/obj/")
    ≡ any_starts excluded (codes "/w/build/obj/")
unfolding all_end_slash ends_slash
contains_directory_example =
    contains_directory_or_ancestor_lem excluded (codes "/w/build/obj/") refl
