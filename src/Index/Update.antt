-- ===== src/Index/Update.antt =====
-- src/Indexer.cpp: `replaceIncludes`, `indexPath`, `removePathFromIndex`, `updateDocument`'s and
-- `addDocuments`' last step, and `onWorkspaceDidChangeWatchedFiles`.
use slang_server_verilator.Assoc.Multi.{at, push, push_all, drop, drop_all}
use slang_server_verilator.Assoc.{find, assign, erase, contains}
use slang_server_verilator.Index.Types.{
  FilePath, path_eq, GlobalSymbol, SymbolLoc, loc_eq, IndexedPath, Index, Disk, file_name,
}
use slang_server_verilator.Prelude.{
  List, [], ◌∷◌, Option, none, some, if◌then◌else◌, Bytes, list_eq, map,
}

-- `sort` and `unique`: each target once. The order of the targets matters to nothing else.
unfoldable pub distinct : List FilePath → List FilePath
distinct [] = []
distinct (t ∷ ts) = let rest = distinct ts in if contains t rest then rest else t ∷ rest

-- `replaceIncludes`: `parent` leaves the includers of its old targets and joins those of the new.
unfoldable pub replace_includes : FilePath → List FilePath → Index → Index
replace_includes parent targets s =
    let old = at parent s.included_files in
    let once = distinct targets in
    record s {
      resolved_includers = [];
      includers = push_all once parent (drop_all old parent s.includers);
      included_files = assign parent once (erase parent s.included_files);
    }

-- The last loop of `updateIncludes`, over what slang says of the includes of each file
unfoldable pub replace_all : List (FilePath × List FilePath) → Index → Index
replace_all [] s = s
replace_all ((parent, targets) ∷ es) s = replace_all es (replace_includes parent targets s)

-- The parsed edges of a removed file go, if its canonical path has any entry.
unfoldable pub forget_includes : Option FilePath → Index → Index
forget_includes none s = s
forget_includes (some c) s = elim (find c s.included_files) [
  | none ↦ s
  | some old ↦
      let s' = replace_includes c [] s in record s' { included_files = erase c s'.included_files }
]

unfoldable pub push_symbols :
    List GlobalSymbol → FilePath → List (Bytes × List SymbolLoc) → List (Bytes × List SymbolLoc)
push_symbols [] p m = m
push_symbols (g ∷ gs) p m = push_symbols gs p (push g.name (record { uri = p; kind = g.kind }) m)

unfoldable pub drop_symbols :
    List GlobalSymbol → FilePath → List (Bytes × List SymbolLoc) → List (Bytes × List SymbolLoc)
drop_symbols [] p m = m
drop_symbols (g ∷ gs) p m = drop_symbols gs p (drop g.name (record { uri = p; kind = g.kind }) m)

-- The file names of the includes, each once (`includeNames`)
unfoldable pub include_names : List Bytes → List Bytes
include_names [] = []
include_names (i ∷ is) =
    let rest = include_names is in if contains (file_name i) rest then rest else file_name i ∷ rest

-- The removal of an entry from every table
unfoldable pub remove_entry : FilePath → IndexedPath → Index → Index
remove_entry p f s = record s {
  include_references = drop_all (map file_name f.includes) p s.include_references;
  header_symbol_to_files = drop_all f.header_symbols p s.header_symbol_to_files;
  symbol_to_files = drop_symbols f.symbols p s.symbol_to_files;
  macro_to_files = drop_all f.macros p s.macro_to_files;
  symbol_references = drop_all f.referenced p s.symbol_references;
  indexed_files = erase p s.indexed_files;
}

unfoldable pub remove_stored : Option IndexedPath → FilePath → Index → Index
remove_stored none p s = s
remove_stored (some f) p s = remove_entry p f s

-- `if (!includedFiles_.empty())`
unfoldable pub forget_edges : Disk → FilePath → Index → Index
forget_edges k p s = elim s.included_files [ [] ↦ s | e ∷ es ↦ forget_includes (k.canonical p) s ]

-- `removePathFromIndex`
unfoldable pub remove_path : Disk → FilePath → Index → Index
remove_path k p s =
    let s' = forget_edges k p (record s { resolved_includers = [] }) in
    remove_stored (find p s'.indexed_files) p s'

-- The entries that `indexPath` adds to the tables
unfoldable pub add_entry : FilePath → IndexedPath → Index → Index
add_entry p f s = record s {
  symbol_to_files = push_symbols f.symbols p s.symbol_to_files;
  macro_to_files = push_all f.macros p s.macro_to_files;
  symbol_references = push_all f.referenced p s.symbol_references;
  header_symbol_to_files = push_all f.header_symbols p s.header_symbol_to_files;
  include_references = push_all (include_names f.includes) p s.include_references;
  indexed_files = assign p f s.indexed_files;
}

-- `indexPath`
unfoldable pub index_path : Disk → FilePath → IndexedPath → Index → Index
index_path k p f s = add_entry p f (remove_path k p s)

-- `addDocuments`, and the end of `onWorkspaceDidChangeWatchedFiles`
unfoldable pub add_documents : Disk → List FilePath → Index → Index
add_documents k [] s = s
add_documents k (p ∷ ps) s = add_documents k ps (index_path k p (k.parse p) s)

-- `lsp::FileChangeType`
pub data Change : Type 0 where
  created changed deleted : FilePath → Change

-- The loop over the changes: files go at once, and are parsed again at the end.
unfoldable pub removals : Disk → List Change → Index → Index
removals k [] s = s
removals k (created p ∷ cs) s = removals k cs s
removals k (changed p ∷ cs) s = removals k cs (remove_path k p s)
removals k (deleted p ∷ cs) s = removals k cs (remove_path k p s)

-- `pathsToAdd`
unfoldable pub paths_to_add : Disk → List Change → List FilePath
paths_to_add k [] = []
paths_to_add k (created p ∷ cs) = p ∷ paths_to_add k cs
paths_to_add k (changed p ∷ cs) =
    let rest = paths_to_add k cs in if k.exists p then p ∷ rest else rest
paths_to_add k (deleted p ∷ cs) = paths_to_add k cs

-- `onWorkspaceDidChangeWatchedFiles`
unfoldable pub on_watched_files : Disk → List Change → Index → Index
on_watched_files k cs s = add_documents k (paths_to_add k cs) (removals k cs s)
