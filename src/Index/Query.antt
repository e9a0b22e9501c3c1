-- ===== src/Index/Query.antt =====
-- src/Indexer.cpp: the lookups by name.
use slang_server_verilator.Assoc.Multi.{at}
use slang_server_verilator.Assoc.{keys}
use slang_server_verilator.Index.Types.{FilePath, path_eq, loc_eq, Index}
use slang_server_verilator.Prelude.{List, map, Bytes, list_eq}

-- `getFilesForSymbol`
unfoldable pub get_files_for_symbol : Bytes → Index → List FilePath
get_files_for_symbol name s = map (λ l. l.uri) (at name s.symbol_to_files)

-- `getFilesForMacro`
unfoldable pub get_files_for_macro : Bytes → Index → List FilePath
get_files_for_macro name s = at name s.macro_to_files

-- `getFilesReferencingSymbol`
unfoldable pub get_files_referencing_symbol : Bytes → Index → List FilePath
get_files_referencing_symbol name s = at name s.symbol_references

-- `getHeadersForSymbol`, but for the order of the result
unfoldable pub get_headers_for_symbol : Bytes → Index → List FilePath
get_headers_for_symbol name s = at name s.header_symbol_to_files

-- `getAllMacroNames`
unfoldable pub get_all_macro_names : Index → List Bytes
get_all_macro_names s = keys s.macro_to_files
