-- ===== src/Index/Types.antt =====
-- include/Indexer.h: paths, what is known of one file, and the tables.
use slang_server_verilator.Assoc.{find, contains}
use slang_server_verilator.Prelude.{
  ℕ, Bool, true, false, ◌&&◌, List, [], ◌∷◌, ◌≡◌, ◌↔◌, Option, none, some, arith, if◌then◌else◌,
  ◌==◌, Bytes, Eq, nat_eq, list_eq, list_eqb, list_eqb_iff,
}

-- `std::filesystem::path`: two paths are equal when their elements are.
abbrev pub FilePath : Type 0
FilePath = List Bytes

unfoldable pub path_eqb : FilePath → FilePath → Bool
path_eqb [] [] = true
path_eqb (x ∷ a) (y ∷ b) = list_eqb x y && path_eqb a b
path_eqb _ _ = false

pub path_eqb_iff : (a b : FilePath) → (path_eqb a b ≡ true) ↔ (a ≡ b)
unfolding path_eqb
path_eqb_iff (x ∷ a) (y ∷ b) = ground (arith, list_eqb_iff x y, path_eqb_iff a b)
path_eqb_iff _ _ = ground arith

instance abbrev pub path_eq : Eq FilePath
path_eq = record { eqb = path_eqb; eqb_iff = path_eqb_iff }

-- `GlobalSymbol`: a name, and the kind of its declaration
pub record GlobalSymbol : Type 0 where
  pub name : Bytes
  pub kind : ℕ

-- `GlobalSymbolLoc`. The pointer to an interned path is the path: `internUri` gives equal paths
-- one pointer.
pub record SymbolLoc : Type 0 where
  pub uri : FilePath
  pub kind : ℕ

unfoldable pub symbol_eqb : GlobalSymbol → GlobalSymbol → Bool
symbol_eqb a b = list_eqb a.name b.name && (a.kind == b.kind)

pub symbol_eqb_iff : (a b : GlobalSymbol) → (symbol_eqb a b ≡ true) ↔ (a ≡ b)
unfolding symbol_eqb
symbol_eqb_iff a b = ground (arith, list_eqb_iff a.name b.name)

instance abbrev pub symbol_eq : Eq GlobalSymbol
symbol_eq = record { eqb = symbol_eqb; eqb_iff = symbol_eqb_iff }

unfoldable pub loc_eqb : SymbolLoc → SymbolLoc → Bool
loc_eqb a b = path_eqb a.uri b.uri && (a.kind == b.kind)

pub loc_eqb_iff : (a b : SymbolLoc) → (loc_eqb a b ≡ true) ↔ (a ≡ b)
unfolding loc_eqb
loc_eqb_iff a b = ground (arith, path_eqb_iff a.uri b.uri)

instance abbrev pub loc_eq : Eq SymbolLoc
loc_eq = record { eqb = loc_eqb; eqb_iff = loc_eqb_iff }

-- `IndexedPath`: what was found in one file
pub record IndexedPath : Type 0 where
  pub symbols : List GlobalSymbol
  pub macros : List Bytes
  pub referenced : List Bytes
  pub header_symbols : List Bytes
  pub includes : List Bytes

-- A file that is not indexed, or holds nothing
abbrev pub no_entry : IndexedPath
no_entry = record { symbols = []; macros = []; referenced = []; header_symbols = []; includes = [] }

-- The tables of `Indexer` that follow updates of files
pub record Index : Type 0 where
  pub symbol_to_files : List (Bytes × List SymbolLoc)
  pub macro_to_files : List (Bytes × List FilePath)
  pub symbol_references : List (Bytes × List FilePath)
  pub header_symbol_to_files : List (Bytes × List FilePath)
  pub include_references : List (Bytes × List FilePath)
  pub includers : List (FilePath × List FilePath)
  pub included_files : List (FilePath × List FilePath)
  pub resolved_includers : List (FilePath × List FilePath)
  pub indexed_files : List (FilePath × IndexedPath)

abbrev pub empty_index : Index
empty_index = record {
  symbol_to_files = [];
  macro_to_files = [];
  symbol_references = [];
  header_symbol_to_files = [];
  include_references = [];
  includers = [];
  included_files = [];
  resolved_includers = [];
  indexed_files = [];
}

-- What the indexer asks of the file system and of slang's parser: `weakly_canonical` (`none` for
-- an error), `exists`, and the result of parsing a file, empty if it cannot be read.
pub record Disk : Type 0 where
  pub canonical : FilePath → Option FilePath
  pub exists : FilePath → Bool
  pub parse : FilePath → IndexedPath

abbrev pub entry_or : Option IndexedPath → IndexedPath
entry_or none = no_entry
entry_or (some f) = f

-- What the index holds of a file
unfoldable pub entry : FilePath → Index → IndexedPath
entry p s = entry_or (find p s.indexed_files)

-- `fs::path(spelling).filename()`: what stands behind the last slash
unfoldable pub file_name : Bytes → Bytes
file_name [] = []
file_name (c ∷ s) =
    let rest = file_name s in if contains b'/' s then rest else if c == b'/' then s else c ∷ s
