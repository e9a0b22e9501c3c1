-- ===== src/Index/Consistent.antt =====
-- src/Indexer.cpp: every table of names agrees with what is stored of each file.
use slang_server_verilator.Assoc.Multi.{listed, push, drop, listed-push, listed-drop}
use slang_server_verilator.Assoc.{contains}
use slang_server_verilator.Index.Types.{
  FilePath, path_eq, path_eqb, GlobalSymbol, symbol_eq, symbol_eqb, SymbolLoc, loc_eq, loc_eqb,
  Index, entry, file_name,
}
use slang_server_verilator.Index.Update.{push_symbols, drop_symbols, include_names}
use slang_server_verilator.Prelude.{
  ℕ, false, ◌&&◌, ◌||◌, List, [], ◌∷◌, ◌≡◌, refl, arith, if◌then◌else◌, Bytes, list_eq,
  list_eqb_iff, map,
}

-- A name leads to exactly the files whose stored entry has it.
pub record Consistent (s : Index) : Type 0 where
  pub symbols_agree :
      (n : Bytes) (p : FilePath) (k : ℕ)
      → listed n (record { uri = p; kind = k }) s.symbol_to_files
        ≡ contains (record { name = n; kind = k }) (entry p s).symbols
  pub macros_agree :
      (n : Bytes) (p : FilePath) → listed n p s.macro_to_files ≡ contains n (entry p s).macros
  pub references_agree :
      (n : Bytes) (p : FilePath)
      → listed n p s.symbol_references ≡ contains n (entry p s).referenced
  pub headers_agree :
      (n : Bytes) (p : FilePath)
      → listed n p s.header_symbol_to_files ≡ contains n (entry p s).header_symbols
  pub includes_agree :
      (n : Bytes) (p : FilePath)
      → listed n p s.include_references ≡ contains n (map file_name (entry p s).includes)

pub listed-push_symbols :
    (gs : List GlobalSymbol) (p q : FilePath) (n : Bytes) (k : ℕ)
    (m : List (Bytes × List SymbolLoc))
    → listed n (record { uri = q; kind = k }) (push_symbols gs p m) ≡ (
        listed n (record { uri = q; kind = k }) m
        || (contains (record { name = n; kind = k }) gs && path_eqb p q))
unfolding push_symbols contains symbol_eqb loc_eqb
listed-push_symbols [] p q n k m = ground arith
listed-push_symbols (g ∷ gs) p q n k m =
    let l : SymbolLoc = record { uri = p; kind = g.kind } in
    let t : SymbolLoc = record { uri = q; kind = k } in
    ground (arith, listed-push g.name n l t m, listed-push_symbols gs p q n k (push g.name l m))

pub listed-drop_symbols :
    (gs : List GlobalSymbol) (p q : FilePath) (n : Bytes) (k : ℕ)
    (m : List (Bytes × List SymbolLoc))
    → listed n (record { uri = q; kind = k }) (drop_symbols gs p m) ≡ (
        if contains (record { name = n; kind = k }) gs && path_eqb p q
        then false
        else listed n (record { uri = q; kind = k }) m)
unfolding drop_symbols contains symbol_eqb loc_eqb
listed-drop_symbols [] p q n k m = ground arith
listed-drop_symbols (g ∷ gs) p q n k m =
    let l : SymbolLoc = record { uri = p; kind = g.kind } in
    let t : SymbolLoc = record { uri = q; kind = k } in
    ground (arith, listed-drop g.name n l t m, listed-drop_symbols gs p q n k (drop g.name l m))

pub contains-include_names :
    (is : List Bytes) (n : Bytes) → contains n (include_names is) ≡ contains n (map file_name is)
unfolding include_names contains
contains-include_names [] n = refl
contains-include_names (i ∷ is) n = ground (
  arith,
  contains-include_names is n,
  contains-include_names is (file_name i),
  list_eqb_iff (file_name i) n,
)
