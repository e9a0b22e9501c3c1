-- ===== src/Index/Preserve.antt =====
-- src/Indexer.cpp: `removePathFromIndex` and `indexPath` keep the tables in agreement with the
-- stored entries.
use slang_server_verilator.Index.SameNames.{
  entry_same, SameNames-Consistent, forget_edges-SameNames, replace_all-SameNames,
}
use slang_server_verilator.Assoc.Multi.{at, listed-push_all, listed-drop_all}
use slang_server_verilator.Assoc.{find, contains, find-assign, find-erase, eqb_refl}
use slang_server_verilator.Index.Consistent.{
  Consistent, listed-push_symbols, listed-drop_symbols, contains-include_names,
}
use slang_server_verilator.Index.Types.{
  FilePath, path_eq, path_eqb, path_eqb_iff, symbol_eq, loc_eq, IndexedPath, no_entry, Index, Disk,
  entry, entry_or, file_name, empty_index,
}
use slang_server_verilator.Index.Update.{
  remove_entry, remove_stored, forget_edges, replace_all, remove_path, add_entry, index_path,
  include_names,
}
use slang_server_verilator.Prelude.{
  List, [], ◌≡◌, refl, sym, ap, none, some, arith, if◌then◌else◌, list_eq, map, Option-cases, inl,
  inr,
}

-- Nothing is listed before a file is indexed.
pub empty_index-Consistent : Consistent empty_index
unfolding contains at find entry
empty_index-Consistent = record {
  symbols_agree = λ n p k. refl;
  macros_agree = λ n p. refl;
  references_agree = λ n p. refl;
  headers_agree = λ n p. refl;
  includes_agree = λ n p. refl;
}

-- What stands in the index of the other files, and of `p`, after its removal
entry-remove_entry :
    (p q : FilePath) (f : IndexedPath) (s : Index)
    → entry q (remove_entry p f s) ≡ (if path_eqb p q then no_entry else entry q s)
unfolding entry remove_entry
entry-remove_entry p q f s = ground (arith, find-erase p q s.indexed_files)

remove_entry-Consistent :
    (p : FilePath) (f : IndexedPath) (s : Index)
    → entry p s ≡ f
    → Consistent s
    → Consistent (remove_entry p f s)
unfolding remove_entry contains
remove_entry-Consistent p f s e h = record {
  symbols_agree = λ n q k. ground (
    arith,
    listed-drop_symbols f.symbols p q n k s.symbol_to_files,
    h.symbols_agree n q k,
    entry-remove_entry p q f s,
    path_eqb_iff p q,
  );
  macros_agree = λ n q. ground (
    arith,
    listed-drop_all f.macros n p q s.macro_to_files,
    h.macros_agree n q,
    entry-remove_entry p q f s,
    path_eqb_iff p q,
  );
  references_agree = λ n q. ground (
    arith,
    listed-drop_all f.referenced n p q s.symbol_references,
    h.references_agree n q,
    entry-remove_entry p q f s,
    path_eqb_iff p q,
  );
  headers_agree = λ n q. ground (
    arith,
    listed-drop_all f.header_symbols n p q s.header_symbol_to_files,
    h.headers_agree n q,
    entry-remove_entry p q f s,
    path_eqb_iff p q,
  );
  includes_agree = λ n q. ground (
    arith,
    listed-drop_all (map file_name f.includes) n p q s.include_references,
    h.includes_agree n q,
    entry-remove_entry p q f s,
    path_eqb_iff p q,
  );
}

entry-add_entry :
    (p q : FilePath) (f : IndexedPath) (s : Index)
    → entry q (add_entry p f s) ≡ (if path_eqb p q then f else entry q s)
unfolding entry add_entry
entry-add_entry p q f s = ground (arith, find-assign p q f s.indexed_files)

entry_of_none : (p : FilePath) (s : Index) → find p s.indexed_files ≡ none → entry p s ≡ no_entry
unfolding entry
entry_of_none p s e = ap entry_or e

entry_of_some :
    (p : FilePath) (f : IndexedPath) (s : Index) → find p s.indexed_files ≡ some f → entry p s ≡ f
unfolding entry
entry_of_some p f s e = ap entry_or e

add_entry-Consistent :
    (p : FilePath) (f : IndexedPath) (s : Index)
    → entry p s ≡ no_entry
    → Consistent s
    → Consistent (add_entry p f s)
unfolding add_entry contains
add_entry-Consistent p f s e h = record {
  symbols_agree = λ n q k. ground (
    arith,
    listed-push_symbols f.symbols p q n k s.symbol_to_files,
    h.symbols_agree n q k,
    entry-add_entry p q f s,
    path_eqb_iff p q,
  );
  macros_agree = λ n q. ground (
    arith,
    listed-push_all f.macros n p q s.macro_to_files,
    h.macros_agree n q,
    entry-add_entry p q f s,
    path_eqb_iff p q,
  );
  references_agree = λ n q. ground (
    arith,
    listed-push_all f.referenced n p q s.symbol_references,
    h.references_agree n q,
    entry-add_entry p q f s,
    path_eqb_iff p q,
  );
  headers_agree = λ n q. ground (
    arith,
    listed-push_all f.header_symbols n p q s.header_symbol_to_files,
    h.headers_agree n q,
    entry-add_entry p q f s,
    path_eqb_iff p q,
  );
  includes_agree = λ n q. ground (
    arith,
    listed-push_all (include_names f.includes) n p q s.include_references,
    contains-include_names f.includes n,
    h.includes_agree n q,
    entry-add_entry p q f s,
    path_eqb_iff p q,
  );
}

-- `removePathFromIndex` of a file that the index does not hold changes no table.
pub entry-remove_path :
    (k : Disk) (p q : FilePath) (s : Index)
    → entry q (remove_path k p s) ≡ (if path_eqb p q then no_entry else entry q s)
unfolding remove_path remove_stored
entry-remove_path k p q s =
    let t = forget_edges k p (record s { resolved_includers = [] }) in
    let same : entry q s ≡ entry q t = entry_same q (forget_edges-SameNames k p s) in
    elim (Option-cases (find p t.indexed_files)) [
      | inl e ↦ rw (e) (ground (arith, same, path_eqb_iff p q, entry_of_none p t e))
      | inr (f, e) ↦ rw (e) (ground (arith, same, entry-remove_entry p q f t))
    ]

pub remove_path-Consistent :
    (k : Disk) (p : FilePath) (s : Index) → Consistent s → Consistent (remove_path k p s)
unfolding remove_path remove_stored
remove_path-Consistent k p s h =
    let t = forget_edges k p (record s { resolved_includers = [] }) in
    let h' = SameNames-Consistent (forget_edges-SameNames k p s) h in
    elim (Option-cases (find p t.indexed_files)) [
      | inl e ↦ rw (e) h'
      | inr (f, e) ↦ rw (e) (remove_entry-Consistent p f t (entry_of_some p f t e) h')
    ]

pub entry-index_path :
    (k : Disk) (p q : FilePath) (f : IndexedPath) (s : Index)
    → entry q (index_path k p f s) ≡ (if path_eqb p q then f else entry q s)
unfolding index_path
entry-index_path k p q f s =
    ground (arith, entry-add_entry p q f (remove_path k p s), entry-remove_path k p q s)

pub index_path-Consistent :
    (k : Disk) (p : FilePath) (f : IndexedPath) (s : Index)
    → Consistent s
    → Consistent (index_path k p f s)
unfolding index_path
index_path-Consistent k p f s h =
    add_entry-Consistent p f (remove_path k p s)
      (ground (arith, entry-remove_path k p p s, eqb_refl p)) (remove_path-Consistent k p s h)

pub replace_all-Consistent :
    (es : List (FilePath × List FilePath)) (s : Index)
    → Consistent s
    → Consistent (replace_all es s)
replace_all-Consistent es s = SameNames-Consistent (replace_all-SameNames es s)

pub entry-replace_all :
    (es : List (FilePath × List FilePath)) (q : FilePath) (s : Index)
    → entry q (replace_all es s) ≡ entry q s
entry-replace_all es q s = sym (entry_same q (replace_all-SameNames es s))
