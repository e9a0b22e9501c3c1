-- ===== src/Index/SameNames.antt =====
-- src/Indexer.cpp: the changes to the parsed includes leave the tables of names alone.
use slang_server_verilator.Assoc.{find, erase}
use slang_server_verilator.Index.Consistent.{Consistent}
use slang_server_verilator.Index.Types.{
  FilePath, path_eq, symbol_eq, loc_eq, Index, Disk, entry, entry_or,
}
use slang_server_verilator.Index.Update.{
  forget_edges, forget_includes, replace_includes, replace_all,
}
use slang_server_verilator.Prelude.{
  List, [], ◌∷◌, ◌≡◌, refl, ap, Option, none, some, arith, list_eq,
}

-- Two states with the same tables of names and the same stored entries
pub record SameNames (s t : Index) : Type 0 where
  pub symbols_same : s.symbol_to_files ≡ t.symbol_to_files
  pub macros_same : s.macro_to_files ≡ t.macro_to_files
  pub references_same : s.symbol_references ≡ t.symbol_references
  pub headers_same : s.header_symbol_to_files ≡ t.header_symbol_to_files
  pub includes_same : s.include_references ≡ t.include_references
  pub files_same : s.indexed_files ≡ t.indexed_files

pub SameNames-refl : (s : Index) → SameNames s s
SameNames-refl s = record {
  symbols_same = refl;
  macros_same = refl;
  references_same = refl;
  headers_same = refl;
  includes_same = refl;
  files_same = refl;
}

pub entry_same : {s t : Index} (q : FilePath) → SameNames s t → entry q s ≡ entry q t
unfolding entry
entry_same q h = ap (λ m. entry_or (find q m)) h.files_same

pub SameNames-Consistent : {s t : Index} → SameNames s t → Consistent s → Consistent t
SameNames-Consistent {s = s} {t = t} h c = record {
  symbols_agree = λ n p k. ground (arith, c.symbols_agree n p k, entry_same p h, h.symbols_same);
  macros_agree = λ n p. ground (arith, c.macros_agree n p, entry_same p h, h.macros_same);
  references_agree =
      λ n p. ground (arith, c.references_agree n p, entry_same p h, h.references_same);
  headers_agree = λ n p. ground (arith, c.headers_agree n p, entry_same p h, h.headers_same);
  includes_agree = λ n p. ground (arith, c.includes_agree n p, entry_same p h, h.includes_same);
}

-- The parsed edges stand apart from the tables of names.
forget_includes-SameNames : (c : Option FilePath) (s : Index) → SameNames s (forget_includes c s)
unfolding forget_includes replace_includes
forget_includes-SameNames none s = SameNames-refl s
forget_includes-SameNames (some c) s = found (find c s.included_files)
  where
    found :
        (o : Option (List FilePath))
        → SameNames s (elim o [
          | none ↦ s
          | some old ↦
              let s' = replace_includes c [] s in
              record s' { included_files = erase c s'.included_files }
        ])
    found none = SameNames-refl s
    found (some old) = record {
      symbols_same = refl;
      macros_same = refl;
      references_same = refl;
      headers_same = refl;
      includes_same = refl;
      files_same = refl;
    }

pub forget_edges-SameNames :
    (k : Disk) (p : FilePath) (s : Index)
    → SameNames s (forget_edges k p (record s { resolved_includers = [] }))
unfolding forget_edges
forget_edges-SameNames k p s = nonempty s.included_files
  where
    cleared : Index
    cleared = record s { resolved_includers = [] }

    cleared-SameNames : (t : Index) → SameNames cleared t → SameNames s t
    cleared-SameNames t h = record {
      symbols_same = h.symbols_same;
      macros_same = h.macros_same;
      references_same = h.references_same;
      headers_same = h.headers_same;
      includes_same = h.includes_same;
      files_same = h.files_same;
    }

    nonempty :
        (l : List (FilePath × List FilePath))
        → SameNames s (elim l [ [] ↦ cleared | e ∷ es ↦ forget_includes (k.canonical p) cleared ])
    nonempty [] = cleared-SameNames cleared (SameNames-refl cleared)
    nonempty (e ∷ es) =
        cleared-SameNames (forget_includes (k.canonical p) cleared)
          (forget_includes-SameNames (k.canonical p) cleared)

pub replace_all-SameNames :
    (es : List (FilePath × List FilePath)) (s : Index) → SameNames s (replace_all es s)
unfolding replace_all replace_includes
replace_all-SameNames [] s = SameNames-refl s
replace_all-SameNames ((p, ts) ∷ es) s =
    let h = replace_all-SameNames es (replace_includes p ts s) in
    record {
      symbols_same = h.symbols_same;
      macros_same = h.macros_same;
      references_same = h.references_same;
      headers_same = h.headers_same;
      includes_same = h.includes_same;
      files_same = h.files_same;
    }
