-- ===== src/Index/History.antt =====
-- src/Indexer.cpp: the index after any sequence of updates, against a plain map from files to what
-- was last found in them.
use slang_server_verilator.Assoc.Multi.{listed}
use slang_server_verilator.Assoc.{find, contains}
use slang_server_verilator.Index.Consistent.{Consistent}
use slang_server_verilator.Index.Preserve.{
  empty_index-Consistent, entry-remove_path, remove_path-Consistent, entry-index_path,
  index_path-Consistent, replace_all-Consistent, entry-replace_all,
}
use slang_server_verilator.Index.Query.{
  get_files_for_macro, get_files_referencing_symbol, get_headers_for_symbol,
}
use slang_server_verilator.Index.Types.{
  FilePath, path_eq, path_eqb, path_eqb_iff, symbol_eq, loc_eq, IndexedPath, no_entry, Index, Disk,
  entry, empty_index,
}
use slang_server_verilator.Index.Update.{
  remove_path, index_path, add_documents, Change, created, changed, deleted, removals, paths_to_add,
  on_watched_files, replace_all,
}
use slang_server_verilator.Prelude.{
  ℕ, List, [], ◌∷◌, ◌≡◌, refl, ap, ◌∙◌, arith, if◌then◌else◌, Bytes, list_eq,
}

-- An update: `updateDocument`, `addDocuments`, `onWorkspaceDidChangeWatchedFiles`, with the disk
-- at that time, and `updateIncludes`.
pub data Call : Type 0 where
  update_document : Disk → FilePath → IndexedPath → Call
  add_files : Disk → List FilePath → Call
  watched : Disk → List Change → Call
  update_includes : List (FilePath × List FilePath) → Call

unfoldable pub call : Call → Index → Index
call (update_document k p f) s = index_path k p f s
call (add_files k ps) s = add_documents k ps s
call (watched k cs) s = on_watched_files k cs s
call (update_includes es) s = replace_all es s

-- The updates, the last one first
unfoldable pub run : List Call → Index
run [] = empty_index
run (c ∷ cs) = call c (run cs)

-- The files that a batch of changes removes
unfoldable pub removed : List Change → List FilePath
removed [] = []
removed (created p ∷ cs) = removed cs
removed (changed p ∷ cs) = p ∷ removed cs
removed (deleted p ∷ cs) = p ∷ removed cs

-- The map from files to what was last found in them
unfoldable pub content : List Call → FilePath → IndexedPath
content [] q = no_entry
content (update_document k p f ∷ cs) q = if path_eqb p q then f else content cs q
content (add_files k ps ∷ cs) q = if contains q ps then k.parse q else content cs q
content (watched k es ∷ cs) q =
    if contains q (paths_to_add k es)
    then k.parse q
    else if contains q (removed es)
    then no_entry
    else content cs q
content (update_includes es ∷ cs) q = content cs q

entry-add_documents :
    (k : Disk) (ps : List FilePath) (q : FilePath) (s : Index)
    → entry q (add_documents k ps s) ≡ (if contains q ps then k.parse q else entry q s)
unfolding add_documents contains
entry-add_documents k [] q s = refl
entry-add_documents k (p ∷ ps) q s =
    let t = index_path k p (k.parse p) s in
    ground
      (arith, entry-add_documents k ps q t, entry-index_path k p q (k.parse p) s, path_eqb_iff p q)

entry-removals :
    (k : Disk) (cs : List Change) (q : FilePath) (s : Index)
    → entry q (removals k cs s) ≡ (if contains q (removed cs) then no_entry else entry q s)
unfolding removals removed contains
entry-removals k [] q s = refl
entry-removals k (created p ∷ cs) q s = entry-removals k cs q s
entry-removals k (changed p ∷ cs) q s =
    ground (arith, entry-removals k cs q (remove_path k p s), entry-remove_path k p q s)
entry-removals k (deleted p ∷ cs) q s =
    ground (arith, entry-removals k cs q (remove_path k p s), entry-remove_path k p q s)

-- After a batch of changes a file to add has what is parsed of it, whatever the changes say of it
-- otherwise; another changed or deleted file has nothing, and every other file what it had.
pub entry-on_watched_files :
    (k : Disk) (cs : List Change) (q : FilePath) (s : Index)
    → entry q (on_watched_files k cs s) ≡ (
        if contains q (paths_to_add k cs)
        then k.parse q
        else if contains q (removed cs)
        then no_entry
        else entry q s)
unfolding on_watched_files
entry-on_watched_files k cs q s =
    ground (
      arith,
      entry-add_documents k (paths_to_add k cs) q (removals k cs s),
      entry-removals k cs q s,
    )

add_documents-Consistent :
    (k : Disk) (ps : List FilePath) (s : Index) → Consistent s → Consistent (add_documents k ps s)
unfolding add_documents
add_documents-Consistent k [] s h = h
add_documents-Consistent k (p ∷ ps) s h =
    add_documents-Consistent k ps (index_path k p (k.parse p) s)
      (index_path-Consistent k p (k.parse p) s h)

removals-Consistent :
    (k : Disk) (cs : List Change) (s : Index) → Consistent s → Consistent (removals k cs s)
unfolding removals
removals-Consistent k [] s h = h
removals-Consistent k (created p ∷ cs) s h = removals-Consistent k cs s h
removals-Consistent k (changed p ∷ cs) s h =
    removals-Consistent k cs (remove_path k p s) (remove_path-Consistent k p s h)
removals-Consistent k (deleted p ∷ cs) s h =
    removals-Consistent k cs (remove_path k p s) (remove_path-Consistent k p s h)

-- Every update keeps the tables of names in agreement with the stored entries.
pub call-Consistent : (c : Call) (s : Index) → Consistent s → Consistent (call c s)
unfolding call on_watched_files
call-Consistent (update_document k p f) s h = index_path-Consistent k p f s h
call-Consistent (add_files k ps) s h = add_documents-Consistent k ps s h
call-Consistent (watched k cs) s h =
    add_documents-Consistent k (paths_to_add k cs) (removals k cs s) (removals-Consistent k cs s h)
call-Consistent (update_includes es) s h = replace_all-Consistent es s h

run-Consistent : (cs : List Call) → Consistent (run cs)
unfolding run
run-Consistent [] = empty_index-Consistent
run-Consistent (c ∷ cs) = call-Consistent c (run cs) (run-Consistent cs)

entry-run : (cs : List Call) (q : FilePath) → entry q (run cs) ≡ content cs q
unfolding run call content entry find
entry-run [] q = refl
entry-run (update_document k p f ∷ cs) q =
    ground (arith, entry-index_path k p q f (run cs), entry-run cs q)
entry-run (add_files k ps ∷ cs) q =
    ground (arith, entry-add_documents k ps q (run cs), entry-run cs q)
entry-run (watched k es ∷ cs) q =
    ground (arith, entry-on_watched_files k es q (run cs), entry-run cs q)
entry-run (update_includes es ∷ cs) q = entry-replace_all es q (run cs) ∙ entry-run cs q

-- After any updates the lookups by a macro, by a referenced symbol and by a header's symbol lead to
-- exactly the files in which the name was last found.
pub run-lookups :
    (cs : List Call) (n : Bytes) (q : FilePath)
    → (contains q (get_files_for_macro n (run cs)) ≡ contains n (content cs q).macros)
      × (contains q (get_files_referencing_symbol n (run cs))
          ≡ contains n (content cs q).referenced)
      × (contains q (get_headers_for_symbol n (run cs)) ≡ contains n (content cs q).header_symbols)
unfolding get_files_for_macro get_files_referencing_symbol get_headers_for_symbol
run-lookups cs n q =
    let h = run-Consistent cs in
    (
      h.macros_agree n q ∙ ap (λ f. contains n f.macros) (entry-run cs q),
      h.references_agree n q ∙ ap (λ f. contains n f.referenced) (entry-run cs q),
      h.headers_agree n q ∙ ap (λ f. contains n f.header_symbols) (entry-run cs q),
    )

-- After any updates the entries of a symbol are exactly the files in which it was last found, each
-- with the kind of its declaration.
pub run-symbols :
    (cs : List Call) (n : Bytes) (q : FilePath) (kind : ℕ)
    → listed n (record { uri = q; kind = kind }) (run cs).symbol_to_files
      ≡ contains (record { name = n; kind = kind }) (content cs q).symbols
run-symbols cs n q kind =
    (run-Consistent cs).symbols_agree n q kind
    ∙ ap (λ f. contains (record { name = n; kind = kind }) f.symbols) (entry-run cs q)
