-- ===== src/Index/Edges.antt =====
-- src/Indexer.cpp: the two directions of the parsed includes, `includedFiles_` and `includers_`.
use slang_server_verilator.Assoc.Multi.{at, listed, drop_all, listed-push_all, listed-drop_all}
use slang_server_verilator.Assoc.{find, assign, erase, contains, find-assign, find-erase}
use slang_server_verilator.Index.History.{
  Call, update_document, add_files, watched, update_includes, call, run,
}
use slang_server_verilator.Index.Types.{
  FilePath, path_eq, path_eqb, path_eqb_iff, IndexedPath, Index, Disk,
}
use slang_server_verilator.Index.Update.{
  distinct, replace_includes, replace_all, forget_includes, forget_edges, remove_path,
  remove_stored, remove_entry, index_path, add_entry, add_documents, Change, created, changed,
  deleted, removals, paths_to_add, on_watched_files,
}
use slang_server_verilator.Prelude.{
  false, List, [], ◌∷◌, ◌≡◌, refl, Option, none, some, arith, if◌then◌else◌,
}

-- A file is among the includers of exactly the files that it includes.
abbrev pub Mirrored : Index → Type 0
Mirrored s = (a b : FilePath) → listed b a s.includers ≡ contains b (at a s.included_files)

contains-distinct : (t : FilePath) (ts : List FilePath) → contains t (distinct ts) ≡ contains t ts
unfolding distinct contains
contains-distinct t [] = refl
contains-distinct t (x ∷ ts) =
    ground (arith, contains-distinct t ts, contains-distinct x ts, path_eqb_iff x t)

at-replaced :
    (p a : FilePath) (ts : List FilePath) (m : List (FilePath × List FilePath))
    → at a (assign p ts (erase p m)) ≡ (if path_eqb p a then ts else at a m)
unfolding at
at-replaced p a ts m = ground (arith, find-assign p a ts (erase p m), find-erase p a m)

at-erase :
    (p a : FilePath) (m : List (FilePath × List FilePath))
    → at a (erase p m) ≡ (if path_eqb p a then [] else at a m)
unfolding at
at-erase p a m = ground (arith, find-erase p a m)

-- `replaceIncludes` makes the parent's includes the given targets, each once, and leaves every
-- other file's.
pub included-replace_includes :
    (p : FilePath) (ts : List FilePath) (a b : FilePath) (s : Index)
    → contains b (at a (replace_includes p ts s).included_files)
      ≡ (if path_eqb p a then contains b ts else contains b (at a s.included_files))
unfolding replace_includes
included-replace_includes p ts a b s =
    ground (arith, at-replaced p a (distinct ts) s.included_files, contains-distinct b ts)

replace_includes-Mirrored :
    (p : FilePath) (ts : List FilePath) (s : Index)
    → Mirrored s
    → Mirrored (replace_includes p ts s)
unfolding replace_includes
replace_includes-Mirrored p ts s h a b =
    let old = at p s.included_files in
    ground (
      arith,
      listed-push_all (distinct ts) b p a (drop_all old p s.includers),
      listed-drop_all old b p a s.includers,
      at-replaced p a (distinct ts) s.included_files,
      h a b,
      path_eqb_iff p a,
    )

-- The includes of a file that is removed are forgotten in both directions.
forgotten-Mirrored :
    (c : FilePath) (s : Index)
    → Mirrored s
    → (let s' = replace_includes c [] s in
        Mirrored (record s' { included_files = erase c s'.included_files }))
forgotten-Mirrored c s h a b = ground (
  arith,
  replace_includes-Mirrored c [] s h a b,
  at-erase c a (replace_includes c [] s).included_files,
  included-replace_includes c [] a b s,
  path_eqb_iff c a,
  nothing b,
)
  where
    nothing : (b : FilePath) → contains b [] ≡ false
    nothing b = unfold contains in refl

forget_includes-Mirrored :
    (c : Option FilePath) (s : Index) → Mirrored s → Mirrored (forget_includes c s)
unfolding forget_includes
forget_includes-Mirrored none s h = h
forget_includes-Mirrored (some c) s h = found (find c s.included_files)
  where
    found :
        (o : Option (List FilePath))
        → Mirrored (elim o [
          | none ↦ s
          | some old ↦
              let s' = replace_includes c [] s in
              record s' { included_files = erase c s'.included_files }
        ])
    found none = h
    found (some old) = forgotten-Mirrored c s h

forget_edges-Mirrored :
    (k : Disk) (p : FilePath) (s : Index) → Mirrored s → Mirrored (forget_edges k p s)
unfolding forget_edges
forget_edges-Mirrored k p s h = nonempty s.included_files
  where
    nonempty :
        (l : List (FilePath × List FilePath))
        → Mirrored (elim l [ [] ↦ s | e ∷ es ↦ forget_includes (k.canonical p) s ])
    nonempty [] = h
    nonempty (e ∷ es) = forget_includes-Mirrored (k.canonical p) s h

remove_stored-Mirrored :
    (o : Option IndexedPath) (p : FilePath) (s : Index)
    → Mirrored s
    → Mirrored (remove_stored o p s)
unfolding remove_stored remove_entry
remove_stored-Mirrored none p s h = h
remove_stored-Mirrored (some f) p s h = h

remove_path-Mirrored :
    (k : Disk) (p : FilePath) (s : Index) → Mirrored s → Mirrored (remove_path k p s)
unfolding remove_path
remove_path-Mirrored k p s h =
    let t = forget_edges k p (record s { resolved_includers = [] }) in
    remove_stored-Mirrored (find p t.indexed_files) p t
      (forget_edges-Mirrored k p (record s { resolved_includers = [] }) h)

add_documents-Mirrored :
    (k : Disk) (ps : List FilePath) (s : Index) → Mirrored s → Mirrored (add_documents k ps s)
unfolding add_documents index_path add_entry
add_documents-Mirrored k [] s h = h
add_documents-Mirrored k (p ∷ ps) s h =
    add_documents-Mirrored k ps (index_path k p (k.parse p) s) (remove_path-Mirrored k p s h)

removals-Mirrored :
    (k : Disk) (cs : List Change) (s : Index) → Mirrored s → Mirrored (removals k cs s)
unfolding removals
removals-Mirrored k [] s h = h
removals-Mirrored k (created p ∷ cs) s h = removals-Mirrored k cs s h
removals-Mirrored k (changed p ∷ cs) s h =
    removals-Mirrored k cs (remove_path k p s) (remove_path-Mirrored k p s h)
removals-Mirrored k (deleted p ∷ cs) s h =
    removals-Mirrored k cs (remove_path k p s) (remove_path-Mirrored k p s h)

replace_all-Mirrored :
    (es : List (FilePath × List FilePath)) (s : Index) → Mirrored s → Mirrored (replace_all es s)
unfolding replace_all
replace_all-Mirrored [] s h = h
replace_all-Mirrored ((p, ts) ∷ es) s h =
    replace_all-Mirrored es (replace_includes p ts s) (replace_includes-Mirrored p ts s h)

call-Mirrored : (c : Call) (s : Index) → Mirrored s → Mirrored (call c s)
unfolding call on_watched_files index_path add_entry
call-Mirrored (update_document k p f) s h = remove_path-Mirrored k p s h
call-Mirrored (add_files k ps) s h = add_documents-Mirrored k ps s h
call-Mirrored (watched k cs) s h =
    add_documents-Mirrored k (paths_to_add k cs) (removals k cs s) (removals-Mirrored k cs s h)
call-Mirrored (update_includes es) s h = replace_all-Mirrored es s h

-- After any updates a file is among the recorded includers of exactly the files that are recorded
-- as its includes.
pub run-Mirrored : (cs : List Call) → Mirrored (run cs)
unfolding run contains at find
run-Mirrored [] = λ a b. refl
run-Mirrored (c ∷ cs) = call-Mirrored c (run cs) (run-Mirrored cs)
