-- ===== src/Driver/Changes.antt =====
-- src/ServerDriver.cpp: changes of the client, of the disk and saves, with `onDocDidSave` of
-- src/SlangServer.cpp.
use slang_server_verilator.Assoc.{find, contains}
use slang_server_verilator.Doc.Change.{ContentChange, first_change, later_changes}
use slang_server_verilator.Driver.Documents.{close_document}
use slang_server_verilator.Driver.Kept.{put_fresh, get_document}
use slang_server_verilator.Driver.Tree.{analyze}
use slang_server_verilator.Driver.Types.{
  Manager, Document, Driver, Analysis, Outcome, returned, threw, then_do, FileChangeType, created,
  changed, deleted, FileEvent,
}
use slang_server_verilator.Position.Utf8.{Utf8}
use slang_server_verilator.Prelude.{
  ℕ, ◌>>=◌, Bool, true, false, not, List, [], ◌∷◌, ◌++◌, Option, none, some, if◌then◌else◌, Bytes,
  list_eq,
}

module _ {Buffer Files : Type 0} (m : Manager Buffer Files) (a : Analysis Buffer Files) where
  -- What `onChange` makes of a text, with one change at least; none if it throws
  unfoldable pub changed_text :
      Utf8 → (Bytes → List ℕ) → Bytes → ContentChange → List ContentChange → Option Bytes
  changed_text u8 lines text c cs = do
    buffer ← first_change u8 lines text c
    later_changes u8 lines buffer cs

  unfoldable pub replace_all :
      Bytes → Document Buffer → Option Bytes → Driver Buffer Files → Outcome (Driver Buffer Files)
  replace_all u d none w = threw w
  replace_all u d (some buffer) w = returned (put_fresh m a u (m.replace d.buffer buffer w.files) w)

  -- `SlangDoc::onChange`; without changes it logs and returns.
  unfoldable pub change_text :
      Utf8
      → (Bytes → List ℕ)
      → Bytes
      → Document Buffer
      → List ContentChange
      → Driver Buffer Files
      → Outcome (Driver Buffer Files)
  change_text u8 lines u d [] w = returned w
  change_text u8 lines u d (c ∷ cs) w =
      replace_all u d (changed_text u8 lines (m.text w.files d.buffer) c cs) w

  unfoldable pub change_kept :
      Utf8
      → (Bytes → List ℕ)
      → Bytes
      → Option (Document Buffer)
      → List ContentChange
      → Driver Buffer Files
      → Outcome (Driver Buffer Files)
  change_kept u8 lines u none cs w = returned w
  change_kept u8 lines u (some d) cs w = change_text u8 lines u d cs w

  -- `onDocDidChange`: the analysis is left out when the request has been cancelled.
  unfoldable pub on_doc_did_change :
      Utf8
      → (Bytes → List ℕ)
      → Bytes
      → List ContentChange
      → Bool
      → Driver Buffer Files
      → Outcome (Driver Buffer Files)
  on_doc_did_change u8 lines u cs cancelled w = then_do (get_document m a u w) (λ w1.
      then_do (change_kept u8 lines u (find u w1.docs) cs w1)
        (λ w2. if cancelled then threw w2 else returned (analyze m a u w2)))

  unfoldable pub put_reloaded :
      Bytes
      → Document Buffer
      → Option Buffer × Files
      → Driver Buffer Files
      → Bool × Driver Buffer Files
  put_reloaded u d (none, s) w = (false, record w { files = s })
  put_reloaded u d (some b, s) w = (true, put_fresh m a u (b, s) w)

  -- `SlangDoc::reloadBuffer`
  unfoldable pub reload_buffer :
      Bytes → Document Buffer → Driver Buffer Files → Bool × Driver Buffer Files
  reload_buffer u d w = put_reloaded u d (m.reload d.buffer w.files) w

  unfoldable pub reload_kept :
      Bytes → Option (Document Buffer) → Driver Buffer Files → Driver Buffer Files
  reload_kept u none w = w
  reload_kept u (some d) w =
      let (ok, w') = reload_buffer u d w in if ok then analyze m a u w' else w'

  -- `reloadDocument`
  unfoldable pub reload_document : Bytes → Driver Buffer Files → Outcome (Driver Buffer Files)
  reload_document u w =
      if contains u w.open_docs
      then then_do (get_document m a u w) (λ w'. returned (reload_kept u (find u w'.docs) w'))
      else returned w

  -- A header that is cached without having a document
  unfoldable pub reload_header : Option Buffer × Files → Files
  reload_header (none, s) = s
  reload_header (some b, s) = (m.reload b s).1

  unfoldable pub reload_cached : Bytes → Option Buffer → Files → Files
  reload_cached p none s = s
  reload_cached p (some b) s = reload_header (m.read p s)

  unfoldable pub disk_changed :
      Bytes → Option (Document Buffer) → Driver Buffer Files → List Bytes × Driver Buffer Files
  disk_changed u none w = (
    [],
    record w {
      files = reload_cached (a.path u) (m.latest w.files (m.canonical (a.path u))) w.files;
    },
  )
  disk_changed u (some d) w = let (ok, w') = reload_buffer u d w in (if ok then u ∷ [] else [], w')

  unfoldable pub file_event :
      FileChangeType → Bytes → Driver Buffer Files → List Bytes × Driver Buffer Files
  file_event deleted u w = ([], close_document m a u w)
  file_event created u w = disk_changed u (find u w.docs) w
  file_event changed u w = disk_changed u (find u w.docs) w

  -- One round of the loop over the changes: what is to be analyzed, and the state
  unfoldable pub watched_one : FileEvent → Driver Buffer Files → List Bytes × Driver Buffer Files
  watched_one c w =
      let told = file_event c.type c.uri w in if contains c.uri w.open_docs then ([], w) else told

  unfoldable pub watched_all :
      List FileEvent → Driver Buffer Files → List Bytes × Driver Buffer Files
  watched_all [] w = ([], w)
  watched_all (c ∷ cs) w =
      let (updated, w') = watched_one c w in
      let (more, w'') = watched_all cs w' in (updated ++ more, w'')

  unfoldable pub analyze_all : List Bytes → Driver Buffer Files → Driver Buffer Files
  analyze_all [] w = w
  analyze_all (u ∷ us) w = analyze_all us (analyze m a u w)

  unfoldable pub is_stale : Option (Document Buffer) → Files → Bool
  is_stale none s = false
  is_stale (some d) s = not (a.has_analysis d s)

  unfoldable pub analyze_stale : List Bytes → Driver Buffer Files → Driver Buffer Files
  analyze_stale [] w = w
  analyze_stale (u ∷ us) w =
      analyze_stale us (if is_stale (find u w.docs) w.files then analyze m a u w else w)

  -- `onWorkspaceDidChangeWatchedFiles`
  unfoldable pub on_watched_files : List FileEvent → Driver Buffer Files → Driver Buffer Files
  on_watched_files cs w =
      let (updated, w') = watched_all cs w in
      let w'' = analyze_all updated w' in analyze_stale w''.open_docs w''
