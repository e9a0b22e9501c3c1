-- ===== src/Driver/Save.antt =====
-- src/SlangServer.cpp and src/ServerDriver.cpp: `onDocDidSave` of the server and of the driver.
use slang_server_verilator.Assoc.{find, contains}
use slang_server_verilator.Diag.Publish.{clear}
use slang_server_verilator.Doc.Change.{text_matches}
use slang_server_verilator.Driver.Documents.{open_document}
use slang_server_verilator.Driver.Kept.{as_doc, get_document}
use slang_server_verilator.Driver.Tree.{analyze, refresh_compilation, update_index}
use slang_server_verilator.Driver.Types.{
  Manager, Document, Driver, Analysis, Outcome, returned, then_do,
}
use slang_server_verilator.Prelude.{
  Bool, true, false, not, ◌&&◌, ◌||◌, List, [], ◌∷◌, Option, none, some, if◌then◌else◌, Bytes,
  list_eq, list_eqb,
}

module _ {Buffer Files : Type 0} (m : Manager Buffer Files) (a : Analysis Buffer Files) where
  -- Whether an open document is to be analyzed again: not if it has an analysis and another tree
  unfoldable pub is_affected : Option (Document Buffer) → Option (Document Buffer) → Files → Bool
  is_affected none saved s = false
  is_affected (some d) none s = true
  is_affected (some d) (some e) s = not (a.has_analysis d s && not (a.same_tree d e))

  unfoldable pub analyze_others : Bytes → List Bytes → Driver Buffer Files → Driver Buffer Files
  analyze_others u [] w = w
  analyze_others u (v ∷ vs) w = analyze_others u vs (
      if list_eqb v u || not (is_affected (find v w.docs) (find u w.docs) w.files)
      then w
      else analyze m a v w)

  unfoldable pub analyze_saved : Bytes → Driver Buffer Files → Driver Buffer Files
  analyze_saved u w = let w' = analyze m a u w in analyze_others u w'.open_docs w'

  -- `ServerDriver::onDocDidSave`
  unfoldable pub save_document : Bytes → Driver Buffer Files → Driver Buffer Files
  save_document u w =
      let w' = update_index m a u w in
      if w'.has_comp
      then refresh_compilation m a u (record w' { client = clear w'.client })
      else analyze_saved u w'

  unfoldable pub matches_kept : Bytes → Option (Document Buffer) → Files → Bool
  matches_kept text none s = false
  matches_kept text (some d) s = text_matches (as_doc m a s d) text

  -- The text that the client saved replaces the one that the server has, if it is another.
  unfoldable pub check_text :
      Bytes → Option Bytes → Driver Buffer Files → Outcome (Driver Buffer Files)
  check_text u none w = returned w
  check_text u (some text) w =
      if matches_kept text (find u w.docs) w.files
      then returned w
      else then_do (open_document m a u text w) (get_document m a u)

  -- `SlangServer::onDocDidSave`
  unfoldable pub on_doc_did_save :
      Bytes → Option Bytes → Driver Buffer Files → Outcome (Driver Buffer Files)
  on_doc_did_save u text w =
      if contains u w.open_docs
      then then_do (get_document m a u w)
          (λ w1. then_do (check_text u text w1) (λ w2. returned (save_document u w2)))
      else returned w
