-- ===== src/Driver/Documents.antt =====
-- src/ServerDriver.cpp: the operations on documents, with `fromText`, `open` and `reloadBuffer` of
-- src/document/SlangDoc.cpp. A text that the client sends is without NUL behind it.
use slang_server_verilator.Assoc.{find, contains, add, remove}
use slang_server_verilator.Diag.Publish.{clear_uri}
use slang_server_verilator.Doc.Change.{ensure_null_terminated, text_matches}
use slang_server_verilator.Driver.Kept.{as_doc, fresh, put_fresh}
use slang_server_verilator.Driver.Tree.{analyze, publish_inactive}
use slang_server_verilator.Driver.Types.{
  Manager, Document, Driver, Analysis, Outcome, returned, threw, then_do,
}
use slang_server_verilator.Prelude.{
  Bool, true, false, ◌&&◌, Option, none, some, if◌then◌else◌, Bytes, list_eq,
}

module _ {Buffer Files : Type 0} (m : Manager Buffer Files) (a : Analysis Buffer Files) where
  -- The part of `fromText` for a path that is cached
  unfoldable pub replace_text : Bytes → Option Buffer × Files → Bytes → Option (Buffer × Files)
  replace_text p (none, s) text = none
  replace_text p (some b, s) text = some (
      if text_matches (as_doc m a s (fresh m a b)) text
      then (b, s)
      else m.replace b (ensure_null_terminated text) s)

  unfoldable pub text_at : Bytes → Option Buffer → Bytes → Files → Option (Buffer × Files)
  text_at p none text s = some (m.assign_text p text s)
  text_at p (some b) text s = replace_text p (m.read p s) text

  -- `SlangDoc::fromText`: the buffer that the new document has
  unfoldable pub from_text : Bytes → Bytes → Files → Option (Buffer × Files)
  from_text u text s = text_at (m.canonical (a.path u)) (m.latest s (m.canonical (a.path u))) text s

  unfoldable pub put_text :
      Bytes → Option (Buffer × Files) → Driver Buffer Files → Outcome (Driver Buffer Files)
  put_text u none w = threw w
  put_text u (some made) w = returned (put_fresh m a u made w)

  -- The end of `openDocument`
  unfoldable pub note_open : Bytes → Driver Buffer Files → Driver Buffer Files
  note_open u w = record w { open_docs = add u w.open_docs }

  unfoldable pub show_open : Bool → Bytes → Driver Buffer Files → Driver Buffer Files
  show_open matches u w =
      note_open u (if w.has_comp && matches then publish_inactive m a u w else analyze m a u w)

  -- `openDocument` with a document that is made of the client's text
  unfoldable pub open_text : Bytes → Bytes → Driver Buffer Files → Outcome (Driver Buffer Files)
  open_text u text w =
      then_do (put_text u (from_text u text w.files) w) (λ w'. returned (show_open false u w'))

  -- `openDocument` of a source of the build that has no document yet
  unfoldable pub open_source :
      Bytes → Bytes → Option Buffer × Files → Driver Buffer Files → Outcome (Driver Buffer Files)
  open_source u text (none, s) w = threw (record w { files = s })
  open_source u text (some b, s) w =
      if text_matches (as_doc m a s (fresh m a b)) text
      then returned (show_open true u (put_fresh m a u (b, s) w))
      else open_text u text (record w { files = s })

  unfoldable pub open_found :
      Bytes → Bytes → Option (Document Buffer) → Driver Buffer Files → Outcome (Driver Buffer Files)
  open_found u text (some d) w =
      if text_matches (as_doc m a w.files d) text
      then returned (show_open (contains u w.build_sources) u w)
      else open_text u text w
  open_found u text none w =
      if contains u w.build_sources
      then open_source u text (m.read (a.path u) w.files) w
      else open_text u text w

  -- `openDocument`
  unfoldable pub open_document : Bytes → Bytes → Driver Buffer Files → Outcome (Driver Buffer Files)
  open_document u text w = open_found u text (find u w.docs) w

  -- `closeDocument`
  unfoldable pub close_document : Bytes → Driver Buffer Files → Driver Buffer Files
  close_document u w =
      let closed = record w { open_docs = remove u w.open_docs } in
      if w.has_comp then closed else record closed { client = clear_uri u w.client }
