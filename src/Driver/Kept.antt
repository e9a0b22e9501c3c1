-- ===== src/Driver/Kept.antt =====
-- src/ServerDriver.cpp and src/document/SlangDoc.cpp: the documents that are kept, and `getDocument`.
use slang_server_verilator.Assoc.{find, assign}
use slang_server_verilator.Doc.Change.{SlangDoc}
use slang_server_verilator.Driver.Types.{
  Manager, Document, Driver, Analysis, Outcome, returned, threw,
}
use slang_server_verilator.Prelude.{false, Option, none, some, Bytes, list_eq}

module _ {Buffer Files : Type 0} (m : Manager Buffer Files) (a : Analysis Buffer Files) where
  -- What `getText` and the flags of a document say
  unfoldable pub as_doc : Files → Document Buffer → SlangDoc
  as_doc s d = record {
    text = m.text s d.buffer;
    tree = d.tree;
    analysis = d.analysis;
    include_compilation = d.include_compilation;
  }

  unfoldable pub fresh : Buffer → Document Buffer
  fresh b = record { buffer = b; tree = false; analysis = false; include_compilation = false }

  -- `docs[uri] = doc`
  unfoldable pub put : Bytes → Document Buffer → Driver Buffer Files → Driver Buffer Files
  put u d w = record w { docs = assign u d w.docs }

  -- `docs[uri] = doc`, of a new document on a buffer
  unfoldable pub put_fresh : Bytes → Buffer × Files → Driver Buffer Files → Driver Buffer Files
  put_fresh u (b, s) w = put u (fresh b) (record w { files = s })

  unfoldable pub opened_from_disk :
      Bytes → Option Buffer × Files → Driver Buffer Files → Outcome (Driver Buffer Files)
  opened_from_disk u (none, s) w = threw (record w { files = s })
  opened_from_disk u (some b, s) w = returned (put_fresh u (b, s) w)

  unfoldable pub get_found :
      Bytes → Option (Document Buffer) → Driver Buffer Files → Outcome (Driver Buffer Files)
  get_found u (some d) w = returned w
  get_found u none w = opened_from_disk u (m.read (a.path u) w.files) w

  -- `getDocument`: a document that is not kept is opened from the disk, or the read throws. The
  -- document is then the one that is kept.
  unfoldable pub get_document : Bytes → Driver Buffer Files → Outcome (Driver Buffer Files)
  get_document u w = get_found u (find u w.docs) w
