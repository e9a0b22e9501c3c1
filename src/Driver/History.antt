-- ===== src/Driver/History.antt =====
-- src/SlangServer.cpp and src/ServerDriver.cpp: the client's notifications on documents, in any order,
-- with changes of the disk between them.
use slang_server_verilator.Assoc.{find, assign, erase}
use slang_server_verilator.Doc.Change.{ContentChange, ends_with_null}
use slang_server_verilator.Doc.Splice.{AppliesAll}
use slang_server_verilator.Driver.Changes.{on_doc_did_change, on_watched_files}
use slang_server_verilator.Driver.Notified.{uris}
use slang_server_verilator.Driver.Documents.{open_document, close_document}
use slang_server_verilator.Driver.Laws.{AllOf}
use slang_server_verilator.Driver.Mirror.{Editor}
use slang_server_verilator.Driver.Save.{on_doc_did_save}
use slang_server_verilator.Driver.Types.{
  Manager, Driver, Analysis, Outcome, returned, state_of, FileEvent,
}
use slang_server_verilator.Position.Utf8.{Utf8}
use slang_server_verilator.Prelude.{
  ℕ, ◌<◌, Bool, false, List, [], ◌∷◌, ◌≡◌, Option, some, Bytes, length, list_eq,
}

-- The notifications; a change is perhaps cancelled, and a save perhaps has no text with it.
pub data Notification : Type 0 where
  did_open : Bytes → Bytes → Notification
  did_change : Bytes → List ContentChange → Bool → Notification
  did_save : Bytes → Option Bytes → Notification
  did_close : Bytes → Notification
  files_changed : List FileEvent → Notification

module _ (n : Bytes → Type 0) (u8 : Utf8) (lines : Bytes → List ℕ) where
  -- What a notification means for the client: texts end without NUL, changes apply to the client's
  -- text, and only open documents are changed or saved. The text that is saved is the client's. A file
  -- that is opened or that has changed on the disk is given by a URI in use.
  pub data Means : Editor → Notification → Editor → Type 0 where
    opens_text :
        (e : Editor) (u t : Bytes)
        → n u
        → ends_with_null t ≡ false
        → Means e (did_open u t) (assign u t e)
    changes_text :
        (e : Editor) (u x y : Bytes) (cs : List ContentChange) (cancelled : Bool)
        → find u e ≡ some x
        → AppliesAll u8 lines x cs y
        → 0 < length cs
        → Means e (did_change u cs cancelled) (assign u y e)
    saves_text :
        (e : Editor) (u x t : Bytes)
        → find u e ≡ some x
        → ends_with_null t ≡ false
        → Means e (did_save u (some t)) (assign u t e)
    closes_text : (e : Editor) (u : Bytes) → Means e (did_close u) (erase u e)
    leaves_text :
        (e : Editor) (cs : List FileEvent) → AllOf n (uris cs) → Means e (files_changed cs) e

  pub data MeansAll : Editor → List Notification → Editor → Type 0 where
    nothing : (e : Editor) → MeansAll e [] e
    more :
        (e f g : Editor) (x : Notification) (ns : List Notification)
        → Means e x f
        → MeansAll f ns g
        → MeansAll e (x ∷ ns) g

module _ {Buffer Files : Type 0} (m : Manager Buffer Files) (a : Analysis Buffer Files) (u8 : Utf8)
    (lines : Bytes → List ℕ) where
  -- The handlers of `SlangServer`, as far as they go to the driver
  unfoldable pub handle : Notification → Driver Buffer Files → Outcome (Driver Buffer Files)
  handle (did_open u t) w = open_document m a u t w
  handle (did_change u cs cancelled) w = on_doc_did_change m a u8 lines u cs cancelled w
  handle (did_save u t) w = on_doc_did_save m a u t w
  handle (did_close u) w = returned (close_document m a u w)
  handle (files_changed cs) w = returned (on_watched_files m a cs w)

  unfoldable pub run : List Notification → Driver Buffer Files → Driver Buffer Files
  run [] w = w
  run (n ∷ ns) w = run ns (state_of (handle n w))
