-- ===== src/Diag/Publish.antt =====
-- src/ServerDiagClient.cpp: the state of the client and the methods that clear and push.
use slang_server_verilator.Assoc.{find, erase, keys, contains, add, remove}
use slang_server_verilator.Diag.Types.{Diagnostic}
use slang_server_verilator.Prelude.{List, [], ◌∷◌, none, some, if◌then◌else◌, Bytes, list_eq}

-- What reaches the editor: `textDocument/publishDiagnostics`, and the two kinds of pop-up.
pub data Message : Type 0 where
  publish : Bytes → List Diagnostic → Message
  show_warning show_error : Bytes → Message

-- `m_diagnostics`, `m_dirtyUris`, and the messages sent through `m_client`, the newest first.
pub record DiagClient : Type 0 where
  pub diagnostics : List (Bytes × List Diagnostic)
  pub dirty : List Bytes
  pub sent : List Message

abbrev pub send : Message → DiagClient → DiagClient
send m c = record c { sent = m ∷ c.sent }

-- `m_dirtyUris.emplace(uri)`
abbrev pub mark : Bytes → DiagClient → DiagClient
mark u c = record c { dirty = add u c.dirty }

-- `clear(URI uri)`
unfoldable pub clear_uri : Bytes → DiagClient → DiagClient
clear_uri u c = mark u (record c { diagnostics = erase u c.diagnostics })

unfoldable pub mark_all : List Bytes → DiagClient → DiagClient
mark_all [] c = c
mark_all (u ∷ us) c = mark_all us (mark u c)

-- `clear()`
unfoldable pub clear : DiagClient → DiagClient
clear c =
    let marked = mark_all (keys c.diagnostics) c in
    record { diagnostics = []; dirty = marked.dirty; sent = marked.sent }

unfoldable pub send_empty : List Bytes → DiagClient → DiagClient
send_empty [] c = c
send_empty (u ∷ us) c = send_empty us (send (publish u []) c)

-- `clearAndPush()`
unfoldable pub clear_and_push : DiagClient → DiagClient
clear_and_push c =
    let told = send_empty c.dirty (send_empty (keys c.diagnostics) c) in
    record { diagnostics = []; dirty = []; sent = told.sent }

-- The body of the loop of `pushDiags()`
unfoldable pub push_one : Bytes → DiagClient → DiagClient
push_one u c = elim (find u c.diagnostics) [
  | some ds ↦ send (publish u ds) c
  | none ↦ send (publish u []) c
]

unfoldable pub push_each : List Bytes → DiagClient → DiagClient
push_each [] c = c
push_each (u ∷ us) c = push_each us (push_one u c)

-- `pushDiags()`
unfoldable pub push_diags : DiagClient → DiagClient
push_diags c =
    let told = push_each c.dirty c in
    record { diagnostics = told.diagnostics; dirty = []; sent = told.sent }

-- The first half of `pushDiags(const URI& priorityUri)`
unfoldable pub push_priority : Bytes → DiagClient → DiagClient
push_priority u c = elim (find u c.diagnostics) [
  | some ds ↦ send (publish u ds) c
  | none ↦ if contains u c.dirty then send (publish u []) c else c
]

-- `pushDiags(const URI& priorityUri)`
unfoldable pub push_first : Bytes → DiagClient → DiagClient
push_first u c =
    let told = push_priority u c in push_diags (record told { dirty = remove u told.dirty })
