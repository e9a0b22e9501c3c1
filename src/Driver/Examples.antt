-- ===== src/Driver/Examples.antt =====
-- A client that opens a file, changes it, closes it, and changes of the disk, on the manager in memory.
use slang_server_verilator.Doc.Change.{whole_document}
use slang_server_verilator.Driver.History.{Notification, did_open, did_change, files_changed}
use slang_server_verilator.Driver.Memory.{Buffer, Files}
use slang_server_verilator.Driver.Mirror.{Editor}
use slang_server_verilator.Driver.Types.{Driver, created}
use slang_server_verilator.Prelude.{ℕ, true, false, List, [], ◌∷◌, none, Bytes, list_eq}
use slang_server_verilator.Text.{codes}

abbrev lines : Bytes → List ℕ
lines s = 0 ∷ []

abbrev empty : Driver Buffer Files
empty = record {
  files = λ p. none;
  docs = [];
  open_docs = [];
  build_sources = codes "file:///b.sv" ∷ [];
  has_comp = false;
  client = record { diagnostics = []; dirty = []; sent = [] };
}

abbrev notifications : List Notification
notifications =
    did_open (codes "file:///a.sv") (codes "x")
    ∷ files_changed (record { uri = codes "file:///a.sv"; type = created } ∷ [])
    ∷ did_change (codes "file:///a.sv") (whole_document (codes "yz") ∷ []) true
    ∷ []

abbrev holds_x : Editor
holds_x = (codes "file:///a.sv", codes "x") ∷ []

abbrev holds_yz : Editor
holds_yz = (codes "file:///a.sv", codes "yz") ∷ []
