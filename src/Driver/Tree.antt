-- ===== src/Driver/Tree.antt =====
-- src/document/SlangDoc.cpp: `getSyntaxTree`, which may move a document to another buffer, and the
-- tasks of src/ServerDriver.cpp that ask for trees. A read that throws ends the task.
use slang_server_verilator.Assoc.{find}
use slang_server_verilator.Driver.Kept.{fresh, put, get_document}
use slang_server_verilator.Driver.Types.{
  Manager, Document, Driver, Task, analyzing, publishing, refreshing, indexing, Analysis, Outcome,
  returned, threw, then_do, state_of,
}
use slang_server_verilator.Prelude.{
  Bool, true, false, ◌||◌, List, [], ◌∷◌, Option, none, some, if◌then◌else◌, Bytes, list_eq,
}

module _ {Buffer Files : Type 0} (m : Manager Buffer Files) (a : Analysis Buffer Files) where
  -- The first of the include contexts of a file, if some file that is indexed may include it
  unfoldable pub include_contexts : Bytes → Driver Buffer Files → List Buffer
  include_contexts p w =
      if a.has_potential_includers (m.canonical p) w then a.contexts (m.canonical p) w else []

  -- A document takes the buffer that it has where it is included.
  unfoldable pub adopt : Buffer → Document Buffer → Files → Document Buffer
  adopt b d s =
      if a.on_context d b s
      then d
      else record { buffer = b; tree = true; analysis = false; include_compilation = true }

  unfoldable pub leave_context : Document Buffer → Document Buffer
  leave_context d = if d.include_compilation then fresh m a d.buffer else d

  -- The tree is made of a buffer.
  unfoldable pub parse_on :
      Bytes → Document Buffer → Buffer → Driver Buffer Files → Driver Buffer Files
  parse_on u d b w =
      put m a u (record d { buffer = b; tree = true }) (record w { files = a.parse b w.files })

  unfoldable pub parse_again :
      Bytes
      → Document Buffer
      → Option Buffer × Files
      → Driver Buffer Files
      → Outcome (Driver Buffer Files)
  parse_again u d (none, s) w = threw (record w { files = s })
  parse_again u d (some b, s) w = returned (parse_on u d b (record w { files = s }))

  unfoldable pub own_tree :
      Bytes → Document Buffer → Driver Buffer Files → Outcome (Driver Buffer Files)
  own_tree u d w =
      let again = parse_again u d (m.read (a.path u) w.files) w in
      if d.tree
      then (if a.has_valid_buffers d w.files then returned (put m a u d w) else again)
      else (if m.is_latest w.files d.buffer then returned (parse_on u d d.buffer w) else again)

  unfoldable pub tree_in :
      List Buffer → Bytes → Document Buffer → Driver Buffer Files → Outcome (Driver Buffer Files)
  tree_in [] u d w = own_tree u (leave_context d) w
  tree_in (b ∷ bs) u d w = returned (put m a u (adopt b d w.files) w)

  -- `SlangDoc::getSyntaxTree`
  unfoldable pub get_syntax_tree :
      Bytes → Document Buffer → Driver Buffer Files → Outcome (Driver Buffer Files)
  get_syntax_tree u d w = tree_in (include_contexts (m.full_path d.buffer) w) u d w

  unfoldable pub tree_kept :
      Bytes → Option (Document Buffer) → Driver Buffer Files → Outcome (Driver Buffer Files)
  tree_kept u none w = returned w
  tree_kept u (some d) w = get_syntax_tree u d w

  unfoldable pub note_analysis :
      Bool → Bytes → Option (Document Buffer) → Driver Buffer Files → Driver Buffer Files
  note_analysis b u none w = w
  note_analysis b u (some d) w = put m a u (record d { analysis = d.analysis || b }) w

  -- The tree of one document, which is opened if it is not there, and its analysis if that is made
  unfoldable pub visit : Bool → Bytes → Driver Buffer Files → Outcome (Driver Buffer Files)
  visit b u w = then_do (get_document m a u w) (λ w1.
      then_do (tree_kept u (find u w1.docs) w1)
        (λ w2. returned (note_analysis b u (find u w2.docs) w2)))

  -- The documents of a task, one after the other
  unfoldable pub visit_all : Task → List Bytes → Driver Buffer Files → Outcome (Driver Buffer Files)
  visit_all t [] w = returned w
  visit_all t (u ∷ us) w = then_do (visit (a.is_analyzed t u) u w) (visit_all t us)

  -- A task; the state when a read throws is the one that is left.
  unfoldable pub perform : Task → Bytes → Driver Buffer Files → Driver Buffer Files
  perform t u w =
      let w' = state_of (visit_all t (a.visits t u w) w) in record w' { client = a.publish t u w' }

  -- `analyzeDocument`
  unfoldable pub analyze : Bytes → Driver Buffer Files → Driver Buffer Files
  analyze u w = perform analyzing u w

  -- `publishInactiveRegions`
  unfoldable pub publish_inactive : Bytes → Driver Buffer Files → Driver Buffer Files
  publish_inactive u w = perform publishing u w

  -- The refresh with what follows it; that analyses are dropped there is left to `hasAnalysis`.
  unfoldable pub refresh_compilation : Bytes → Driver Buffer Files → Driver Buffer Files
  refresh_compilation u w = perform refreshing u w

  -- The updates of the index, which the driver's own state has no part of
  unfoldable pub update_index : Bytes → Driver Buffer Files → Driver Buffer Files
  update_index u w = perform indexing u w
