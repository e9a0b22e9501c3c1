-- ===== src/Driver/Laws.antt =====
-- What the driver relies on of slang's source manager and of the analysis.
use slang_server_verilator.Assoc.{find}
use slang_server_verilator.Doc.Splice.{held}
use slang_server_verilator.Driver.Types.{Manager, Document, Driver, Task, Analysis}
use slang_server_verilator.Prelude.{false, List, [], ◌∷◌, ◌≡◌, ◌≢◌, none, some, Bytes, list_eq}

abbrev pub AllOf : (Bytes → Type 0) → List Bytes → Type 0
AllOf p [] = Unit {0}
AllOf p (u ∷ us) = p u × AllOf p us

module _ {Buffer Files : Type 0} (m : Manager Buffer Files) where
  -- A path keeps its buffer, and the buffer its text.
  pub record Same (p : Bytes) (s s' : Files) : Type 0 where
    pub same_latest : m.latest s' p ≡ m.latest s p
    pub same_text : (b : Buffer) → m.latest s p ≡ some b → m.text s' b ≡ m.text s b

  -- A buffer is that of its path, and each operation changes that of one path only. A path that is
  -- cached is not read again.
  pub record IsManager : Type 0 where
    pub latest_path :
        (s : Files) (p : Bytes) (b : Buffer) → m.latest s p ≡ some b → m.full_path b ≡ p
    pub read_same : (p q : Bytes) (s : Files) → q ≢ m.canonical p → Same q s (m.read p s).1
    pub read_cached :
        (p : Bytes) (s : Files) (b : Buffer)
        → m.latest s (m.canonical p) ≡ some b
        → m.read p s ≡ (some b, s)
    pub read_new :
        (p : Bytes) (s : Files) (b : Buffer)
        → (m.read p s).0 ≡ some b
        → m.latest (m.read p s).1 (m.canonical p) ≡ some b
    pub canonical_again : (p : Bytes) → m.canonical (m.canonical p) ≡ m.canonical p
    pub assign_same : (p q t : Bytes) (s : Files) → q ≢ p → Same q s (m.assign_text p t s).1
    pub assign_new :
        (p t : Bytes) (s : Files)
        → m.latest (m.assign_text p t s).1 p ≡ some (m.assign_text p t s).0
    pub assign_held :
        (p t : Bytes) (s : Files) → m.text (m.assign_text p t s).1 (m.assign_text p t s).0 ≡ held t
    pub replace_same :
        (b : Buffer) (t q : Bytes) (s : Files) → q ≢ m.full_path b → Same q s (m.replace b t s).1
    pub replace_new :
        (b : Buffer) (t : Bytes) (s : Files)
        → m.latest (m.replace b t s).1 (m.full_path b) ≡ some (m.replace b t s).0
    pub replace_held :
        (b : Buffer) (t : Bytes) (s : Files) → m.text (m.replace b t s).1 (m.replace b t s).0 ≡ t
    pub reload_same :
        (b : Buffer) (q : Bytes) (s : Files) → q ≢ m.full_path b → Same q s (m.reload b s).1
    pub reload_new :
        (b c : Buffer) (s : Files)
        → (m.reload b s).0 ≡ some c
        → m.latest (m.reload b s).1 (m.full_path b) ≡ some c
    pub reload_failed :
        (b : Buffer) (q : Bytes) (s : Files) → (m.reload b s).0 ≡ none → Same q s (m.reload b s).1

  module _ (a : Analysis Buffer Files) where
    -- The canonical path of a document
    abbrev pub place : Bytes → Bytes
    place u = m.canonical (a.path u)

    -- The URIs that are in use are those for which `Named` holds.
    module _ (Named : Bytes → Type 0) where
      -- Each document is on the latest buffer of its path, under a URI that is in use.
      pub record IsPlaced (w : Driver Buffer Files) : Type 0 where
        pub placed :
            (u : Bytes) (d : Document Buffer)
            → find u w.docs ≡ some d
            → m.latest w.files (place u) ≡ some d.buffer
        pub named : (u : Bytes) (d : Document Buffer) → find u w.docs ≡ some d → Named u

      -- A step reads files that are not cached and makes documents of them. It leaves the open
      -- documents open, a cached path on its buffer, and on its buffer a document that is on the
      -- latest one of its path.
      pub record IsGentle (w w' : Driver Buffer Files) : Type 0 where
        pub still_open : w'.open_docs ≡ w.open_docs
        pub still_cached :
            (p : Bytes) (b : Buffer) → m.latest w.files p ≡ some b → Same p w.files w'.files
        pub still_kept :
            (u : Bytes) (d : Document Buffer)
            → find u w.docs ≡ some d
            → m.latest w.files (place u) ≡ some d.buffer
            → (e : Document Buffer) × (find u w'.docs ≡ some e) × (e.buffer ≡ d.buffer)
        pub still_placed : IsPlaced w → IsPlaced w'

      -- The URIs in use name one file each, no two the same file, and the analysis asks for trees of
      -- documents under such URIs only. No file that is indexed includes a document. A parse leaves
      -- the paths that are cached as they are.
      pub record IsAnalysis : Type 0 where
        pub one_name : (u v : Bytes) → Named u → Named v → place u ≡ place v → u ≡ v
        pub visits_named :
            (t : Task) (u : Bytes) (w : Driver Buffer Files) → AllOf Named (a.visits t u w)
        pub no_includers :
            (p : Bytes) (w : Driver Buffer Files) → a.has_potential_includers p w ≡ false
        pub parse_same :
            (b : Buffer) (s : Files) (p : Bytes) (c : Buffer)
            → m.latest s p ≡ some c
            → Same p s (a.parse b s)
