-- ===== src/Driver/Types.antt =====
-- include/ServerDriver.h: the documents and the open ones; and what is asked of slang's source
-- manager and of the analysis. A buffer's identity is slang's, and a URI is its text.
use slang_server_verilator.Diag.Publish.{DiagClient}
use slang_server_verilator.Prelude.{Bool, List, Option, Bytes}

-- `slang::SourceManager`, and `std::filesystem::weakly_canonical`. `latest` is the buffer of a
-- canonical path that is cached (`isCached`, and `readSource` then), and `is_latest` is `isLatestData`;
-- a text is with its final NUL.
pub record Manager (Buffer Files : Type 0) : Type 0 where
  pub canonical : Bytes → Bytes
  pub full_path : Buffer → Bytes
  pub text : Files → Buffer → Bytes
  pub latest : Files → Bytes → Option Buffer
  pub is_latest : Files → Buffer → Bool
  pub read : Bytes → Files → Option Buffer × Files
  pub assign_text : Bytes → Bytes → Files → Buffer × Files
  pub replace : Buffer → Bytes → Files → Buffer × Files
  pub reload : Buffer → Files → Option Buffer × Files

-- `SlangDoc`: its buffer, and whether the tree, the analysis and the compilation are there
pub record Document (Buffer : Type 0) : Type 0 where
  pub buffer : Buffer
  pub tree : Bool
  pub analysis : Bool
  pub include_compilation : Bool

-- `docs`, `m_openDocs`, `m_buildSourceUris`, whether `comp` is set, and the client of diagnostics
pub record Driver (Buffer Files : Type 0) : Type 0 where
  pub files : Files
  pub docs : List (Bytes × Document Buffer)
  pub open_docs : List Bytes
  pub build_sources : List Bytes
  pub has_comp : Bool
  pub client : DiagClient

-- What is done with a document: `analyzeDocument`, `publishInactiveRegions`, the refresh of the
-- compilation on a save, the updates of the index
pub data Task : Type 0 where
  analyzing publishing refreshing indexing : Task

-- What slang and the analysis on it say: `URI::getPath`; the documents whose trees a task asks for, and
-- those of them that get an analysis; `hasPotentialIncluders` and the buffers of the include contexts;
-- whether a document is on such a context already, and whether its tree has valid buffers; the files
-- after a parse, which reads what is included; the diagnostics after a task; `hasAnalysis`; whether
-- two documents have one syntax tree.
pub record Analysis (Buffer Files : Type 0) : Type 0 where
  pub path : Bytes → Bytes
  pub visits : Task → Bytes → Driver Buffer Files → List Bytes
  pub is_analyzed : Task → Bytes → Bool
  pub has_potential_includers : Bytes → Driver Buffer Files → Bool
  pub contexts : Bytes → Driver Buffer Files → List Buffer
  pub on_context : Document Buffer → Buffer → Files → Bool
  pub has_valid_buffers : Document Buffer → Files → Bool
  pub parse : Buffer → Files → Files
  pub publish : Task → Bytes → Driver Buffer Files → DiagClient
  pub has_analysis : Document Buffer → Files → Bool
  pub same_tree : Document Buffer → Document Buffer → Bool

-- A handler returns, or throws out of the middle of its work.
pub data Outcome (State : Type 0) : Type 0 where
  returned : State → Outcome State
  threw : State → Outcome State

abbrev pub state_of : {State : Type 0} → Outcome State → State
state_of (returned s) = s
state_of (threw s) = s

-- A step after another, unless that one threw
abbrev pub then_do : {State : Type 0} → Outcome State → (State → Outcome State) → Outcome State
then_do (returned s) f = f s
then_do (threw s) f = threw s

-- `lsp::FileChangeType` and `lsp::FileEvent`
pub data FileChangeType : Type 0 where
  created changed deleted : FileChangeType

pub record FileEvent : Type 0 where
  pub uri : Bytes
  pub type : FileChangeType
