-- ===== src/Server/Types.antt =====
-- include/SlangServer.h: the state of the server, and what it asks of the other parts. The driver,
-- the indexer with the client and the disk (`World`), and the settings that the server only hands on
-- are parameters.
use slang_server_verilator.Prelude.{Bool, List, Option, Bytes}

-- `Config`, with the fields that the server reads
pub record Config (Settings : Type 0) : Type 0 where
  pub build : Option Bytes
  pub index_globs : List Bytes
  pub exclude_dirs : List Bytes
  pub settings : Settings

-- `rfl::Result<Config>`
pub data Loaded (Settings : Type 0) : Type 0 where
  loaded : Config Settings → Loaded Settings
  failed : Bytes → Loaded Settings

-- The operations of `ServerDriver`. The constructor takes the build files and whether a valid
-- configuration is required; `copy_open` is `copyOpenDocumentsFrom`, which empties the old one's
-- diagnostics, so it gives the old driver too, first.
pub record Drivers (Settings Driver World Change : Type 0) : Type 0 where
  pub construct : Config Settings → List Bytes → Option Bytes → Bool → World → Driver × World
  pub config_loaded : Driver → Bool
  pub has_documents : Driver → Bool
  pub compile : Driver → World → Driver × World
  pub clear_diags : Driver → Driver
  pub copy_open : Driver → Driver → World → Driver × Driver × World
  pub publish_compilation : Driver → World → Driver × World
  pub create_from_top :
      Config Settings
      → Bytes
      → Option Bytes
      → Option Driver
      → World
      → Option Driver × Driver × World
  pub push_diags : Driver → World → Driver × World
  pub destroy : Driver → World → World
  pub on_watched : List Change → Driver → World → Driver × World
  pub is_command_file : Driver → Bytes → Bool

-- The rest of what the server calls: Config::fromFiles, the indexer, the client, the logger,
-- std::filesystem and std::sort, and the text under "flags" in a file, read and written by the JSON
-- library
pub record Services (Settings World Change : Type 0) : Type 0 where
  pub default_config : Config Settings
  pub from_files : Option Bytes → Option Bytes → Option Bytes → World → Loaded Settings
  pub home : World → Option Bytes
  pub under_tests : World → Bool
  pub apply_level : Config Settings → World → World
  pub show_error : Bytes → World → World
  pub set_config : Config Settings → World → World
  pub set_threads : Config Settings → World → World
  pub start_globs : List Bytes → List Bytes → World → World
  pub start_indexing : Config Settings → Option Bytes → World → World
  pub index_watched : List Change → World → World
  pub sort_unique : List Bytes → List Bytes
  pub is_absolute : Bytes → Bool
  pub join : Bytes → Bytes → Bytes
  pub join_normal : Bytes → Bytes → Bytes
  pub read_flags : Bytes → World → Option Bytes
  pub write_flags : Bytes → Bytes → World → World
  pub weakly_canonical : Bytes → Option Bytes
  pub path : Change → Bytes
  pub extension : Change → Bytes

-- `SlangServer`: `workspace` is the path of the folder, and `driver` is none until the first load.
pub record Server (Settings Driver World : Type 0) : Type 0 where
  pub driver : Option Driver
  pub buildfile : Option Bytes
  pub top_file : Option Bytes
  pub workspace : Option Bytes
  pub config : Config Settings
  pub pending : Bool
  pub world : World
