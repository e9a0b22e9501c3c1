-- ===== src/Server/Watched.antt =====
-- src/SlangServer.cpp: `registerFileWatchers` and `onWorkspaceDidChangeWatchedFiles`, on the
-- dispatch of Watch.
use slang_server_verilator.Prelude.{
  Bool, true, false, List, [], ◌∷◌, Option, none, some, if◌then◌else◌, Bytes,
}
use slang_server_verilator.Server.Load.{reload_watched_config}
use slang_server_verilator.Server.Types.{Drivers, Services, Server}
use slang_server_verilator.Text.{codes}
use slang_server_verilator.Watch.Dispatch.{Watcher, add_extensions, dispatch}

module _ {Settings Driver World Change : Type 0} (d : Drivers Settings Driver World Change)
    (v : Services Settings World Change) where
  abbrev pub Handler : Type 0
  Handler = List Change → Server Settings Driver World → Bool × Server Settings Driver World

  unfoldable pub config_handler : Handler
  config_handler changes s = (true, reload_watched_config d v s)

  -- The key of the driver's metadata for a changed path
  unfoldable pub command_file : Change → Bytes
  command_file change = elim (v.weakly_canonical (v.path change)) [
    | none ↦ v.path change
    | some canonical ↦ canonical
  ]

  unfoldable pub is_command : Option Driver → Change → Bool
  is_command none change = false
  is_command (some driver) change = d.is_command_file driver (command_file change)

  -- The loop over the changes, which ends at the first file that the driver has read
  unfoldable pub names_command : Option Driver → List Change → Bool
  names_command driver [] = false
  names_command driver (change ∷ changes) =
      let rest = names_command driver changes in if is_command driver change then true else rest

  unfoldable pub command_handler : Handler
  command_handler changes s =
      if names_command s.driver changes then (true, reload_watched_config d v s) else (false, s)

  unfoldable pub tell_driver :
      Option Driver → List Change → Server Settings Driver World → Server Settings Driver World
  tell_driver none changes s = s
  tell_driver (some driver) changes s =
      let (driver', w) = d.on_watched changes driver s.world in
      record s { driver = some driver'; world = w }

  unfoldable pub source_handler : Handler
  source_handler changes s =
      (false, tell_driver s.driver changes (record s { world = v.index_watched changes s.world }))

  -- `registerFileWatchers`
  unfoldable pub file_watchers : List (Watcher Change (Server Settings Driver World))
  file_watchers =
      add_extensions
        (add_extensions
          (add_extensions [] (codes ".json" ∷ []) config_handler
            (codes ".slang/server.json" ∷ codes ".slang/local/server.json" ∷ []))
          (codes ".f" ∷ []) command_handler [])
        (codes ".sv" ∷ codes ".svh" ∷ codes ".v" ∷ codes ".vh" ∷ []) source_handler []

  -- `onWorkspaceDidChangeWatchedFiles`
  unfoldable pub on_watched :
      List Change → Server Settings Driver World → Server Settings Driver World
  on_watched changes s =
      let told = dispatch v.extension file_watchers changes s in
      if s.pending then reload_watched_config d v s else told
