-- ===== src/Server/Load.antt =====
-- src/SlangServer.cpp: `setExplore`, `setTopLevel`, `setBuildFile`, both `loadConfig` and
-- `reloadWatchedConfig`. The log is left out.
use slang_server_verilator.Prelude.{
  Bool, true, false, not, ◌&&◌, ◌||◌, List, [], ◌∷◌, ◌++◌, Option, none, some, if◌then◌else◌, Bytes,
  list_eqb,
}
use slang_server_verilator.Server.Create.{Created, create_for_explore, create_from_file_lists}
use slang_server_verilator.Server.Types.{Config, Loaded, loaded, failed, Drivers, Services, Server}
use slang_server_verilator.Text.{codes}

abbrev pub is_some {ℓ} : {A : Type ℓ} → Option A → Bool
is_some none = false
is_some (some a) = true

unfoldable pub lists_eqb : List Bytes → List Bytes → Bool
lists_eqb [] [] = true
lists_eqb (x ∷ xs) (y ∷ ys) = list_eqb x y && lists_eqb xs ys
lists_eqb _ _ = false

-- The text of the error for a relative path that cannot be resolved
abbrev no_folder : Bytes → Bytes
no_folder path =
    codes "Cannot set top level to relative path "
    ++ (path ++ codes ": no workspace folder to resolve it against. Use an absolute path.")

abbrev server_json : Bytes
server_json = codes ".slang/server.json"

abbrev pub local_json : Bytes
local_json = codes ".slang/local/server.json"

module _ {Settings Driver World Change : Type 0} (d : Drivers Settings Driver World Change)
    (v : Services Settings World Change) where
  destroy_old : Option Driver → World → World
  destroy_old none w = w
  destroy_old (some old) w = d.destroy old w

  -- `m_driver = std::move(newDriver)`: the old driver is destroyed.
  unfoldable pub replace_driver :
      Option Driver → Driver → World → Server Settings Driver World → Server Settings Driver World
  unfolding destroy_old
  replace_driver old new w s = record s { driver = some new; world = destroy_old old w }

  push_from : Option Driver → Server Settings Driver World → Server Settings Driver World
  push_from none s = s
  push_from (some new) s =
      let (new', w) = d.push_diags new s.world in record s { driver = some new'; world = w }

  -- `m_driver->diagClient->pushDiags()`
  unfoldable pub push_driver : Server Settings Driver World → Server Settings Driver World
  unfolding push_from
  push_driver s = push_from s.driver s

  -- A creation that does not require a valid configuration is never refused; of a null driver the
  -- code makes no use that is defined.
  unfoldable pub install : Created d → Server Settings Driver World → Server Settings Driver World
  install (old, none, w) s = record s { driver = old; world = w }
  install (old, some new, w) s = replace_driver old new w s

  unfoldable pub set_explore : Server Settings Driver World → Server Settings Driver World
  set_explore s = push_driver (
      install (create_for_explore d s.config s.workspace s.driver false s.world)
        (record s { buildfile = none; top_file = none }))

  -- The path that `setTopLevel` takes, or none if it is relative and there is no folder
  unfoldable pub resolve_top : Option Bytes → Bytes → Option Bytes
  resolve_top none path = if v.is_absolute path then some path else none
  resolve_top (some folder) path =
      if v.is_absolute path then some path else some (v.join_normal folder path)

  -- The part of `setTopLevel` behind the early returns
  unfoldable pub use_top : Bytes → Server Settings Driver World → Server Settings Driver World
  use_top top s =
      let (old, new, w) = d.create_from_top s.config top s.workspace s.driver s.world in
      replace_driver old new w (record s { buildfile = none; top_file = some top })

  set_path : Option Bytes → Bytes → Server Settings Driver World → Server Settings Driver World
  set_path none path s = record s { world = v.show_error (no_folder path) s.world }
  set_path (some top) path s = use_top top s

  unfoldable pub set_top_level : Bytes → Server Settings Driver World → Server Settings Driver World
  unfolding set_path
  set_top_level [] s = set_explore s
  set_top_level (c ∷ path) s = set_path (resolve_top s.workspace (c ∷ path)) (c ∷ path) s

  unfoldable pub set_build_file :
      Bytes → Server Settings Driver World → Server Settings Driver World
  set_build_file [] s = set_explore s
  set_build_file (c ∷ path) s =
      install
        (create_from_file_lists d s.config ((c ∷ path) ∷ []) s.workspace s.driver false s.world)
        (record s { buildfile = some (c ∷ path); top_file = none })

  -- `getIndexGlobs`
  unfoldable pub get_index_globs : Config Settings → List Bytes
  get_index_globs c = elim c.index_globs [
    | [] ↦ codes "./.../*.sv*" ∷ []
    | g ∷ gs ↦ v.sort_unique (g ∷ gs)
  ]

  unfoldable pub absolute_globs : List Bytes → List Bytes
  absolute_globs [] = []
  absolute_globs (g ∷ gs) =
      let rest = absolute_globs gs in if v.is_absolute g then g ∷ rest else rest

  unfoldable pub uses_globs : Config Settings → Bool
  uses_globs c = not (lists_eqb c.index_globs []) || not (lists_eqb c.exclude_dirs [])

  unfoldable pub globs_changed : Config Settings → Config Settings → Bool
  globs_changed old new =
      not (lists_eqb (get_index_globs old) (get_index_globs new))
      || not (lists_eqb old.exclude_dirs new.exclude_dirs)

  -- With no folder, only the absolute globs are kept.
  unfoldable pub globs_to_index : Config Settings → Option Bytes → List Bytes
  globs_to_index c workspace =
      if is_some workspace then get_index_globs c else absolute_globs (get_index_globs c)

  index_by_globs : Config Settings → Option Bytes → World → World
  index_by_globs c workspace w =
      v.start_globs (globs_to_index c workspace) c.exclude_dirs (v.set_threads c w)

  -- The indexing at the end of `loadConfig`
  unfoldable pub start_indexing :
      Config Settings → Config Settings → Bool → Option Bytes → World → World
  unfolding index_by_globs
  start_indexing old new force workspace w =
      if uses_globs new
      then (if force || globs_changed old new then index_by_globs new workspace w else w)
      else (if force then v.start_indexing new workspace (v.set_threads new w) else w)

  unfoldable pub chosen_build : Bool → Option Bytes → Option Bytes → Option Bytes
  chosen_build require current configured =
      if require && is_some current then current else configured

  unfoldable pub create :
      Option Bytes → Config Settings → Bool → Server Settings Driver World → Created d
  create none c require s = create_for_explore d c s.workspace s.driver require s.world
  create (some b) c require s =
      create_from_file_lists d c (b ∷ []) s.workspace s.driver require s.world

  -- `loadConfig` once the new driver is there
  unfoldable pub finish_load :
      Config Settings
      → Bool
      → Option Bytes
      → Server Settings Driver World
      → Server Settings Driver World
  finish_load c force build s =
      let s' =
        push_driver
          (record s { config = c; buildfile = build; top_file = none; pending = false }) in
      record s' { world = v.set_config c (start_indexing s.config c force s.workspace s'.world) }

  unfoldable pub conclude :
      Created d
      → Config Settings
      → Bool
      → Option Bytes
      → Server Settings Driver World
      → Bool × Server Settings Driver World
  conclude (old, none, w) c force build s = (false, record s { driver = old; world = w })
  conclude (old, some new, w) c force build s =
      (true, finish_load c force build (replace_driver old new w s))

  -- `loadConfig(config, forceIndexing, requireValidConfig)`
  unfoldable pub load_config :
      Config Settings
      → Bool
      → Bool
      → Server Settings Driver World
      → Bool × Server Settings Driver World
  load_config c force require s =
      let s' = record s { world = v.apply_level c s.world } in
      let build = chosen_build require s.buildfile c.build in
      conclude (create build c require s') c force build s'

  in_folder : Option Bytes → Bytes → Option Bytes
  in_folder none path = none
  in_folder (some folder) path = some (v.join folder path)

  -- The three files that are layered: of the workspace, of the user, and the local one
  unfoldable pub read_config : Server Settings Driver World → Loaded Settings
  unfolding in_folder
  read_config s =
      let user = if v.under_tests s.world then none else in_folder (v.home s.world) server_json in
      v.from_files (in_folder s.workspace server_json) user (in_folder s.workspace local_json)
        s.world

  unfoldable pub load_result :
      Loaded Settings → Bool → Server Settings Driver World → Bool × Server Settings Driver World
  load_result (loaded c) require s = load_config c true require s
  load_result (failed message) require s =
      let shown = record s { world = v.show_error message s.world } in
      let fresh = load_config v.default_config true false shown in
      if require then (false, s) else if is_some s.driver then (false, shown) else fresh

  -- `loadConfig(requireValidConfig)`
  unfoldable pub load_files :
      Bool → Server Settings Driver World → Bool × Server Settings Driver World
  load_files require s = load_result (read_config s) require s

  unfoldable pub restore_top :
      Option Bytes → Server Settings Driver World → Server Settings Driver World
  restore_top none s = s
  restore_top (some top) s = set_top_level top s

  -- `reloadWatchedConfig`
  unfoldable pub reload_watched_config : Server Settings Driver World → Server Settings Driver World
  reload_watched_config s =
      let (ok, s') = load_files true s in
      if ok then restore_top s.top_file s' else record s' { pending = true }
