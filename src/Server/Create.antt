-- ===== src/Server/Create.antt =====
-- src/ServerDriver.cpp: how a driver is made that takes over from an old one.
use slang_server_verilator.Prelude.{
  Bool, not, ◌&&◌, List, [], Option, none, some, if◌then◌else◌, Bytes,
}
use slang_server_verilator.Server.Types.{Config, Drivers}

module _ {Settings Driver World Change : Type 0} (d : Drivers Settings Driver World Change) where
  -- What a creation leaves: the old driver, the new one unless it was refused, and the world
  abbrev pub Created : Type 0
  Created = Option Driver × Option Driver × World

  -- `copyOpenDocumentsFrom`, which does nothing with no old driver
  unfoldable pub take_over : Option Driver → Driver → World → Option Driver × Driver × World
  take_over none new w = (none, new, w)
  take_over (some old) new w = let (old', new', w') = d.copy_open old new w in (some old', new', w')

  unfoldable pub accept : Option Driver × Driver × World → Created
  accept (old, new, w) = (old, some new, w)

  -- A driver that is refused is destroyed.
  unfoldable pub refuse : Option Driver → Driver → World → Created
  refuse old new w = (old, none, d.destroy new w)

  -- `createForExplore`
  unfoldable pub create_for_explore :
      Config Settings → Option Bytes → Option Driver → Bool → World → Created
  create_for_explore config workspace old require w =
      let (new, w') = d.construct config [] workspace require w in
      if require && not (d.config_loaded new)
      then refuse old new w'
      else accept (take_over old new w')

  publish : Option Driver × Driver × World → Created
  publish (old, new, w) = let (new', w') = d.publish_compilation new w in (old, some new', w')

  -- The part of `createFromFileLists` behind the test for documents
  unfoldable pub compile_all : Option Driver → Driver → World → Created
  unfolding publish
  compile_all old new w =
      let (new', w') = d.compile new w in publish (take_over old (d.clear_diags new') w')

  -- `createFromFileLists`
  unfoldable pub create_from_file_lists :
      Config Settings → List Bytes → Option Bytes → Option Driver → Bool → World → Created
  create_from_file_lists config buildfiles workspace old require w =
      let (new, w') = d.construct config buildfiles workspace require w in
      if require && not (d.config_loaded new)
      then refuse old new w'
      else if not (d.has_documents new)
      then accept (take_over old new w')
      else compile_all old new w'
